-- ===== src/Sctp/Server3.antt =====
-- `main` of Lab04/zad3/server3.c. The loop has no end: a run is followed for as many messages as
-- are given, and `returns` where it would wait for the next.
pub mod Laws
use pus.Base.{ℕ, zero, suc, ◌+◌, ◌==◌, ltb, if◌then◌else◌, Option, none, some, List, [], ◌∷◌}
use pus.Base.Int.{ℤ, pos, negsuc}
use pus.Base.Text.{Text, atoi, c_string}
use pus.Base.Program.{Prog, Result, ok, fails, uninitialised, ◌>>=◌, ◌>>◌, pure, lift}
use pus.Sctp.{
  error, got, invocation, choose, contents, stream_number, printed, received, Trace, Receipt,
  Kernel,
}
use pus.Sctp.Steps.{
  emit, give_up, filled, bytes_of, info_of, open_socket, bind_port, set_initmsg, start_listening,
  set_events, send_message,
}

-- `sinit_num_ostreams`
abbrev pub ostreams : ℕ
ostreams = 5

-- The two values of `wybor`.
pub data Choice : Type 0 where
  same next : Choice

unfoldable pub next_stream : ℕ → ℕ
next_stream stream = if ltb (stream + 1) ostreams then stream + 1 else 0

unfoldable pub reply_stream : Choice → ℕ → ℕ
unfolding next_stream
reply_stream same stream = stream
reply_stream next stream = next_stream stream

-- `cliaddr` behind `sctp_recvmsg`, which leaves it alone where it fails.
unfoldable pub cliaddr_of : Option ℕ → Receipt → Option ℕ
cliaddr_of cliaddr error = cliaddr
cliaddr_of cliaddr (got bytes info) = some info.sender

-- An address that was never written is not to be used.
unfoldable pub use_address : Option ℕ → Result ℕ
use_address none = fails uninitialised
use_address (some address) = ok address

module _ (kernel : Kernel) where
  -- A round of the loop.
  round : ℕ → Choice → Option ℕ → Receipt → Prog Trace (Unit {0})
  unfolding emit filled bytes_of info_of reply_stream send_message cliaddr_of use_address
  round listenfd choice cliaddr receipt = do
    emit received
    text ← lift (c_string (filled (bytes_of receipt)))
    emit (printed (contents text))
    emit (printed (stream_number (reply_stream choice (info_of receipt).stream)))
    address ← lift (use_address (cliaddr_of cliaddr receipt))
    send_message kernel listenfd (some address) text (reply_stream choice (info_of receipt).stream)

  loop : ℕ → Choice → Option ℕ → List Receipt → Prog Trace (Unit {0})
  unfolding round cliaddr_of
  loop listenfd choice cliaddr [] = pure tt
  loop listenfd choice cliaddr (receipt ∷ receipts) = do
    round listenfd choice cliaddr receipt
    loop listenfd choice (cliaddr_of cliaddr receipt) receipts

  serve : Text → Choice → List Receipt → Prog Trace (Unit {0})
  unfolding loop
  serve port choice receipts = do
    listenfd ← open_socket kernel
    number ← lift (atoi port)
    bind_port kernel number
    set_initmsg kernel ostreams 5
    start_listening kernel
    set_events kernel
    loop listenfd choice none receipts

  choose_mode : Text → ℤ → List Receipt → Prog Trace (Unit {0})
  unfolding serve
  choose_mode port (pos zero) receipts = serve port same receipts
  choose_mode port (pos (suc zero)) receipts = serve port next receipts
  choose_mode port (pos (suc (suc n))) receipts = give_up (printed choose)
  choose_mode port (negsuc n) receipts = give_up (printed choose)

  unfoldable pub main : List Text → List Receipt → Prog Trace (Unit {0})
  unfolding choose_mode
  main (name ∷ port ∷ wybor ∷ []) receipts = do
    number ← lift (atoi wybor)
    choose_mode port number receipts
  main _ receipts = give_up (printed invocation)
