-- ===== src/ImageServer/Thread.antt =====
-- `connection_handler` of Lab01/zad5/server5.cpp.
pub mod Laws
use pus.Base.{
  ℕ, zero, suc, ◌-◌, Bool, true, false, Option, none, some, List, [], ◌∷◌, ◌++◌, length, take, drop,
  ltb, if◌then◌else◌,
}
use pus.Base.Text.{Text, codes, str_eq, c_string}
use pus.Base.Buffer.{zeros}
use pus.Base.Strings.{scan_word, put_bytes}
use pus.Base.Program.{
  Prog, Result, ok, fails, bind, ◌>>=◌, ◌>>◌, pure, lift, fault, out_of_bounds, uninitialised,
}
use pus.ImageServer.{
  recv_call, opendir_call, write_call, failed, no_packet, dir_closed, sent, Trace, Kernel, emit,
  give_up,
}
use pus.ImageServer.Page.{fill_page}

-- What `recv` gives; no bytes stand for the end of the stream.
pub data Receipt : Type 0 where
  recv_error : Receipt
  bytes : List ℕ → Receipt

abbrev pub max_client_message : ℕ
max_client_message = 2000

-- The size of `method`, `protocol` and `url`.
abbrev pub word_size : ℕ
word_size = 256

-- What was received, with the NUL behind it, as a text.
unfoldable pub message : List ℕ → Result Text
message received =
    if ltb (length received) max_client_message
    then c_string (received ++ 0 ∷ [])
    else fails out_of_bounds

-- A word as it is stored. Where there is none, `strlen` reads what was never written.
unfoldable pub read_word : Text → Result (Text × Text)
read_word text = elim (scan_word text) [
  | none ↦ fails uninitialised
  | some (found, rest) ↦
      if ltb (length found) word_size then ok (found, rest) else fails out_of_bounds
]

-- The URL and the protocol.
unfoldable pub request : Text → Result (Text × Text)
unfolding read_word
request text = bind (read_word text) λ (method, rest1).
    bind (read_word rest1)
      λ (url, rest2). bind (read_word rest2) λ (protocol, rest3). ok (url, protocol)

-- `p`, the URL without its first character, in a block that `malloc` gave. `memset` clears it up to
-- the first NUL that it happens to hold.
unfoldable pub fill_block : Text → List ℕ → Result Text
unfolding put_bytes
fill_block url block = bind (c_string block) λ old.
    bind (put_bytes (drop 1 url ++ 0 ∷ []) (zeros (length old) ++ drop (length old) block))
      λ p. c_string p

unfoldable pub with_block : Text → Option (List ℕ) → Prog Trace Text
unfolding fill_block
with_block url none = fault out_of_bounds
with_block url (some block) = lift (fill_block url block)

module _ (kernel : Kernel) where
  open kernel use {malloc, opendir, write}

  unfoldable pub path_of : Text → Prog Trace Text
  unfolding with_block
  path_of url = with_block url (malloc (length url - 1))

  unfoldable pub open_dir : Prog Trace (List Text)
  unfolding give_up
  open_dir = elim opendir [ none ↦ give_up (failed opendir_call) | some names ↦ pure names ]

  unfoldable pub write_page : ℕ → List ℕ → Prog Trace (Unit {0})
  unfolding emit give_up
  write_page sock buff = do
    text ← lift (c_string buff)
    λ trace. if write trace then emit (sent sock text) trace else give_up (failed write_call) trace

  unfoldable pub answer : ℕ → Text → Prog Trace (Unit {0})
  unfolding emit path_of open_dir write_page
  answer sock url = do
    p ← path_of url
    names ← open_dir
    buff ← lift (fill_page p names)
    emit dir_closed
    write_page sock buff

  -- For another protocol `buff_send` is measured although it was never written.
  unfoldable pub connection_handler : ℕ → Receipt → Prog Trace (Unit {0})
  unfolding give_up message request answer
  connection_handler sock recv_error = give_up (failed recv_call)
  connection_handler sock (bytes []) = give_up no_packet
  connection_handler sock (bytes (c ∷ rest)) = do
    text ← lift (message (take max_client_message (c ∷ rest)))
    (url, protocol) ← lift (request text)
    if str_eq protocol (codes "HTTP/1.1") then answer sock url else fault uninitialised
