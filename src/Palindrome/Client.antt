-- ===== src/Palindrome/Client.antt =====
-- Lab01/zad3/client3.cpp, which sends lines and shows the answers. A round has the line that is typed
-- and what `recvfrom` gives. Of the buffer only what was written is known.
use pus.Base.{
  ℕ, zero, suc, ◌-◌, ◌%◌, ◌^◌, Bool, Option, none, some, List, [], ◌∷◌, ◌++◌, length, take, ltb,
  ◌==◌, if◌then◌else◌,
}
use pus.Base.Int.{to_unsigned}
use pus.Base.Text.{Text, atoi, c_string}
use pus.Base.Buffer.{overwrite}
use pus.Base.Program.{
  Prog, Result, ok, fails, bind, returns, ◌>>=◌, ◌>>◌, lift, exit, exit_success, exit_failure,
  out_of_bounds, uninitialised,
}

pub data Call : Type 0 where
  socket_call inet_pton_call connect_call send_call recvfrom_call : Call

pub data Event : Type 0 where
  usage : Event
  failed : Call → Event
  invalid_address : Event
  asked : Event
  sent : Text → Event
  shown : Text → Event
  closed : Event

-- The latest event is first.
abbrev pub Trace : Type 0
Trace = List Event

-- What `inet_pton` says of an address.
pub data Address : Type 0 where
  valid invalid no_family : Address

pub record Kernel : Type 0 where
  pub has_socket : Bool
  pub inet_pton : Text → Address
  pub connect : Text → ℕ → Bool
  pub send : Trace → Bool

abbrev pub buff_size : ℕ
buff_size = 256

unfoldable pub emit : Event → Prog Trace (Unit {0})
emit event trace = returns tt (event ∷ trace)

unfoldable pub give_up : Event → Prog Trace (Unit {0})
unfolding emit
give_up event = do emit event; exit exit_failure

-- The text in a buffer of which only the front was written.
unfoldable pub read_reply : ℕ → List ℕ → Result Text
read_reply zero [] = fails out_of_bounds
read_reply (suc room) [] = fails uninitialised
read_reply zero (c ∷ buff) = fails out_of_bounds
read_reply (suc room) (c ∷ buff) =
    if c == 0 then ok [] else bind (read_reply room buff) λ text. ok (c ∷ text)

unfoldable pub show_reply : List ℕ → Prog Trace (Unit {0})
unfolding emit read_reply
show_reply buff = do text ← lift (read_reply buff_size buff); emit (shown text)

unfoldable pub close_all : Prog Trace (Unit {0})
unfolding emit
close_all = do emit closed; exit exit_success

-- The typed line as `getline` stores it, up to the first NUL.
unfoldable pub typed : Text → Result Text
typed line = c_string (take (buff_size - 1) line ++ 0 ∷ [])

module _ (kernel : Kernel) where
  unfoldable pub send_text : Text → Prog Trace (Unit {0})
  unfolding emit give_up
  send_text text trace =
      if kernel.send trace then emit (sent text) trace else give_up (failed send_call) trace

  -- The last round: an empty line, which is also what `getline` stores behind the end of the input, and
  -- behind a line that was too long.
  unfoldable pub last_round : Prog Trace (Unit {0})
  unfolding emit send_text close_all
  last_round = do emit asked; send_text []; close_all

  unfoldable pub loop : List ℕ → List (Text × Option (List ℕ)) → Prog Trace (Unit {0})
  unfolding emit give_up typed send_text show_reply last_round close_all
  loop buff [] = last_round
  loop buff ((line, none) ∷ rounds) = do
    emit asked
    text ← lift (typed line)
    send_text text
    if length text == 0 then close_all else give_up (failed recvfrom_call)
  loop buff ((line, some bytes) ∷ rounds) = do
    emit asked
    text ← lift (typed line)
    send_text text
    if length text == 0
        then close_all
        else show_reply (overwrite buff_size bytes buff)
          >> (if ltb (length line) buff_size
              then loop (overwrite buff_size bytes buff) rounds
              else last_round)

  unfoldable pub connect_to : Text → Text → Prog Trace (Unit {0})
  unfolding give_up
  connect_to ip arg = do
    port ← lift (atoi arg)
    if kernel.connect ip (to_unsigned port % 2 ^ 16)
        then (λ trace. returns tt trace)
        else give_up (failed connect_call)

  unfoldable pub check_address : Address → Prog Trace (Unit {0})
  unfolding give_up
  check_address valid trace = returns tt trace
  check_address invalid trace = give_up invalid_address trace
  check_address no_family trace = give_up (failed inet_pton_call) trace

  unfoldable pub main : List Text → List (Text × Option (List ℕ)) → Prog Trace (Unit {0})
  unfolding give_up check_address connect_to loop
  main (program ∷ ip ∷ arg ∷ []) rounds =
      if kernel.has_socket
      then (do check_address (kernel.inet_pton ip); connect_to ip arg; loop [] rounds)
      else give_up (failed socket_call)
  main argv rounds = give_up usage
