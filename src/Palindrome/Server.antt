-- ===== src/Palindrome/Server.antt =====
-- Lab01/zad3/server3.cpp, which answers datagrams by `is_palindrome`. What comes in is a list; a run
-- that waits for more `returns`. The buffer is the list of its 256 bytes. `currentChar` is never
-- written: the value that it happens to hold is a parameter.
pub mod Laws
pub mod Texts
use pus.Base.{
  ℕ, zero, suc, ◌%◌, ◌^◌, Bool, true, false, Option, none, some, List, [], ◌∷◌, ◌++◌, ◌==◌,
  if◌then◌else◌, length, take, drop,
}
use pus.Base.Int.{ℤ, pos, negsuc, to_unsigned}
use pus.Base.Text.{Text, atoi, c_string}
use pus.Base.Program.{
  Prog, Outcome, returns, exits, faults, ◌>>=◌, ◌>>◌, pure, lift, exit, exit_success, exit_failure,
  fault, out_of_bounds,
}
use pus.Base.Buffer.{overwrite, zeros}
use pus.Palindrome.{World, isdigit, is_palindrome}

pub data Call : Type 0 where
  socket_call bind_call recvfrom_call : Call

pub data Event : Type 0 where
  usage : Event
  failed : Call → Event
  bound : ℕ → Event
  is_listening : Event
  received_from : ℕ → Event
  not_a_number : Event
  replied : ℕ → ℕ → Event
  printed_error : Event
  socket_closed no_message : Event

-- The latest event is first.
abbrev pub Trace : Type 0
Trace = List Event

-- The memory and what `is_palindrome` prints, and the events.
pub record State : Type 0 where
  pub world : World
  pub trace : Trace

-- What `recvfrom` gives: -1, or a datagram with the address that it comes from.
pub data Receipt : Type 0 where
  receive_error : Receipt
  datagram : ℕ → List ℕ → Receipt

-- What the system answers; `malloc` depends on what was done so far.
pub record Kernel : Type 0 where
  pub has_socket : Bool
  pub bind_socket : ℕ → Bool
  pub malloc : Trace → Bool

abbrev pub buff_size : ℕ
buff_size = 256

unfoldable pub emit : Event → Prog State (Unit {0})
emit event s = returns tt (record s { trace = event ∷ s.trace })

unfoldable pub give_up : Event → Prog State (Unit {0})
unfolding emit
give_up event = do emit event; exit exit_failure

-- `recvfrom` into the buffer, which keeps what is behind the datagram.
unfoldable pub store : List ℕ → List ℕ → List ℕ
unfolding overwrite
store bytes buff = overwrite buff_size bytes buff

-- The loop over the digits, which compares the variable that is never written.
unfoldable pub check_digits : ℕ → List ℕ → Prog State (Unit {0})
unfolding emit
check_digits current_char [] = fault out_of_bounds
check_digits current_char (c ∷ buff) = elim (isdigit c) [
  | false ↦ emit not_a_number
  | true ↦ elim (current_char == 0) [ true ↦ pure tt | false ↦ check_digits current_char buff ]
]

-- Runs `is_palindrome`.
abbrev run_in : {A : Type 0} → State → Outcome World A → Outcome State A
run_in s (returns a w) = returns a (record s { world = w })
run_in s (exits code w) = exits code (record s { world = w })
run_in s (faults e) = faults e

abbrev pub own : {A : Type 0} → Prog World A → Prog State A
own m s = run_in s (m s.world)

-- The character that is sent back.
unfoldable pub verdict : ℤ → ℕ
verdict (pos zero) = b'n'
verdict (pos (suc zero)) = b't'
verdict (pos (suc (suc n))) = b'x'
verdict (negsuc n) = b'x'

module _ (kernel : Kernel) (current_char : ℕ) where
  open kernel use {has_socket, bind_socket, malloc}

  -- Whether `sendto` failed is not looked at: `perror` follows in any case.
  unfoldable pub answer : ℕ → List ℕ → Prog State (Unit {0})
  unfolding emit check_digits verdict
  answer address buff = do
    emit (received_from address)
    check_digits current_char buff
    text ← lift (c_string buff)
    result ← λ s. own (is_palindrome (malloc s.trace) buff (length text)) s
    emit (replied address (verdict result))
    emit printed_error

  unfoldable pub shut_down : Prog State (Unit {0})
  unfolding emit
  shut_down = do emit socket_closed; emit no_message; exit exit_success

  -- A round with what was received.
  unfoldable pub loop : List ℕ → List Receipt → Prog State (Unit {0})
  unfolding emit give_up store answer shut_down
  loop buff [] = emit is_listening
  loop buff (receive_error ∷ receipts) = do emit is_listening; give_up (failed recvfrom_call)
  loop buff (datagram address [] ∷ receipts) = do emit is_listening; shut_down
  loop buff (datagram address (c ∷ bytes) ∷ receipts) = do
    emit is_listening
    answer address (store (c ∷ bytes) buff)
    loop (store (c ∷ bytes) buff) receipts

  unfoldable pub bind_port : Text → Prog State (Unit {0})
  unfolding emit give_up
  bind_port arg = do
    port ← lift (atoi arg)
    if bind_socket (to_unsigned port % 2 ^ 16)
        then emit (bound (to_unsigned port % 2 ^ 16))
        else give_up (failed bind_call)

  unfoldable pub main : List Text → List Receipt → Prog State (Unit {0})
  unfolding emit give_up bind_port loop
  main (program ∷ arg ∷ []) receipts =
      if has_socket
      then (do bind_port arg; loop (zeros buff_size) receipts)
      else give_up (failed socket_call)
  main argv receipts = give_up usage
