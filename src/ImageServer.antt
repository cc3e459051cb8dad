-- ===== src/ImageServer.antt =====
-- Lab01/zad5/server5.cpp, which answers requests for pages of images, each in a thread of its own.
-- Page is what a thread puts together, Thread is `connection_handler`, and this file has `main`. What
-- `accept` gives is a list; a run that waits for more `returns`.
pub mod Page
pub mod Thread
pub mod Threads
use pus.Base.{ℕ, zero, suc, ◌%◌, ◌^◌, Bool, Option, none, some, List, [], ◌∷◌, if◌then◌else◌}
use pus.Base.Int.{to_unsigned}
use pus.Base.Text.{Text}
use pus.Base.Strings.{scan_int}
use pus.Base.Program.{
  Prog, returns, ◌>>=◌, ◌>>◌, pure, lift, exit, exit_success, exit_failure, fault, out_of_bounds,
}

pub data Call : Type 0 where
  socket_call bind_call accept_call recv_call opendir_call write_call : Call

pub data Event : Type 0 where
  usage : Event
  failed : Call → Event
  no_packet : Event
  bound : ℕ → Event
  is_waiting : Event
  accepted : ℕ → Event
  thread_started : ℕ → Event
  dir_closed : Event
  sent : ℕ → Text → Event
  socket_closed : Event

-- The latest event is first.
abbrev pub Trace : Type 0
Trace = List Event

-- What `accept` gives: below 0, or a descriptor, with whether `pthread_create` starts a thread. A
-- failure of `pthread_create` is a number above 0.
pub data Accepting : Type 0 where
  accept_error : Accepting
  connection : ℕ → Bool → Accepting

-- What the system answers. `malloc` gives the bytes that may be touched, with what they happen to
-- hold; `opendir` gives the names that `readdir` will give.
pub record Kernel : Type 0 where
  pub socket : Option ℕ
  pub bind_socket : ℕ → Bool
  pub has_int : Trace → Bool
  pub malloc : ℕ → Option (List ℕ)
  pub opendir : Option (List Text)
  pub write : Trace → Bool

unfoldable pub emit : Event → Prog Trace (Unit {0})
emit event trace = returns tt (event ∷ trace)

unfoldable pub give_up : {A : Type 0} → Event → Prog Trace A
unfolding emit
give_up event = do emit event; exit exit_failure

module _ (kernel : Kernel) where
  open kernel use {socket, bind_socket, has_int}

  -- The block for the descriptor, and the thread.
  unfoldable pub start_thread : ℕ → Bool → Prog Trace (Unit {0})
  unfolding emit
  start_thread fd is_started trace =
      if has_int trace
      then (if is_started then emit (thread_started fd) else pure tt) trace
      else fault out_of_bounds trace

  -- The descriptor 0 ends the loop.
  unfoldable pub accept_loop : List Accepting → Prog Trace (Unit {0})
  unfolding emit give_up start_thread
  accept_loop [] = pure tt
  accept_loop (accept_error ∷ rest) = give_up (failed accept_call)
  accept_loop (connection zero is_started ∷ rest) = do emit socket_closed; exit exit_success
  accept_loop (connection (suc n) is_started ∷ rest) = do
    emit (accepted (suc n))
    start_thread (suc n) is_started
    accept_loop rest

  unfoldable pub open_socket : Prog Trace ℕ
  unfolding give_up
  open_socket = elim socket [ none ↦ give_up (failed socket_call) | some fd ↦ pure fd ]

  -- The result of `listen` is not looked at. The port is first used behind `socket`.
  unfoldable pub serve : Text → List Accepting → Prog Trace (Unit {0})
  unfolding emit give_up open_socket accept_loop
  serve arg acceptings = do
    fd ← open_socket
    port ← lift (scan_int arg)
    if bind_socket (to_unsigned port % 2 ^ 16)
        then emit (bound (to_unsigned port % 2 ^ 16))
        else give_up (failed bind_call)
    emit is_waiting
    accept_loop acceptings

  unfoldable pub main : List Text → List Accepting → Prog Trace (Unit {0})
  unfolding give_up serve
  main (program ∷ arg ∷ []) acceptings = serve arg acceptings
  main argv acceptings = give_up usage
