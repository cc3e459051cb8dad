-- ===== src/PortServer/Steps.antt =====
-- The steps that Lab08/Zad4/fserver.c, Lab08/Zad2/rootserver.c and Lab08/Zad5/capserver.c share.
use pus.Base.{ℕ, ◌%◌, ◌^◌, Bool, true, false, ◌||◌, none, some, ◌∷◌, ◌==◌, if◌then◌else◌}
use pus.Base.Program.{Prog, returns, ◌>>=◌, ◌>>◌, pure, exit, exit_success, exit_failure}
use pus.PortServer.{
  Ids, Call, socket_call, getresuid_call, bind_call, listen_call, accept_call, Event,
  need_unprivileged, failed, opened, got_ids, printed_ids, binding, bound, listening,
  printed_listening, accepted, slept, closing, closed, Trace, Kernel,
}

unfoldable pub emit : Event → Prog Trace (Unit {0})
emit event trace = returns tt (event ∷ trace)

-- Prints a message and ends the program.
unfoldable pub give_up : {A : Type 0} → Event → Prog Trace A
unfolding emit
give_up event = do emit event; exit exit_failure

-- `if (!ok) { perror(...); exit(EXIT_FAILURE); }`
unfoldable pub check : Bool → Call → Prog Trace (Unit {0})
unfolding give_up
check true call = pure tt
check false call = give_up (failed call)

-- What follows the second look at the user IDs.
unfoldable pub ensure_unprivileged : Ids → Prog Trace (Unit {0})
unfolding give_up
ensure_unprivileged ids =
    if ids.euid == 0 || ids.suid == 0 then give_up need_unprivileged else pure tt

module _ (kernel : Kernel) where
  unfoldable pub open_socket : Prog Trace ℕ
  unfolding give_up
  open_socket trace = elim (kernel.socket trace) [
    | none ↦ give_up (failed socket_call) trace
    | some listenfd ↦ returns listenfd (opened listenfd ∷ trace)
  ]

  unfoldable pub get_ids : Prog Trace Ids
  unfolding give_up
  get_ids trace = elim (kernel.getresuid trace) [
    | none ↦ give_up (failed getresuid_call) trace
    | some ids ↦ returns ids (printed_ids ids ∷ got_ids ids ∷ trace)
  ]

  -- `htons` takes the port modulo 2^16.
  unfoldable pub bind_port : ℕ → ℕ → Prog Trace (Unit {0})
  unfolding emit check
  bind_port listenfd port_number = do
    emit (binding port_number)
    λ trace. check (kernel.bind_socket listenfd (port_number % 2 ^ 16) trace) bind_call trace
    emit (bound listenfd (port_number % 2 ^ 16))

  unfoldable pub start_listening : ℕ → Prog Trace (Unit {0})
  unfolding emit check
  start_listening listenfd = do
    λ trace. check (kernel.listen listenfd trace) listen_call trace
    emit (listening listenfd)
    emit printed_listening

  unfoldable pub accept_connection : ℕ → Prog Trace ℕ
  unfolding give_up
  accept_connection listenfd trace = elim (kernel.accept listenfd trace) [
    | none ↦ give_up (failed accept_call) trace
    | some connection ↦ returns connection.connfd (accepted connection ∷ trace)
  ]

  -- From `listen` to the end.
  unfoldable pub serve : ℕ → Prog Trace (Unit {0})
  unfolding emit start_listening accept_connection
  serve listenfd = do
    start_listening listenfd
    connfd ← accept_connection listenfd
    emit (slept 5)
    emit closing
    emit (closed connfd)
    emit (closed listenfd)
    exit exit_success
