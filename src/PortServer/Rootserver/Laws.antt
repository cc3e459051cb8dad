-- ===== src/PortServer/Rootserver/Laws.antt =====
-- What Lab08/Zad2/rootserver.c has done when it ends.
use pus.Base.{both, not, ◌≤◌, ◌%◌, ℕ, ◌≡◌, true, ◌&&◌, [], ◌∷◌, arith, ◌<◌, ◌^◌}
use pus.Base.Int.{to_unsigned, ℤ}
use pus.Base.Text.{Text, atoi}
use pus.Base.Program.{ok, exits}
use pus.PortServer.{Trace, Kernel}
use pus.PortServer.Rootserver.{main, run, check_root, get_euid, check_euid}
use pus.PortServer.Steps.{
  serve, start_listening, accept_connection, check, emit, give_up, ensure_unprivileged, open_socket,
  get_ids, bind_port,
}
use pus.PortServer.Guards.{
  is_guarded, last_ids, was_bound, is_served, was_listening, was_accepted, ends, ends-exits,
  tells_served, asked_euid, binds_only, was_root, is_root_checked,
}

module _ (kernel : Kernel) where
  run-ends :
      (port user : Text) {n uid : ℤ}
      → atoi port ≡ ok n
      → atoi user ≡ ok uid
      → ends (λ code t. is_guarded t && tells_served code t) (run kernel port user []) ≡ true
  unfolding run check_root get_euid check_euid serve start_listening accept_connection check emit
      give_up ensure_unprivileged open_socket get_ids bind_port is_guarded last_ids was_bound
      is_served was_listening was_accepted ends tells_served
  run-ends port user e f = ground arith

  run-checks :
      (port user : Text) {n uid : ℤ}
      → atoi port ≡ ok n
      → atoi user ≡ ok uid
      → to_unsigned n < 2 ^ 16
      → ends (λ code t. is_root_checked t) (run kernel port user []) ≡ true
  unfolding run check_root get_euid check_euid serve start_listening accept_connection check emit
      give_up ensure_unprivileged open_socket get_ids bind_port is_guarded last_ids was_bound
      is_served was_listening was_accepted ends tells_served is_root_checked was_root
  run-checks port user e f lt = ground arith

  run_high_port :
      (port user : Text) {n uid : ℤ}
      → atoi port ≡ ok n
      → atoi user ≡ ok uid
      → 1024 ≤ to_unsigned n
      → ends
          (λ code t. not (asked_euid t) && binds_only (to_unsigned n % 2 ^ 16) t)
          (run kernel port user [])
        ≡ true
  unfolding run check_root get_euid check_euid serve start_listening accept_connection check emit
      give_up ensure_unprivileged open_socket get_ids bind_port ends asked_euid binds_only
  run_high_port port user e f le = ground arith

  -- Where `atoi` is defined for the port and the user the program ends, whatever the system answers. A
  -- socket that listens was bound before, and neither the effective nor the saved user ID, as
  -- `getresuid` gave them last before `listen` and behind `setuid`, was root's. The exit code is success exactly
  -- when a connection was accepted and both sockets are closed.
  pub rootserver_ends :
      (name port user : Text) {n uid : ℤ}
      → atoi port ≡ ok n
      → atoi user ≡ ok uid
      → (code : ℕ) × (t : Trace) × (main kernel (name ∷ port ∷ user ∷ []) [] ≡ exits code t)
        × (is_guarded t ≡ true)
        × (tells_served code t ≡ true)
  unfolding main
  rootserver_ends name port user e f =
      let (code, t, end, good) = ends-exits _ (run kernel port user []) (run-ends port user e f) in
      let (guarded, told) = both (is_guarded t) _ good in (code, t, end, guarded, told)

  -- With a port that, as an `unsigned int`, is below 2^16, and a user for which `atoi` is defined, the program
  -- ends, and has bound a port below 1024 only after it has seen root's effective user ID.
  pub rootserver_checks_root :
      (name port user : Text) {n uid : ℤ}
      → atoi port ≡ ok n
      → atoi user ≡ ok uid
      → to_unsigned n < 2 ^ 16
      → (code : ℕ) × (t : Trace) × (main kernel (name ∷ port ∷ user ∷ []) [] ≡ exits code t)
        × (is_root_checked t ≡ true)
  unfolding main
  rootserver_checks_root name port user e f lt =
      ends-exits _ (run kernel port user []) (run-checks port user e f lt)

  -- With a port that, as an `unsigned int`, is 1024 or more, and a user for which `atoi` is defined, the
  -- program ends without a check for root, and binds no port but this one modulo 2^16, which is
  -- below 1024 for some of them.
  pub rootserver_high_port :
      (name port user : Text) {n uid : ℤ}
      → atoi port ≡ ok n
      → atoi user ≡ ok uid
      → 1024 ≤ to_unsigned n
      → (code : ℕ) × (t : Trace) × (main kernel (name ∷ port ∷ user ∷ []) [] ≡ exits code t)
        × ((not (asked_euid t) && binds_only (to_unsigned n % 2 ^ 16) t) ≡ true)
  unfolding main
  rootserver_high_port name port user e f le =
      ends-exits _ (run kernel port user []) (run_high_port port user e f le)
