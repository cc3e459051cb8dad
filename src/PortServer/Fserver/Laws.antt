-- ===== src/PortServer/Fserver/Laws.antt =====
-- What Lab08/Zad4/fserver.c has done when it ends.
use pus.Base.{both, ℕ, ◌≡◌, true, ◌&&◌, [], ◌∷◌, arith}
use pus.Base.Int.{ℤ}
use pus.Base.Text.{Text, atoi}
use pus.Base.Program.{ok, exits}
use pus.PortServer.{Trace, Kernel}
use pus.PortServer.Fserver.{main, run}
use pus.PortServer.Steps.{
  serve, start_listening, accept_connection, check, emit, give_up, ensure_unprivileged, open_socket,
  get_ids, bind_port,
}
use pus.PortServer.Guards.{
  is_guarded, last_ids, was_bound, is_served, was_listening, was_accepted, ends, ends-exits,
  tells_served,
}

module _ (kernel : Kernel) where
  run-ends :
      (port : Text) {n : ℤ}
      → atoi port ≡ ok n
      → ends (λ code t. is_guarded t && tells_served code t) (run kernel port []) ≡ true
  unfolding run serve start_listening accept_connection check emit give_up ensure_unprivileged
      open_socket get_ids bind_port is_guarded last_ids was_bound is_served was_listening
      was_accepted ends tells_served
  run-ends port e = ground arith

  -- Where `atoi` is defined for the port the program ends, whatever the system answers. A socket that
  -- listens was bound before, and neither the effective nor the saved user ID seen last before
  -- `listen` was root's. The exit
  -- code is success exactly when a connection was accepted and both sockets are closed.
  pub fserver_ends :
      (name port : Text) {n : ℤ}
      → atoi port ≡ ok n
      → (code : ℕ) × (t : Trace) × (main kernel (name ∷ port ∷ []) [] ≡ exits code t)
        × (is_guarded t ≡ true)
        × (tells_served code t ≡ true)
  unfolding main
  fserver_ends name port e =
      let (code, t, end, good) = ends-exits _ (run kernel port []) (run-ends port e) in
      let (guarded, told) = both (is_guarded t) _ good in (code, t, end, guarded, told)
