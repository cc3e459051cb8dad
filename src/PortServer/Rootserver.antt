-- ===== src/PortServer/Rootserver.antt =====
-- `main` of Lab08/Zad2/rootserver.c.
pub mod Laws
use pus.Base.{ℕ, List, [], ◌∷◌, ltb, ◌==◌, if◌then◌else◌}
use pus.Base.Int.{to_unsigned}
use pus.Base.Text.{Text, atoi}
use pus.Base.Program.{Prog, returns, ◌>>=◌, ◌>>◌, pure, lift}
use pus.PortServer.{invocation, need_root, got_euid, uid_set, Trace, Kernel}
use pus.PortServer.Steps.{
  emit, give_up, ensure_unprivileged, open_socket, get_ids, bind_port, serve,
}

module _ (kernel : Kernel) where
  get_euid : Prog Trace ℕ
  get_euid trace = returns (kernel.geteuid trace) (got_euid (kernel.geteuid trace) ∷ trace)

  check_euid : ℕ → Prog Trace (Unit {0})
  check_euid euid = if euid == 0 then pure tt else give_up need_root

  check_root : ℕ → Prog Trace (Unit {0})
  unfolding get_euid check_euid
  check_root port_number =
      if ltb port_number 1024 then (do euid ← get_euid; check_euid euid) else pure tt

  -- The result of `setuid` is not looked at.
  run : Text → Text → Prog Trace (Unit {0})
  unfolding check_root
  run port user = do
    number ← lift (atoi port)
    uid ← lift (atoi user)
    check_root (to_unsigned number)
    listenfd ← open_socket kernel
    _ ← get_ids kernel
    bind_port kernel listenfd (to_unsigned number)
    emit (uid_set (to_unsigned uid))
    ids ← get_ids kernel
    ensure_unprivileged ids
    serve kernel listenfd

  unfoldable pub main : List Text → Prog Trace (Unit {0})
  unfolding run
  main (name ∷ port ∷ user ∷ []) = run port user
  main _ = give_up invocation
