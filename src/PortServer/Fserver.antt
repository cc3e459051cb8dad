-- ===== src/PortServer/Fserver.antt =====
-- `main` of Lab08/Zad4/fserver.c.
pub mod Laws
use pus.Base.{List, [], ◌∷◌}
use pus.Base.Int.{to_unsigned}
use pus.Base.Text.{Text, atoi}
use pus.Base.Program.{Prog, ◌>>=◌, ◌>>◌, pure, lift}
use pus.PortServer.{invocation, Trace, Kernel}
use pus.PortServer.Steps.{give_up, ensure_unprivileged, open_socket, get_ids, bind_port, serve}

module _ (kernel : Kernel) where
  run : Text → Prog Trace (Unit {0})
  run port = do
    number ← lift (atoi port)
    listenfd ← open_socket kernel
    _ ← get_ids kernel
    bind_port kernel listenfd (to_unsigned number)
    ids ← get_ids kernel
    ensure_unprivileged ids
    serve kernel listenfd

  unfoldable pub main : List Text → Prog Trace (Unit {0})
  unfolding run
  main (name ∷ port ∷ []) = run port
  main _ = give_up invocation
