-- ===== src/Sctp/Client3/Laws.antt =====
-- What Lab04/zad3/client3.c does with a line.
use pus.Base.{if◌then◌else◌, ◌≡◌, List, [], ◌∷◌, arith}
use pus.Base.Text.{Text, str_eq}
use pus.Base.Program.{exits, faults, exit_success, uninitialised}
use pus.Sctp.{Receipt, Kernel, closed}
use pus.Sctp.Steps.{emit}
use pus.Sctp.Traces.{Succeeds}
use pus.Sctp.Client2.Laws.{connect_client_lem, connected_trace}
use pus.Sctp.Client3.{use_var, round, loop, run, main}

module _ (kernel : Kernel) (v : Succeeds kernel) where
  -- Where every call succeeds, a first line that is not empty makes the client read the variable
  -- `i`, which was not assigned; with an empty one it ends with success, and has done nothing but
  -- connect and close its socket.
  pub client3_first_line :
      (name host port line : Text) (lines : List Text) (receipts : List Receipt)
      → main kernel (name ∷ host ∷ port ∷ []) (line ∷ lines) receipts [] ≡ (
          if str_eq line (b'\n' ∷ [])
          then exits exit_success (closed v.fd ∷ connected_trace kernel v 5)
          else faults uninitialised)
  unfolding main run loop round use_var emit
  client3_first_line name host port line lines receipts =
      ground (arith, connect_client_lem kernel v 5 host port)
