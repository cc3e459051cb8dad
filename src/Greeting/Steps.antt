-- ===== src/Greeting/Steps.antt =====
-- The steps that the programs of Lab02 share.
use pus.Base.{ℕ, Bool, true, false, Option, none, some, List, ◌∷◌}
use pus.Base.Text.{c_string}
use pus.Base.Buffer.{overwrite, zeros}
use pus.Base.Program.{Prog, returns, ◌>>=◌, ◌>>◌, pure, lift, exit, exit_failure}
use pus.Greeting.{Call, socket_call, Event, failed, shown, Trace}

unfoldable pub emit : Event → Prog Trace (Unit {0})
emit event trace = returns tt (event ∷ trace)

unfoldable pub give_up : {A : Type 0} → Event → Prog Trace A
unfolding emit
give_up event = do emit event; exit exit_failure

unfoldable pub check : Call → Bool → Prog Trace (Unit {0})
unfolding give_up
check call true = pure tt
check call false = give_up (failed call)

unfoldable pub open_socket : Option ℕ → Prog Trace ℕ
unfolding give_up
open_socket none = give_up (failed socket_call)
open_socket (some fd) = pure fd

-- A cleared buffer behind `recv`, whose result is not looked at.
unfoldable pub received : ℕ → Option (List ℕ) → List ℕ
unfolding overwrite
received size none = zeros size
received size (some bytes) = overwrite size bytes (zeros size)

-- Shows the buffer as a text.
unfoldable pub show : ℕ → Option (List ℕ) → Prog Trace (Unit {0})
unfolding emit received
show size receipt = do text ← lift (c_string (received size receipt)); emit (shown text)
