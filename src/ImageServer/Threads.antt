-- ===== src/ImageServer/Threads.antt =====
-- The threads of Lab01/zad5/server5.cpp together: the steps that the process takes in any order. A
-- thread is one step, since all that it does outside its own memory is to write once, or to end the
-- process.
pub mod Laws
use pus.Base.{ℕ, suc, ◌≡◌, Bool, true, false, List, [], ◌∷◌, ◌++◌}
use pus.Base.Program.{returns}
use pus.ImageServer.{accepted, Trace, Kernel, start_thread}
use pus.ImageServer.Thread.{Receipt, connection_handler}

-- The descriptors of the threads that have not ended, and the events.
pub record Process : Type 0 where
  pub threads : List ℕ
  pub trace : Trace

unfoldable pub joined : Bool → ℕ → List ℕ → List ℕ
joined true fd threads = fd ∷ threads
joined false fd threads = threads

pub data Step (kernel : Kernel) : Process → Process → Type 0 where
  -- a round of the loop in `main`
  connects :
      (threads : List ℕ) (trace t : Trace) (n : ℕ) (is_started : Bool)
      → start_thread kernel (suc n) is_started (accepted (suc n) ∷ trace) ≡ returns tt t
      → Step kernel
          (record { threads = threads; trace = trace })
          (record { threads = joined is_started (suc n) threads; trace = t })
  -- a thread that ends
  handles :
      (before after : List ℕ) (fd : ℕ) (receipt : Receipt) (trace t : Trace)
      → connection_handler kernel fd receipt trace ≡ returns tt t
      → Step kernel
          (record { threads = before ++ fd ∷ after; trace = trace })
          (record { threads = before ++ after; trace = t })

-- What the process may come to.
pub data Reaches (kernel : Kernel) : Process → Process → Type 0 where
  stays : (s : Process) → Reaches kernel s s
  goes_on : (s t u : Process) → Reaches kernel s t → Step kernel t u → Reaches kernel s u
