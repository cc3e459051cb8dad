-- ===== src/PortServer/Guards.antt =====
-- What the traces of the servers of Lab08 must look like.
use pus.Base.{
  ℕ, ◌≡◌, refl, Bool, true, false, not, ◌&&◌, ◌||◌, Option, none, some, [], ◌∷◌, ◌==◌, ltb,
  if◌then◌else◌,
}
use pus.Base.Program.{Prog, ◌>>=◌, Outcome, returns, exits, faults, exit_success}
use pus.PortServer.{
  Ids, got_euid, got_ids, uid_set, bound, proc_set, clear, on, listening, accepted, closed, Trace,
}

-- Neither the effective nor the saved user ID is root's.
unfoldable pub is_unprivileged : Option Ids → Bool
is_unprivileged none = false
is_unprivileged (some ids) = not (ids.euid == 0 || ids.suid == 0)

-- The latest answer of `getresuid`, unless `setuid` was called since.
unfoldable pub last_ids : Trace → Option Ids
last_ids [] = none
last_ids (got_ids ids ∷ trace) = some ids
last_ids (uid_set uid ∷ trace) = none
last_ids (_ ∷ trace) = last_ids trace

unfoldable pub was_bound : ℕ → Trace → Bool
was_bound fd [] = false
was_bound fd (bound fd' p ∷ trace) = fd == fd' || was_bound fd trace
was_bound fd (_ ∷ trace) = was_bound fd trace

-- Every socket that listens was bound before, and neither the effective nor the saved user ID that was
-- seen last was root's.
unfoldable pub is_guarded : Trace → Bool
unfolding is_unprivileged
is_guarded [] = true
is_guarded (listening fd ∷ trace) =
    is_unprivileged (last_ids trace) && (was_bound fd trace && is_guarded trace)
is_guarded (_ ∷ trace) = is_guarded trace

-- The effective user ID was seen to be root's.
unfoldable pub was_root : Trace → Bool
was_root [] = false
was_root (got_euid euid ∷ trace) = euid == 0 || was_root trace
was_root (_ ∷ trace) = was_root trace

-- Every port below 1024 was bound after the check for root.
unfoldable pub is_root_checked : Trace → Bool
is_root_checked [] = true
is_root_checked (bound fd p ∷ trace) = (not (ltb p 1024) || was_root trace) && is_root_checked trace
is_root_checked (_ ∷ trace) = is_root_checked trace

-- The set of capabilities that was set last is the empty one, and no socket was bound since.
unfoldable pub is_cleared : Trace → Bool
is_cleared [] = false
is_cleared (proc_set clear ∷ trace) = true
is_cleared (proc_set on ∷ trace) = false
is_cleared (bound fd p ∷ trace) = false
is_cleared (_ ∷ trace) = is_cleared trace

-- Every socket listens with the capabilities dropped.
unfoldable pub is_cap_guarded : Trace → Bool
is_cap_guarded [] = true
is_cap_guarded (listening fd ∷ trace) = is_cleared trace && is_cap_guarded trace
is_cap_guarded (_ ∷ trace) = is_cap_guarded trace

unfoldable pub was_listening : ℕ → Trace → Bool
was_listening fd [] = false
was_listening fd (listening fd' ∷ trace) = fd == fd' || was_listening fd trace
was_listening fd (_ ∷ trace) = was_listening fd trace

unfoldable pub was_accepted : ℕ → Trace → Bool
was_accepted fd [] = false
was_accepted fd (accepted connection ∷ trace) = fd == connection.connfd || was_accepted fd trace
was_accepted fd (_ ∷ trace) = was_accepted fd trace

-- A connection was accepted on a socket that listens, and both were closed at the end.
unfoldable pub is_served : Trace → Bool
is_served (closed listenfd ∷ closed connfd ∷ trace) =
    was_listening listenfd trace && was_accepted connfd trace
is_served _ = false

-- The run ends the process, with an exit code and a trace that pass a test.
unfoldable pub ends : {A : Type 0} → (ℕ → Trace → Bool) → Outcome Trace A → Bool
ends test (returns a trace) = false
ends test (exits code trace) = test code trace
ends test (faults e) = false

pub ends-exits :
    {A : Type 0} (test : ℕ → Trace → Bool) (o : Outcome Trace A)
    → ends test o ≡ true
    → (code : ℕ) × (t : Trace) × (o ≡ exits code t) × (test code t ≡ true)
unfolding ends
ends-exits test (returns a trace) h = cc
ends-exits test (exits code trace) h = (code, trace, refl, h)
ends-exits test (faults e) h = cc

-- The exit code tells whether a connection was served.
unfoldable pub tells_served : ℕ → Trace → Bool
tells_served code t = if code == exit_success then is_served t else not (is_served t)

-- What may end in `m` passes the test.
unfoldable pub may_end : {A : Type 0} → (ℕ → Trace → Bool) → Outcome Trace A → Bool
may_end test (returns a trace) = true
may_end test (exits code trace) = test code trace
may_end test (faults e) = false

split_ends :
    {A B : Type 0} (test : ℕ → Trace → Bool) (o : Outcome Trace A) (f : A → Prog Trace B)
    → may_end test o ≡ true
    → ((a : A) (t : Trace) → o ≡ returns a t → ends test (f a t) ≡ true)
    → ends test (elim o [ returns a s ↦ f a s | exits code s ↦ exits code s | faults e ↦ faults e ])
      ≡ true
unfolding may_end ends
split_ends test (returns a s) f h k = k a s refl
split_ends test (exits code s) f h k = h
split_ends test (faults e) f h k = cc

pub ends->>= :
    {A B : Type 0} (test : ℕ → Trace → Bool) (m : Prog Trace A) (f : A → Prog Trace B) (s : Trace)
    → may_end test (m s) ≡ true
    → ((a : A) (t : Trace) → m s ≡ returns a t → ends test (f a t) ≡ true)
    → ends test ((m >>= f) s) ≡ true
ends->>= test m f s h k = split_ends test (m s) f h k

unfoldable pub has_listened : Trace → Bool
has_listened [] = false
has_listened (listening fd ∷ trace) = true
has_listened (_ ∷ trace) = has_listened trace

-- `geteuid` was called.
unfoldable pub asked_euid : Trace → Bool
asked_euid [] = false
asked_euid (got_euid euid ∷ trace) = true
asked_euid (_ ∷ trace) = asked_euid trace

-- No other port was bound.
unfoldable pub binds_only : ℕ → Trace → Bool
binds_only p [] = true
binds_only p (bound fd p' ∷ trace) = p == p' && binds_only p trace
binds_only p (_ ∷ trace) = binds_only p trace
