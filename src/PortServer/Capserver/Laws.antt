-- ===== src/PortServer/Capserver/Laws.antt =====
-- What Lab08/Zad5/capserver.c has done when it ends.
use pus.Base.{◌⊎◌, inl, inr, refl, Bool, ℕ, ◌≡◌, true, false, ◌&&◌, not, [], ◌∷◌, arith, ◌≤◌, ◌==◌}
use pus.Base.Int.{to_unsigned, ℤ}
use pus.Base.Text.{Text, atoi}
use pus.Base.Program.{
  Outcome, ok, exits, returns, out_of_bounds, int_overflow, bad_free, faults, uninitialised,
  exit_failure,
}
use pus.PortServer.{Trace, Kernel}
use pus.PortServer.Capserver.{Libcap, main, run, set_proc, acquire, release, serve_with}
use pus.PortServer.Steps.{check, emit, give_up, open_socket, get_ids, bind_port}
use pus.PortServer.Guards.{is_guarded, tells_served, has_listened, is_cap_guarded}

module _ (lib : Libcap) (kernel : Kernel) where
  abbrev good_end : ℕ → Trace → Bool
  good_end code t = (is_guarded t && is_cap_guarded t) && tells_served code t

  never_serves : Outcome Trace (Unit {0}) → Bool
  never_serves (returns a t) = false
  never_serves (exits code t) = code == exit_failure && not (has_listened t)
  never_serves (faults uninitialised) = true
  never_serves (faults _) = false

  never_serves_cases :
      (o : Outcome Trace (Unit {0}))
      → never_serves o ≡ true
      → (o ≡ faults uninitialised)
        ⊎ ((t : Trace) × (o ≡ exits exit_failure t) × (has_listened t ≡ false))
  unfolding never_serves
  never_serves_cases (returns a t) h = cc
  never_serves_cases (exits code t) h = inr (t, ground arith, ground arith)
  never_serves_cases (faults uninitialised) h = inl refl
  never_serves_cases (faults out_of_bounds) h = cc
  never_serves_cases (faults int_overflow) h = cc
  never_serves_cases (faults bad_free) h = cc

  run_high_port :
      (port : Text) {n : ℤ}
      → atoi port ≡ ok n
      → 1024 ≤ to_unsigned n
      → never_serves (run lib kernel port []) ≡ true
  unfolding run acquire serve_with set_proc release check emit give_up open_socket get_ids bind_port
      never_serves has_listened
  run_high_port port e le = ground arith

  -- With a port that, as an `unsigned int`, is 1024 or more, the program never serves: it ends with
  -- failure without having listened, or frees the variable `privilege_on`, which was not assigned.
  pub capserver_high_port :
      (name port : Text) {n : ℤ}
      → atoi port ≡ ok n
      → 1024 ≤ to_unsigned n
      → (main lib kernel (name ∷ port ∷ []) [] ≡ faults uninitialised)
        ⊎ ((t : Trace) × (main lib kernel (name ∷ port ∷ []) [] ≡ exits exit_failure t)
            × (has_listened t ≡ false))
  unfolding main
  capserver_high_port name port e le =
      never_serves_cases (run lib kernel port []) (run_high_port port e le)
