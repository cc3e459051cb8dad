-- ===== src/PortServer/Capserver.antt =====
-- `main` of Lab08/Zad5/capserver.c. libcap is a parameter.
pub mod Laws
use pus.Base.{ℕ, Bool, Option, none, some, List, [], ◌∷◌, ltb, if◌then◌else◌}
use pus.Base.Int.{to_unsigned}
use pus.Base.Text.{Text, atoi}
use pus.Base.Program.{Prog, ◌>>=◌, ◌>>◌, pure, fault, lift, uninitialised}
use pus.PortServer.{
  cap_set_flag_call, cap_set_proc_call, cap_free_call, Privilege, clear, on, invocation, failed,
  proc_set, cap_freed, Trace, Kernel,
}
use pus.PortServer.Steps.{
  emit, give_up, check, ensure_unprivileged, open_socket, get_ids, bind_port, serve,
}

pub data CapFlag : Type 0 where
  permitted effective : CapFlag

-- `cap_t` and the functions on it; `none` and `false` stand for -1. `cap_set_flag` sets
-- CAP_NET_BIND_SERVICE, and gives the set as it leaves it.
pub record Libcap : Type 1 where
  pub CapT : Type 0
  pub cap_init : CapT
  pub cap_dup : CapT → CapT
  pub cap_set_flag : CapFlag → CapT → Option CapT
  pub cap_set_proc : CapT → Trace → Bool
  pub cap_free : CapT → Trace → Bool

module _ (lib : Libcap) where
  open lib use {CapT, cap_init, cap_dup, cap_set_flag, cap_set_proc, cap_free}

  raise : Option CapT → Prog Trace CapT
  raise none = give_up (failed cap_set_flag_call)
  raise (some cap) = pure cap

  set_proc : Privilege → CapT → Prog Trace (Unit {0})
  set_proc privilege cap = do
    λ trace. check (cap_set_proc cap trace) cap_set_proc_call trace
    emit (proc_set privilege)

  -- `privilege_on`, made from `privilege_off` and given to the process.
  set_on : CapT → Prog Trace CapT
  unfolding raise set_proc
  set_on privilege_off = do
    off ← raise (cap_set_flag permitted privilege_off)
    privilege_on ← raise (cap_set_flag effective (cap_dup off))
    set_proc on privilege_on
    pure privilege_on

  -- From port 1024 on `privilege_on` is not assigned.
  acquire : ℕ → CapT → Prog Trace (Option CapT)
  unfolding set_on
  acquire port_number privilege_off =
      if ltb port_number 1024
      then (do privilege_on ← set_on privilege_off; pure (some privilege_on))
      else pure none

  free_cap : Privilege → CapT → Prog Trace (Unit {0})
  free_cap privilege cap = do
    λ trace. check (cap_free cap trace) cap_free_call trace
    emit (cap_freed privilege)

  release : Option CapT → CapT → Prog Trace (Unit {0})
  unfolding free_cap
  release none privilege_clear = fault uninitialised
  release (some privilege_on) privilege_clear = do
    free_cap on privilege_on
    free_cap clear privilege_clear

  module _ (kernel : Kernel) where
    -- From `socket` to the end.
    serve_with : ℕ → Option CapT → Prog Trace (Unit {0})
    unfolding set_proc release
    serve_with port_number privilege_on = do
      listenfd ← open_socket kernel
      ids ← get_ids kernel
      bind_port kernel listenfd port_number
      set_proc clear cap_init
      release privilege_on cap_init
      ensure_unprivileged ids
      serve kernel listenfd

    run : Text → Prog Trace (Unit {0})
    unfolding acquire serve_with
    run port = do
      number ← lift (atoi port)
      privilege_on ← acquire (to_unsigned number) (cap_dup cap_init)
      serve_with (to_unsigned number) privilege_on

    unfoldable pub main : List Text → Prog Trace (Unit {0})
    unfolding run
    main (name ∷ port ∷ []) = run port
    main _ = give_up invocation
