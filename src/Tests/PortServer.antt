-- ===== src/Tests/PortServer.antt =====
-- Runs of the servers of Lab08, at concrete answers of the system.
use pus.Base.{◌⊎◌, ℕ, ◌≡◌, refl, Bool, true, some, [], ◌∷◌, arith}
use pus.Base.Int.{to_unsigned, pos}
use pus.Base.Text.{codes, atoi}
use pus.Base.Program.{ok, exits, faults, uninitialised, exit_failure}
use pus.PortServer.{Ids, Connection, Trace, Kernel, uid_set}
use pus.PortServer.Guards.{is_guarded, tells_served, is_root_checked, has_listened}
use pus.PortServer.Fserver.Laws.{fserver_ends}
use pus.PortServer.Rootserver.Laws.{rootserver_ends, rootserver_checks_root}
use pus.PortServer.Capserver.{Libcap}
use pus.PortServer.Capserver.Laws.{capserver_high_port}
use pus.PortServer.Fserver
use pus.PortServer.Rootserver
use pus.PortServer.Capserver

abbrev root : Ids
root = record { ruid = 0; euid = 0; suid = 0 }

abbrev user : Ids
user = record { ruid = 1000; euid = 1000; suid = 1000 }

-- `setuid` takes effect at once.
abbrev ids_after : Trace → Ids
ids_after (uid_set uid ∷ trace) = record { ruid = uid; euid = uid; suid = uid }
ids_after _ = root

abbrev client : Connection
client = record { connfd = 4; address = 2130706433; port = 50000 }

abbrev kernel_of : (Trace → Ids) → Kernel
kernel_of ids = record {
  socket = λ trace. some 3;
  geteuid = λ trace. (ids trace).euid;
  getresuid = λ trace. some (ids trace);
  bind_socket = λ fd p trace. true;
  listen = λ fd trace. true;
  accept = λ fd trace. some client;
}

abbrev as_user : Kernel
as_user = kernel_of (λ trace. user)

abbrev as_root : Kernel
as_root = kernel_of ids_after

-- The sets of capabilities by whether they hold CAP_NET_BIND_SERVICE.
abbrev libcap : Libcap
libcap = record {
  CapT = Bool;
  cap_init = Bool.false;
  cap_dup = λ held. held;
  cap_set_flag = λ flag held. some true;
  cap_set_proc = λ held trace. true;
  cap_free = λ held trace. true;
}

well_known : atoi (codes "80") ≡ ok (pos 80)
unfolding atoi
well_known = refl

wrapped : atoi (codes "65616") ≡ ok (pos 65616)
unfolding atoi
wrapped = refl

user_number : atoi (codes "1000") ≡ ok (pos 1000)
unfolding atoi
user_number = refl

fserver_ends_example :
    (code : ℕ) × (t : Trace) × (Fserver.main as_user (codes "fserver" ∷ codes "80" ∷ []) []
      ≡ exits code t)
    × (is_guarded t ≡ true)
    × (tells_served code t ≡ true)
fserver_ends_example = fserver_ends as_user (codes "fserver") (codes "80") well_known

rootserver_ends_example :
    (code : ℕ) × (t : Trace) × (Rootserver.main as_root
        (codes "rootserver" ∷ codes "80" ∷ codes "1000" ∷ [])
        []
      ≡ exits code t)
    × (is_guarded t ≡ true)
    × (tells_served code t ≡ true)
rootserver_ends_example =
    rootserver_ends as_root (codes "rootserver") (codes "80") (codes "1000") well_known user_number

rootserver_checks_root_example :
    (code : ℕ) × (t : Trace) × (Rootserver.main as_root
        (codes "rootserver" ∷ codes "80" ∷ codes "1000" ∷ [])
        []
      ≡ exits code t)
    × (is_root_checked t ≡ true)
unfolding to_unsigned
rootserver_checks_root_example =
    rootserver_checks_root as_root (codes "rootserver") (codes "80") (codes "1000") well_known
      user_number (omega arith)

capserver_high_port_run :
    (Capserver.main libcap as_user (codes "capserver" ∷ codes "65616" ∷ []) []
      ≡ faults uninitialised)
    ⊎ ((t : Trace) × (Capserver.main libcap as_user (codes "capserver" ∷ codes "65616" ∷ []) []
          ≡ exits exit_failure t)
        × (has_listened t ≡ Bool.false))
unfolding to_unsigned
capserver_high_port_run =
    capserver_high_port libcap as_user (codes "capserver") (codes "65616") wrapped (omega arith)
