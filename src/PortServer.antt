-- ===== src/PortServer.antt =====
-- The TCP servers of Lab08 that bind a port and then must not run with root's rights: what they
-- do, and what the system answers. The answers of system calls are a parameter: each may depend on
-- everything that was done before.
pub mod Steps
pub mod Guards
pub mod Fserver
pub mod Rootserver
pub mod Capserver
use pus.Base.{ℕ, Bool, Option, List}

-- `ruid`, `euid` and `suid`
pub record Ids : Type 0 where
  pub ruid : ℕ
  pub euid : ℕ
  pub suid : ℕ

-- A connected socket with the address and the port of the client.
pub record Connection : Type 0 where
  pub connfd : ℕ
  pub address : ℕ
  pub port : ℕ

-- The calls whose failure is reported by `perror`.
pub data Call : Type 0 where
  socket_call getresuid_call bind_call listen_call accept_call : Call
  cap_set_flag_call cap_set_proc_call cap_free_call : Call

-- The sets of capabilities of `capserver.c` that are passed to the system.
pub data Privilege : Type 0 where
  clear on : Privilege

pub data Event : Type 0 where
  invocation need_root need_unprivileged : Event
  failed : Call → Event
  opened : ℕ → Event
  got_euid : ℕ → Event
  got_ids : Ids → Event
  printed_ids : Ids → Event
  binding : ℕ → Event
  bound : ℕ → ℕ → Event
  uid_set : ℕ → Event
  proc_set : Privilege → Event
  cap_freed : Privilege → Event
  listening : ℕ → Event
  printed_listening : Event
  accepted : Connection → Event
  slept : ℕ → Event
  closing : Event
  closed : ℕ → Event

-- The latest event is first.
abbrev pub Trace : Type 0
Trace = List Event

-- `none` and `false` stand for -1.
pub record Kernel : Type 0 where
  pub socket : Trace → Option ℕ
  pub geteuid : Trace → ℕ
  pub getresuid : Trace → Option Ids
  pub bind_socket : ℕ → ℕ → Trace → Bool
  pub listen : ℕ → Trace → Bool
  pub accept : ℕ → Trace → Option Connection
