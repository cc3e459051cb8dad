-- ===== src/Raw.antt =====
-- The programs of Lab03 that put packets together by themselves: what they do, and what the system
-- answers. Words are stored as on the little-endian machines that the programs are built for.
pub mod Steps
pub mod Traces
pub mod Tcp
pub mod Udp6
pub mod Ping
use pus.Base.{ℕ, Bool, Option, List}
use pus.Base.Text.{Text}

-- `struct in_addr`, its bytes in the order of the network.
pub record InAddr : Type 0 where
  pub a : ℕ
  pub b : ℕ
  pub c : ℕ
  pub d : ℕ

-- What Lab03/zad5/ping.cpp prints of a packet.
pub record Details : Type 0 where
  pub source : InAddr
  pub ttl : ℕ
  pub header_length : ℕ
  pub destination : InAddr
  pub icmp_type : ℕ
  pub code : ℕ
  pub id : ℕ
  pub sequence : ℕ

-- The calls whose failure is reported.
pub data Call : Type 0 where
  getaddrinfo_call socket_call setsockopt_call sendto_call fork_call : Call

pub data Event : Type 0 where
  usage : Event
  failed : Call → Event
  no_socket : Event
  socket_created : ℕ → Event
  -- the message in front of a loop
  started : Event
  sent_to : List ℕ → List ℕ → Event
  packet_sent : Event
  printed : Details → Event

-- The latest event is first.
abbrev pub Trace : Type 0
Trace = List Event

-- What the system answers. `getaddrinfo` gives the bytes of the addresses, or fails with
-- a code below 0, as glibc's are; `socket` depends
-- on the address, and the others on what was done before.
pub record Kernel : Type 0 where
  pub getaddrinfo : Text → Option (List (List ℕ))
  pub socket : List ℕ → Option ℕ
  pub setsockopt : ℕ → Bool
  pub sendto : Trace → Bool
