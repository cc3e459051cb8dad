-- ===== src/Sctp.antt =====
-- The SCTP programs of Lab04: what they do, and what the system answers. The answers are a
-- parameter: each may depend on everything that was done before.
pub mod Steps
pub mod Traces
pub mod Server2
pub mod Server3
pub mod Client2
pub mod Client3
use pus.Base.{ℕ, Bool, Option, List}
use pus.Base.Text.{Text}

-- The calls whose failure is reported by `perror`.
pub data Call : Type 0 where
  getaddrinfo_call socket_call bind_call setsockopt_call listen_call accept_call : Call
  connect_call sendmsg_call : Call

-- `struct sctp_sndrcvinfo`, as far as it is printed or used, and the address of the sender.
pub record Info : Type 0 where
  pub stream : ℕ
  pub assoc_id : ℕ
  pub ssn : ℕ
  pub sender : ℕ

pub data Line : Type 0 where
  invocation choose could_not_connect server_accept : Line
  status : Line
  contents : Text → Line
  stream_number : ℕ → Line
  info : Info → Text → Line
  numbered : ℕ → Text → Line

-- `listening`, `initmsg` and the others are successful calls; what was tried after them is known
-- from `sent`.
pub data Event : Type 0 where
  printed : Line → Event
  failed : Call → Event
  opened : ℕ → Event
  bound : ℕ → Event
  initmsg : ℕ → ℕ → Event
  events_set : Event
  status_read : Event
  listening : ℕ → Event
  connected : Event
  accepted : ℕ → Event
  -- the socket, the address if one is given, the text and the stream
  sent : ℕ → Option ℕ → Text → ℕ → Event
  received : Event
  closed : ℕ → Event

-- The latest event is first.
abbrev pub Trace : Type 0
Trace = List Event

-- What `sctp_recvmsg` gives: an error, or the bytes of a message, which fit the buffer, with the
-- information on it.
pub data Receipt : Type 0 where
  error : Receipt
  got : List ℕ → Info → Receipt

-- What `getaddrinfo` answers.
pub data Lookup : Type 0 where
  lookup_failed no_result : Lookup
  found : ℕ → Lookup

-- `struct tm`, as far as it is used: the month counts from 0, and the year from 1900.
pub record Tm : Type 0 where
  pub day : ℕ
  pub month : ℕ
  pub year : ℕ
  pub hour : ℕ
  pub minute : ℕ
  pub second : ℕ

-- `none` and `false` stand for failure.
pub record Kernel : Type 0 where
  pub getaddrinfo : Text → Text → Lookup
  pub socket : Trace → Option ℕ
  pub bind_socket : ℕ → Trace → Bool
  pub setsockopt : Trace → Bool
  pub listen : Trace → Bool
  pub connect : ℕ → Trace → Bool
  pub accept : Trace → Option ℕ
  pub sendmsg : ℕ → Option ℕ → Text → ℕ → Trace → Bool
  -- `localtime` of the time, or NULL
  pub clock : Trace → Option Tm
