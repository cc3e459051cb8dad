-- ===== src/Greeting.antt =====
-- The programs of Lab02, servers that send a greeting and clients that show it. What the system
-- answers is a record. What `accept` gives is a list; a run that waits for more `returns`.
pub mod Steps
pub mod Server4
pub mod Server6
pub mod Client6
pub mod Client4
pub mod Client
pub mod Laws
pub mod Shown
use pus.Base.{ℕ, Bool, Option, List}
use pus.Base.Text.{Text, codes}

pub data Call : Type 0 where
  socket_call bind_call listen_call accept_call connect_call getaddrinfo_call if_nametoindex_call :
      Call

pub data Family : Type 0 where
  inet inet6 other_family : Family

pub data Event : Type 0 where
  usage : Event
  failed : Call → Event
  is_waiting : Event
  accepted : ℕ → Event
  sent_to : ℕ → Text → Event
  closed : ℕ → Event
  family_shown : Family → Event
  unknown_family : Event
  name_shown : Text → Event
  shown : Text → Event

-- The latest event is first.
abbrev pub Trace : Type 0
Trace = List Event

-- What a server gets. `socket` fails, or gives a descriptor.
pub record Kernel : Type 0 where
  pub socket : Option ℕ
  pub bind_socket : ℕ → Bool
  pub listen : Bool

-- What a client gets: the number of an interface, whether a connection to an address, a port and a
-- scope (0 where none is set) is made, and what `recv` gives of the first part of the stream, or that it fails.
pub record Network : Type 0 where
  pub socket : Option ℕ
  pub getaddrinfo : Text → Text → Option Family
  pub if_nametoindex : Text → ℕ
  pub connect : Text → ℕ → ℕ → Bool
  pub connect_first : Bool
  pub getnameinfo : Text
  pub recv : Option (List ℕ)

abbrev pub greeting : Text
greeting = codes "Laboratorium PUS"
