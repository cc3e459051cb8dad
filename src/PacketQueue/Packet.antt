-- ===== src/PacketQueue/Packet.antt =====
-- What libnetfilter_queue hands to the program, and what the program is seen to do.
use Prim.Native.String.{String}
use pus.Base.{ℕ, ◌+◌, ◌*◌, ◌/◌, ◌%◌, ◌^◌, Option, List}

-- `struct nfqnl_msg_packet_hdr`, each field as the program loads it
pub record PacketHdr : Type 0 where
  pub packet_id : ℕ
  pub hw_protocol : ℕ
  pub hook : ℕ

-- `struct nfqnl_msg_packet_hw`
pub record PacketHw : Type 0 where
  pub hw_addrlen : ℕ
  pub hw_addr : List ℕ

-- What `nfq_get_payload` returns, and the memory that may be accessed from `packet` on.
pub record Payload : Type 0 where
  pub size : ℕ
  pub mem : List ℕ

-- `struct nfq_data`, by the answers of the functions that read it
pub record NfqData : Type 0 where
  pub msg_packet_hdr : Option PacketHdr
  pub packet_hw : Option PacketHw
  pub indev : ℕ
  pub outdev : ℕ
  pub payload : Option Payload

-- Calls of the library and lines of output, in the order of the program.
pub data Event : Type 0 where
  opened : Event
  unbound : Event
  bound : Event
  queue_created : ℕ → Event
  mode_set : ℕ → Event
  message_received : Event
  printed_hdr : ℕ → ℕ → String → Event
  printed_hw : List ℕ → Event
  printed_input_dev : String → Event
  printed_output_dev : String → Event
  printed_payload_length : ℕ → Event
  left_callback : Event
  verdict_set : ℕ → ℕ → ℕ → List ℕ → Event
  queue_destroyed : Event
  closed : Event

-- The newest event comes first.
abbrev pub Trace : Type 0
Trace = List Event

-- `ntohl` and `ntohs` on a little-endian machine
unfoldable pub ntohl : ℕ → ℕ
ntohl x = x % 256 * 2 ^ 24 + x / 256 % 256 * 2 ^ 16 + x / 2 ^ 16 % 256 * 2 ^ 8 + x / 2 ^ 24 % 256

unfoldable pub ntohs : ℕ → ℕ
ntohs x = x % 256 * 256 + x / 256 % 256
