-- ===== src/Tests/PacketQueue.antt =====
-- Instances for Lab07/queuemod.c.
use Prim.Native.String.{String}
use pus.Base.{ℕ, ◌≡◌, refl, true, Option, some, none, List, [], ◌∷◌, ◌++◌, arith, inl, inr}
use pus.Base.Int.{ℤ, pos}
use pus.Base.Program.{ok, returns, exits, faults, exit_success, out_of_bounds}
use pus.Checksum.{internet_checksum}
use pus.SwapBytes.{swap_bytes}
use pus.Checksum.Verify.{low_byte, high_byte}
use pus.PacketQueue.Packet.{
  NfqData, Payload, Trace, printed_hdr, printed_hw, printed_input_dev, printed_payload_length,
  left_callback, verdict_set, ntohl, ntohs,
}
use pus.PacketQueue.Print.{print_packet}
use pus.PacketQueue.Print.Laws.{print_packet_returns}
use pus.PacketQueue.Print.Verdicts.{verdict_ids}
use pus.PacketQueue.Callback.{callback, rewrite_packet, nf_accept}
use pus.PacketQueue.Callback.Rewrite.{Parts, icmp, packet_size}
use pus.PacketQueue.Callback.Laws.{message, callback-accepts, callback_short}
use pus.PacketQueue.Main.{Netfilter, main}
use pus.PacketQueue.Main.Laws.{main-verdicts}
use pus.Tests.Checksum.{header, header-verifies}

-- An echo request with a body of three bytes, and a byte of the buffer behind it.
abbrev parts : Parts
parts = record {
  ip = header;
  kind = 8;
  code = 0;
  rest = 1 ∷ 2 ∷ 3 ∷ 4 ∷ [];
  body = 65 ∷ 66 ∷ 67 ∷ [];
}

abbrev behind : List ℕ
behind = 9 ∷ []

abbrev packet : Payload
packet = record { size = packet_size parts; mem = message parts 5 6 behind }

abbrev queued : Option Payload → NfqData
queued payload = record {
  msg_packet_hdr = some (record { packet_id = 0x07000000; hw_protocol = 8; hook = 1 });
  packet_hw = some (record { hw_addrlen = 0x0600; hw_addr = 1 ∷ 2 ∷ 3 ∷ 4 ∷ 5 ∷ 6 ∷ 0 ∷ 0 ∷ [] });
  indev = 2;
  outdev = 0;
  payload = payload;
}

abbrev names : ℕ → Option String
names n = some "eth0"

abbrev answer : Trace → ℤ
answer trace = pos 0

abbrev lines : Payload → Trace
lines p =
    printed_payload_length p.size
    ∷ printed_input_dev "eth0"
    ∷ printed_hw (1 ∷ 2 ∷ 3 ∷ 4 ∷ 5 ∷ 6 ∷ [])
    ∷ printed_hdr 7 2048 "INPUT"
    ∷ []

printed : print_packet names (queued (some packet)) [] ≡ returns 7 (lines packet)
unfolding print_packet ntohl ntohs
printed = refl

abbrev reply : ℕ → Trace
reply c =
    verdict_set 7 nf_accept (packet_size parts)
      (header ++ (icmp parts (low_byte c) (high_byte c) (67 ∷ 66 ∷ 65 ∷ []) ++ behind))
    ∷ left_callback
    ∷ lines packet

callback-accepts_example :
    (c : ℕ) × (callback names answer (queued (some packet)) [] ≡ returns (pos 0) (reply c))
    × (internet_checksum (icmp parts (low_byte c) (high_byte c) (67 ∷ 66 ∷ 65 ∷ [])) 11 ≡ ok 0)
callback-accepts_example =
    callback-accepts names answer (queued (some packet)) parts 5 6 behind 7 [] (lines packet)
      (omega arith) (omega arith) header-verifies (omega arith) refl printed

-- An echo request without a body: 28 bytes.
abbrev empty : Payload
empty = record { size = 28; mem = header ++ 8 ∷ 0 ∷ 5 ∷ 6 ∷ 1 ∷ 2 ∷ 3 ∷ 4 ∷ [] }

printed_empty : print_packet names (queued (some empty)) [] ≡ returns 7 (lines empty)
unfolding print_packet ntohl ntohs
printed_empty = refl

callback_short_example : callback names answer (queued (some empty)) [] ≡ faults out_of_bounds
callback_short_example =
    callback_short names answer (queued (some empty)) 28 7 empty.mem [] (lines empty) (omega arith)
      (omega arith) refl printed_empty

abbrev no_lines : Trace
no_lines =
    printed_input_dev "eth0"
    ∷ printed_hw (1 ∷ 2 ∷ 3 ∷ 4 ∷ 5 ∷ 6 ∷ [])
    ∷ printed_hdr 7 2048 "INPUT"
    ∷ []

printed_none : print_packet names (queued none) [] ≡ returns 7 no_lines
unfolding print_packet ntohl ntohs
printed_none = refl

print_packet_returns_run :
    (t : Trace) × (print_packet names (queued (some packet)) [] ≡ returns (ntohl 0x07000000) t)
unfolding ntohs
print_packet_returns_run =
    print_packet_returns names (queued (some packet)) []
      (record { hw = omega arith; input = inr ("eth0", refl); output = inl refl })

-- The library with one message that holds a packet, and one that does not.
abbrev library : ℤ → Netfilter
library mode = record {
  nfq_open = true;
  nfq_unbind_pf = pos 0;
  nfq_bind_pf = pos 0;
  nfq_create_queue = true;
  nfq_set_mode = mode;
  if_indextoname = names;
  nfq_set_verdict = answer;
  messages = some (queued (some packet)) ∷ none ∷ [];
}

rewritten :
    rewrite_packet packet.size packet.mem
    ≡ ok (header ++ (icmp parts 111 183 (67 ∷ 66 ∷ 65 ∷ []) ++ behind))
unfolding rewrite_packet internet_checksum swap_bytes
rewritten = refl

main-verdicts_example :
    (t : Trace) × (main (library (pos 0)) [] ≡ exits exit_success t)
    × (verdict_ids t ≡ ntohl 0x07000000 ∷ [])
unfolding ntohs
main-verdicts_example = main-verdicts (library (pos 0)) refl (
  record {
    printable = record { hw = omega arith; input = inr ("eth0", refl); output = inl refl };
    size = packet.size;
    mem = packet.mem;
    has_payload = refl;
    packet = header ++ (icmp parts 111 183 (67 ∷ 66 ∷ 65 ∷ []) ++ behind);
    rewritten = rewritten;
  },
  tt,
)
