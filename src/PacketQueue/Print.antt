-- ===== src/PacketQueue/Print.antt =====
-- `print_packet` of Lab07/queuemod.c. `if_indextoname` is a parameter.
pub mod Laws
pub mod Verdicts
use Prim.Native.String.{String}
use pus.Base.{ℕ, zero, suc, Option, none, some, List, [], ◌∷◌}
use pus.Base.{◌==◌, if◌then◌else◌}
use pus.Base.Program.{
  Prog, Result, ok, fails, bind, lift, ◌>>=◌, ◌>>◌, pure, exit, exit_failure, out_of_bounds,
  returns,
}
use pus.PacketQueue.Packet.{
  PacketHdr, PacketHw, Payload, NfqData, Event, printed_hdr, printed_hw, printed_input_dev,
  printed_output_dev, printed_payload_length, Trace, ntohl, ntohs,
}

abbrev pub emit : Event → Prog Trace (Unit {0})
emit e trace = returns tt (e ∷ trace)

-- The numbers NF_IP_PRE_ROUTING to NF_IP_POST_ROUTING of <linux/netfilter_ipv4.h>.
pub hook_name : ℕ → String
hook_name zero = "PREROUTING"
hook_name (suc zero) = "INPUT"
hook_name (suc (suc zero)) = "FORWARD"
hook_name (suc (suc (suc zero))) = "OUTPUT"
hook_name (suc (suc (suc (suc zero)))) = "POSTROUTING"
hook_name (suc (suc (suc (suc (suc n))))) = "UNKNOWN"

-- The ID of the packet, 0 where there is no header.
print_hdr : Option PacketHdr → Prog Trace ℕ
unfolding hook_name
print_hdr none = pure 0
print_hdr (some ph) = do
  let id = ntohl ph.packet_id
  emit (printed_hdr id (ntohs ph.hw_protocol) (hook_name ph.hook))
  pure id

-- `hw_addr[0]` to `hw_addr[n - 1]`
read_bytes : ℕ → List ℕ → Result (List ℕ)
read_bytes zero addr = ok []
read_bytes (suc n) [] = fails out_of_bounds
read_bytes (suc n) (a ∷ addr) = bind (read_bytes n addr) (λ rest. ok (a ∷ rest))

-- The last byte is read behind the loop, at `hlen - 1`, which is -1 for an empty address.
hw_bytes : ℕ → List ℕ → Result (List ℕ)
hw_bytes zero addr = fails out_of_bounds
hw_bytes (suc n) addr = read_bytes (suc n) addr

print_hw : Option PacketHw → Prog Trace (Unit {0})
unfolding hw_bytes read_bytes
print_hw none = pure tt
print_hw (some hwph) = do
  bytes ← lift (hw_bytes (ntohs hwph.hw_addrlen) hwph.hw_addr)
  emit (printed_hw bytes)

print_payload_length : Option Payload → Prog Trace (Unit {0})
print_payload_length none = pure tt
print_payload_length (some p) = emit (printed_payload_length p.size)

module _ (if_indextoname : ℕ → Option String) where
  print_dev : (String → Event) → ℕ → Prog Trace (Unit {0})
  print_dev line ifi =
      if ifi == 0
      then pure tt
      else elim (if_indextoname ifi) [ none ↦ exit exit_failure | some name ↦ emit (line name) ]

  unfoldable pub print_packet : NfqData → Prog Trace ℕ
  unfolding print_hdr print_hw print_dev print_payload_length
  print_packet tb = do
    id ← print_hdr tb.msg_packet_hdr
    print_hw tb.packet_hw
    print_dev printed_input_dev tb.indev
    print_dev printed_output_dev tb.outdev
    print_payload_length tb.payload
    pure id
