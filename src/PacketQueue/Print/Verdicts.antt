-- ===== src/PacketQueue/Print/Verdicts.antt =====
-- `print_packet` of Lab07/queuemod.c and the verdicts and IDs of packets.
use Prim.Native.String.{String}
use pus.Base.{ℕ, ◌≡◌, refl, Option, some, none, List, [], ◌∷◌, arith}
use pus.Base.Program.{returns, >>=-eq-returns}
use pus.PacketQueue.Packet.{NfqData, PacketHdr, PacketHw, Payload, Event, Trace, verdict_set}
use pus.PacketQueue.Packet.{printed_input_dev, printed_output_dev}
use pus.PacketQueue.Print.{print_packet, print_dev, print_hw, print_hdr, print_payload_length}
use pus.PacketQueue.Print.Laws.{packet_id_of}

-- The IDs of the packets that a verdict was given for, the latest first.
unfoldable pub verdict_ids : Trace → List ℕ
verdict_ids [] = []
verdict_ids (verdict_set id _ _ _ ∷ trace) = id ∷ verdict_ids trace
verdict_ids (_ ∷ trace) = verdict_ids trace

quiet_hdr :
    (h : Option PacketHdr) (s : Trace) {id : ℕ} {t : Trace}
    → print_hdr h s ≡ returns id t
    → (verdict_ids t ≡ verdict_ids s) × (id ≡ packet_id_of h)
unfolding print_hdr verdict_ids
quiet_hdr none s e = ground arith
quiet_hdr (some ph) s e = ground arith

quiet_hw :
    (h : Option PacketHw) (s : Trace) {u : Unit {0}} {t : Trace}
    → print_hw h s ≡ returns u t
    → verdict_ids t ≡ verdict_ids s
unfolding print_hw verdict_ids
quiet_hw none s e = ground arith
quiet_hw (some h) s e = ground arith

quiet_payload :
    (p : Option Payload) (s : Trace) {u : Unit {0}} {t : Trace}
    → print_payload_length p s ≡ returns u t
    → verdict_ids t ≡ verdict_ids s
unfolding print_payload_length verdict_ids
quiet_payload none s e = ground arith
quiet_payload (some p) s e = ground arith

module _ (if_indextoname : ℕ → Option String) where
  quiet_dev :
      (line : String → Event) (ifi : ℕ) (s : Trace) {u : Unit {0}} {t : Trace}
      → ((name : String) (r : Trace) → verdict_ids (line name ∷ r) ≡ verdict_ids r)
      → print_dev if_indextoname line ifi s ≡ returns u t
      → verdict_ids t ≡ verdict_ids s
  unfolding print_dev
  quiet_dev line ifi s plain e = grind arith

  -- Where `print_packet` returns it has given no verdict, and the result is the ID of the packet.
  pub print_packet_quiet :
      (nfa : NfqData) (s : Trace) {id : ℕ} {t : Trace}
      → print_packet if_indextoname nfa s ≡ returns id t
      → (verdict_ids t ≡ verdict_ids s) × (id ≡ packet_id_of nfa.msg_packet_hdr)
  unfolding print_packet
  print_packet_quiet nfa s e =
      let (id, t1, e1, r1) = >>=-eq-returns (print_hdr nfa.msg_packet_hdr) _ e in
      let (_, t2, e2, r2) = >>=-eq-returns (print_hw nfa.packet_hw) _ r1 in
      let (_, t3, e3, r3) =
        >>=-eq-returns (print_dev if_indextoname printed_input_dev nfa.indev) _ r2 in
      let (_, t4, e4, r4) =
        >>=-eq-returns (print_dev if_indextoname printed_output_dev nfa.outdev) _ r3 in
      let (_, t5, e5, r5) = >>=-eq-returns (print_payload_length nfa.payload) _ r4 in
      ground (
        arith,
        quiet_hdr nfa.msg_packet_hdr s e1,
        quiet_hw nfa.packet_hw t1 e2,
        quiet_dev printed_input_dev nfa.indev t2 (λ name r. unfold verdict_ids in refl) e3,
        quiet_dev printed_output_dev nfa.outdev t3 (λ name r. unfold verdict_ids in refl) e4,
        quiet_payload nfa.payload t4 e5,
      )
