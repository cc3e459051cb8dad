-- ===== src/PacketQueue/Print/Laws.antt =====
-- Where `print_packet` of Lab07/queuemod.c returns, and what.
use Prim.Native.String.{String}
use pus.Base.{ℕ, zero, suc, ◌≤◌, ◌<◌, ◌≡◌, refl, Option, some, none, List, [], ◌∷◌, ◌⊎◌, inl, inr}
use pus.Base.{arith, length, take, ◌==◌, Bool-cases}
use pus.Base.Program.{ok, returns}
use pus.PacketQueue.Packet.{NfqData, PacketHdr, PacketHw, Payload, Event, Trace, ntohl, ntohs}
use pus.PacketQueue.Packet.{
  printed_hdr, printed_hw, printed_input_dev, printed_output_dev, printed_payload_length,
}
use pus.PacketQueue.Print.{
  print_packet, read_bytes, hw_bytes, print_dev, print_hw, print_hdr, print_payload_length,
  hook_name,
}

read_bytes-take : (n : ℕ) (addr : List ℕ) → n ≤ length addr → read_bytes n addr ≡ ok (take n addr)
unfolding read_bytes
read_bytes-take zero addr h = refl
read_bytes-take (suc n) [] h = absurd (omega arith)
read_bytes-take (suc n) (a ∷ addr) h = ground (arith, read_bytes-take n addr (omega arith))

hw_bytes-take :
    (n : ℕ) (addr : List ℕ) → 0 < n → n ≤ length addr → hw_bytes n addr ≡ ok (take n addr)
unfolding hw_bytes
hw_bytes-take zero addr pos h = absurd (omega arith)
hw_bytes-take (suc n) addr pos h = read_bytes-take (suc n) addr h

-- The hardware address, where there is one, has 1 to `length hw_addr` bytes.
abbrev pub HasHw : Option PacketHw → Type 0
HasHw none = Unit
HasHw (some h) = (0 < ntohs h.hw_addrlen) × (ntohs h.hw_addrlen ≤ length h.hw_addr)

-- The interface is not known, or has a name.
abbrev pub HasDev : (ℕ → Option String) → ℕ → Type 0
HasDev if_indextoname ifi = (ifi ≡ 0) ⊎ ((name : String) × (if_indextoname ifi ≡ some name))

abbrev pub packet_id_of : Option PacketHdr → ℕ
packet_id_of none = 0
packet_id_of (some ph) = ntohl ph.packet_id

module _ (if_indextoname : ℕ → Option String) where
  -- What `print_packet` needs to return.
  pub record IsPrintable (nfa : NfqData) : Type 0 where
    pub hw : HasHw nfa.packet_hw
    pub input : HasDev if_indextoname nfa.indev
    pub output : HasDev if_indextoname nfa.outdev

  returns_hdr :
      (h : Option PacketHdr) (before : Trace)
      → (t : Trace) × (print_hdr h before ≡ returns (packet_id_of h) t)
  unfolding print_hdr
  returns_hdr none before = (before, refl)
  returns_hdr (some ph) before =
      let line = printed_hdr (ntohl ph.packet_id) (ntohs ph.hw_protocol) (hook_name ph.hook) in
      (line ∷ before, refl)

  returns_payload :
      (p : Option Payload) (before : Trace)
      → (t : Trace) × (print_payload_length p before ≡ returns tt t)
  unfolding print_payload_length
  returns_payload none before = (before, refl)
  returns_payload (some p) before = (printed_payload_length p.size ∷ before, refl)

  returns_hw :
      (h : Option PacketHw) (before : Trace)
      → HasHw h
      → (t : Trace) × (print_hw h before ≡ returns tt t)
  unfolding print_hw
  returns_hw none before fits = (before, refl)
  returns_hw (some h) before fits = (
    printed_hw (take (ntohs h.hw_addrlen) h.hw_addr) ∷ before,
    ground (arith, hw_bytes-take (ntohs h.hw_addrlen) h.hw_addr fits.0 fits.1),
  )

  returns_dev :
      (line : String → Event) (ifi : ℕ) (before : Trace)
      → HasDev if_indextoname ifi
      → (t : Trace) × (print_dev if_indextoname line ifi before ≡ returns tt t)
  unfolding print_dev
  returns_dev line ifi before (inl unknown) = (before, ground arith)
  returns_dev line ifi before (inr (name, e)) = elim (Bool-cases (ifi == 0)) [
    | inl z ↦ (before, ground arith)
    | inr nz ↦ (line name ∷ before, ground arith)
  ]

  -- `print_packet` returns where the hardware address has 1 to `length hw_addr` bytes and the
  -- interfaces that are set have names.
  pub print_packet_returns :
      (nfa : NfqData) (before : Trace)
      → IsPrintable nfa
      → (t : Trace) × (print_packet if_indextoname nfa before
          ≡ returns (packet_id_of nfa.msg_packet_hdr) t)
  unfolding print_packet
  print_packet_returns nfa before v =
      let (t1, e1) = returns_hdr nfa.msg_packet_hdr before in
      let (t2, e2) = returns_hw nfa.packet_hw t1 v.hw in
      let (t3, e3) = returns_dev printed_input_dev nfa.indev t2 v.input in
      let (t4, e4) = returns_dev printed_output_dev nfa.outdev t3 v.output in
      let (t5, e5) = returns_payload nfa.payload t4 in (t5, ground arith)
