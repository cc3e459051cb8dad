-- ===== src/PacketQueue/Callback/Laws.antt =====
-- The verdict that `callback` of Lab07/queuemod.c gives, and the packets that it cannot handle.
use Prim.Native.String.{String}
use pus.Base.{
  ℕ, ◌+◌, ◌-◌, ◌%◌, ◌^◌, ◌≤◌, ◌<◌, ◌≡◌, ap, sym, ◌∙◌, List, ◌∷◌, ◌++◌, [], Option, some, none,
}
use pus.Base.{arith, length, length-append, reverse}
use pus.Base.Int.{ℤ}
use pus.Base.Program.{ok, returns, faults, out_of_bounds, uninitialised}
use pus.Checksum.{internet_checksum}
use pus.Checksum.Sum.{AreBytes, total, words}
use pus.Checksum.Verify.{
  low_byte, high_byte, append-AreBytes, internet_checksum-store, internet_checksum-append,
}
use pus.SwapBytes.Laws.{swap_bytes_outside}
use pus.PacketQueue.Packet.{NfqData, Trace, left_callback, verdict_set}
use pus.PacketQueue.Print.{print_packet}
use pus.PacketQueue.Callback.{rewrite_packet, callback, nf_accept}
use pus.PacketQueue.Callback.Rewrite.{
  Parts, IsPacket, icmp, packet_size, rewrite_packet-eq, reverse-AreBytes, length-reverse_aux,
}

abbrev pub message : Parts → ℕ → ℕ → List ℕ → List ℕ
message p c0 c1 behind = p.ip ++ (icmp p c0 c1 p.body ++ behind)

-- The ICMP message that leaves has a checksum that verifies.
icmp-verifies :
    (p : Parts) (v : IsPacket p) (c : ℕ)
    → internet_checksum p.ip 20 ≡ ok 0
    → 0 < p.kind
    → internet_checksum (p.ip ++ icmp p 0 0 (reverse p.body)) (packet_size p) ≡ ok c
    → internet_checksum (icmp p (low_byte c) (high_byte c) (reverse p.body)) (8 + length p.body)
      ≡ ok 0
unfolding total words
icmp-verifies p v c verifies kind_pos e =
    let post = p.rest ++ reverse p.body in
    let zeroed = icmp p 0 0 (reverse p.body) in
    let post_bytes : AreBytes post =
      append-AreBytes p.rest (reverse p.body) v.rest_bytes
        (reverse-AreBytes p.body [] v.body_bytes tt) in
    let zeroed_bytes : AreBytes zeroed =
      (v.kind_byte, (v.code_byte, (omega arith, (omega arith, post_bytes)))) in
    let post_length : length post ≡ 4 + length p.body =
      omega
        (arith, v.rest_size, length-append p.rest (reverse p.body), length-reverse_aux p.body []) in
    let whole_length : length (p.ip ++ zeroed) ≡ packet_size p =
      omega (arith, v.ip_size, post_length, length-append p.ip zeroed) in
    let of_message : internet_checksum zeroed (length zeroed) ≡ ok c =
      sym (
        internet_checksum-append p.ip zeroed v.ip_bytes zeroed_bytes (omega (arith, v.ip_size))
          (omega (arith, whole_length, v.fits)) (ap (internet_checksum p.ip) v.ip_size ∙ verifies)
          (omega (arith, kind_pos)))
      ∙ (ap (internet_checksum (p.ip ++ zeroed)) whole_length ∙ e) in
    ap (internet_checksum (icmp p (low_byte c) (high_byte c) (reverse p.body)))
      (omega (arith, post_length))
    ∙ internet_checksum-store (p.kind ∷ p.code ∷ []) post c (v.kind_byte, (v.code_byte, tt))
        post_bytes (omega arith) (omega (arith, post_length, v.fits)) of_message

module _ (if_indextoname : ℕ → Option String) (nfq_set_verdict : Trace → ℤ) where
  -- For an IPv4 packet without options, whose header checksum verifies, that carries an ICMP
  -- message with a type other than 0 and a body: the callback accepts the packet under its ID, with
  -- the body reversed and nothing else changed but the ICMP checksum, and that one verifies.
  pub callback-accepts :
      (nfa : NfqData) (p : Parts) (c0 c1 : ℕ) (behind : List ℕ) (id : ℕ) (before printed : Trace)
      → IsPacket p
      → AreBytes behind
      → internet_checksum p.ip 20 ≡ ok 0
      → 0 < p.kind
      → nfa.payload ≡ some (record { size = packet_size p; mem = message p c0 c1 behind })
      → print_packet if_indextoname nfa before ≡ returns id printed
      → (c : ℕ) × (let done : Trace =
            verdict_set id nf_accept
              (packet_size p)
              (p.ip ++ (icmp p (low_byte c) (high_byte c) (reverse p.body) ++ behind))
            ∷ left_callback
            ∷ printed in
          callback if_indextoname nfq_set_verdict nfa before ≡ returns (nfq_set_verdict done) done)
        × (internet_checksum
              (icmp p (low_byte c) (high_byte c) (reverse p.body))
              (8 + length p.body)
            ≡ ok 0)
  unfolding callback
  callback-accepts nfa p c0 c1 behind id before printed v hb verifies kind_pos has_payload prints =
      let (c, e, sum) = rewrite_packet-eq p v c0 c1 behind hb in
      (c, ground arith, icmp-verifies p v c verifies kind_pos sum)

  -- For a packet with no ICMP body, or one shorter than the two headers, in a buffer of less than 2^31
  -- bytes, if `print_packet` returns, the behaviour of the callback is undefined: it leaves the
  -- bounds of the buffer.
  pub callback_short :
      (nfa : NfqData) (size id : ℕ) (mem : List ℕ) (before printed : Trace)
      → size ≤ 28
      → length mem < 2 ^ 31
      → nfa.payload ≡ some (record { size = size; mem = mem })
      → print_packet if_indextoname nfa before ≡ returns id printed
      → callback if_indextoname nfq_set_verdict nfa before ≡ faults out_of_bounds
  unfolding callback rewrite_packet
  callback_short nfa size id mem before printed short small has_payload prints = ground (
    arith,
    swap_bytes_outside mem 28 ((size + 2 ^ 64 - 28) % 2 ^ 64 % 2 ^ 32) (omega arith) (omega arith),
  )

  -- Where the library has no payload to give, the callback follows a pointer that was never set.
  pub callback_no_payload :
      (nfa : NfqData) (id : ℕ) (before printed : Trace)
      → nfa.payload ≡ none
      → print_packet if_indextoname nfa before ≡ returns id printed
      → callback if_indextoname nfq_set_verdict nfa before ≡ faults uninitialised
  unfolding callback
  callback_no_payload nfa id before printed has_none prints = ground arith
