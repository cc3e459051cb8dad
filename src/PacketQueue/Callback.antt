-- ===== src/PacketQueue/Callback.antt =====
-- `callback` of Lab07/queuemod.c. `nfq_set_verdict` is a parameter: what it returns may depend on
-- everything that was done so far.
pub mod Rewrite
pub mod Laws
use Prim.Native.String.{String}
use pus.Base.{ℕ, ◌+◌, ◌-◌, ◌/◌, ◌%◌, ◌^◌, Option, none, some, List, if◌then◌else◌, ltb, length, set}
use pus.Base.Int.{ℤ}
use pus.Base.Program.{
  Prog, Result, ok, fails, bind, lift, ◌>>=◌, ◌>>◌, pure, out_of_bounds, uninitialised,
}
use pus.Checksum.{internet_checksum}
use pus.SwapBytes.{swap_bytes}
use pus.PacketQueue.Packet.{NfqData, Payload, left_callback, verdict_set, Trace}
use pus.PacketQueue.Print.{print_packet, emit}

-- `sizeof(struct iphdr)` and `sizeof(struct icmphdr)`
abbrev pub ip_header_size : ℕ
ip_header_size = 20

abbrev pub icmp_header_size : ℕ
icmp_header_size = 8

-- The offset of `checksum` in `struct icmphdr`, from the start of the packet.
abbrev pub checksum_offset : ℕ
checksum_offset = 22

abbrev pub nf_accept : ℕ
nf_accept = 1

-- Stores an `unsigned short`.
pub store_short : List ℕ → ℕ → ℕ → Result (List ℕ)
store_short mem p c =
    if ltb (p + 1) (length mem)
    then ok (set (set mem p (c % 256)) (p + 1) (c / 256))
    else fails out_of_bounds

-- Without a payload `packet` was never assigned.
payload_of : Option Payload → Result Payload
payload_of none = fails uninitialised
payload_of (some p) = ok p

-- What is done to the packet: `packetBodySize` is a `size_t`, which wraps, and is passed on as an
-- `unsigned int`; `packetSize` is passed on as an `int`.
unfoldable pub rewrite_packet : ℕ → List ℕ → Result (List ℕ)
unfolding store_short
rewrite_packet packet_size packet =
    let header_size = ip_header_size + icmp_header_size in
    let body_size = (packet_size + 2 ^ 64 - header_size) % 2 ^ 64 in
    bind (swap_bytes packet header_size (body_size % 2 ^ 32)) λ swapped.
      bind (store_short swapped checksum_offset 0) λ cleared.
        bind (internet_checksum cleared (packet_size % 2 ^ 32))
          λ sum. store_short cleared checksum_offset sum

module _ (if_indextoname : ℕ → Option String) (nfq_set_verdict : Trace → ℤ) where
  -- Records the verdict, and answers as the library does.
  set_verdict : ℕ → ℕ → ℕ → List ℕ → Prog Trace ℤ
  set_verdict id verdict size packet = do
    emit (verdict_set id verdict size packet)
    λ trace. pure (nfq_set_verdict trace) trace

  unfoldable pub callback : NfqData → Prog Trace ℤ
  unfolding payload_of set_verdict
  callback nfa = do
    id ← print_packet if_indextoname nfa
    emit left_callback
    p ← lift (payload_of nfa.payload)
    packet ← lift (rewrite_packet p.size p.mem)
    set_verdict id nf_accept p.size packet
