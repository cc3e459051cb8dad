-- ===== src/Raw/Tcp/Laws.antt =====
-- The packet of Lab03/zad3/tcp.c.
use pus.Base.{
  some, true, ◌^◌, ap, length, refl, ◌∙◌, ℕ, ◌%◌, ◌/◌, ◌<◌, ◌≡◌, List, [], ◌∷◌, ◌++◌, take, drop,
  arith,
}
use pus.Base.Program.{Result, ok, bind, returns}
use pus.Checksum.{internet_checksum}
use pus.Checksum.Sum.{AreBytes}
use pus.Checksum.Field.{checksum_field}
use pus.Raw.{InAddr, Kernel, Trace, started}
use pus.Base.Int.{ℤ, to_unsigned}
use pus.Base.Text.{Text, atoi}
use pus.Raw.Steps.{addr_bytes, sin_addr, emit}
use pus.Raw.Traces.{sends, repeated, are_skipped, first_socket-finds, send_rounds-sends}
use pus.Raw.Tcp.{
  main, with_addresses, send_all, IpHeader, ip_bytes, tcp_bytes, pseudo_bytes, source_address,
  ip_create, tcp_create, pseudo_create, datagram, packet,
}

-- The bytes of an address are bytes.
abbrev pub IsAddress : InAddr → Type 0
IsAddress i = AreBytes (addr_bytes i)

-- What a receiver checks of an IP packet with a TCP segment of 20 bytes: the sum over the IP header, and the sum
-- over the two addresses, the protocol and the length with the segment.
abbrev pub Verifies : List ℕ → Type 0
Verifies bytes =
    (internet_checksum (take 20 bytes) 20 ≡ ok 0)
    × (internet_checksum (take 8 (drop 12 bytes) ++ (0 ∷ 6 ∷ 0 ∷ 20 ∷ drop 20 bytes)) 32 ≡ ok 0)

-- The IP header with a sum.
abbrev ip_with : InAddr → ℕ → IpHeader
ip_with i sum = record {
  ip_hl = 5;
  ip_v = 4;
  ip_tos = 0;
  ip_len = 40;
  ip_id = 0;
  ip_off = 0;
  ip_ttl = 255;
  ip_p = 6;
  ip_sum = sum;
  ip_src = source_address;
  ip_dst = i;
}

abbrev ip_front : List ℕ
ip_front = 69 ∷ 0 ∷ 40 ∷ 0 ∷ 0 ∷ 0 ∷ 0 ∷ 0 ∷ 255 ∷ 6 ∷ []

ip_create-sum :
    (i : InAddr)
    → IsAddress i
    → (sum : ℕ) × (ip_create i ≡ ok (ip_with i sum))
      × (internet_checksum (ip_bytes (ip_with i sum)) 20 ≡ ok 0)
unfolding ip_create ip_bytes
ip_create-sum i h =
    let (c, value, small, verifies) =
      checksum_field ip_front (addr_bytes source_address ++ addr_bytes i) 20 (omega arith)
        (omega arith) (omega arith) (omega arith) (omega arith) in
    (c, ap (λ (r : Result ℕ). bind r λ sum. ok (ip_with i sum)) value, verifies)

-- The bytes of the pseudo header and of the segment in front of its checksum.
abbrev pseudo_front : InAddr → ℕ → List ℕ
pseudo_front i port =
    addr_bytes source_address
    ++ addr_bytes i
    ++ (0
        ∷ 6
        ∷ 0
        ∷ 20
        ∷ 26
        ∷ 10
        ∷ port / 256 % 256
        ∷ port % 256
        ∷ 0
        ∷ 0
        ∷ 0
        ∷ 0
        ∷ 0
        ∷ 0
        ∷ 0
        ∷ 0
        ∷ 80
        ∷ 2
        ∷ 22
        ∷ 208
        ∷ [])

pseudo-sum :
    (i : InAddr) (port : ℕ)
    → IsAddress i
    → (check : ℕ) × (internet_checksum (pseudo_front i port ++ 0 ∷ 0 ∷ 0 ∷ 0 ∷ []) 32 ≡ ok check)
      × (check < 65536)
      × (internet_checksum (pseudo_front i port ++ check % 256 ∷ check / 256 % 256 ∷ 0 ∷ 0 ∷ []) 32
          ≡ ok 0)
pseudo-sum i port h =
    checksum_field (pseudo_front i port) (0 ∷ 0 ∷ []) 32 (omega arith) (omega arith) (omega arith)
      (omega arith) (omega arith)

tcp_front :
    (port : ℕ) (i : InAddr) (sum : ℕ)
    → pseudo_bytes (pseudo_create (ip_with i sum) (tcp_create port))
      ≡ pseudo_front i port ++ 0 ∷ 0 ∷ 0 ∷ 0 ∷ []
unfolding pseudo_bytes pseudo_create tcp_create
tcp_front port i sum = ground arith

-- The 40 bytes that are sent.
abbrev sent_bytes : InAddr → ℕ → ℕ → ℕ → List ℕ
sent_bytes i port sum check =
    take 40 (datagram (ip_with i sum) (record (tcp_create port) { check = check }))

sent-pseudo :
    (i : InAddr) (port sum check : ℕ)
    → take 8 (drop 12 (sent_bytes i port sum check))
        ++ (0 ∷ 6 ∷ 0 ∷ 20 ∷ drop 20 (sent_bytes i port sum check))
      ≡ pseudo_front i port ++ check % 256 ∷ check / 256 % 256 ∷ 0 ∷ 0 ∷ []
unfolding datagram ip_bytes tcp_bytes tcp_create
sent-pseudo i port sum check = ground arith

-- For any address and port the packet is put together without a fault. It has 40 bytes, goes from
-- 192.168.2.2 to the address and from port 6666 to the port, has SYN as its only flag, and both of
-- its checksums verify.
pub tcp_packet :
    (i : InAddr) (port : ℕ)
    → IsAddress i
    → (bytes : List ℕ) × (packet i port ≡ ok bytes)
      × (length bytes ≡ 40)
      × (take 8 (drop 12 bytes) ≡ 192 ∷ 168 ∷ 2 ∷ 2 ∷ addr_bytes i)
      × (take 4 (drop 20 bytes) ≡ 26 ∷ 10 ∷ port / 256 % 256 ∷ port % 256 ∷ [])
      × (take 1 (drop 33 bytes) ≡ 2 ∷ [])
      × Verifies bytes
unfolding packet datagram ip_bytes tcp_bytes tcp_create
tcp_packet i port h =
    let (sum, header, ip_ok) = ip_create-sum i h in
    let (check, value, small, tcp_ok) = pseudo-sum i port h in
    (
      sent_bytes i port sum check,
      ground (arith, tcp_front port i sum),
      refl,
      refl,
      ground arith,
      refl,
      (ip_ok, ap (λ (l : List ℕ). internet_checksum l 32) (sent-pseudo i port sum check) ∙ tcp_ok),
    )

module _ (kernel : Kernel) (program host port : Text) (skipped rest : List (List ℕ))
    (address : List ℕ) (sockfd : ℕ) where
  -- If an address gives a socket on which the option can be set, and those in front of it give
  -- none, the program sends the same packet to that address in every round of its loop, whether the
  -- calls of `sendto` succeed or not. The packet has 40 bytes, goes from 192.168.2.2 to the address
  -- and from port 6666 to the port modulo 2^16, has SYN as its only flag, and both of its checksums
  -- verify.
  pub tcp_sends :
      (rounds : ℕ) (i : InAddr) (number : ℤ) (trace : Trace)
      → kernel.getaddrinfo host ≡ some (skipped ++ address ∷ rest)
      → are_skipped kernel skipped ≡ true
      → kernel.socket address ≡ some sockfd
      → kernel.setsockopt sockfd ≡ true
      → sin_addr address ≡ ok i
      → IsAddress i
      → atoi port ≡ ok number
      → (bytes : List ℕ) × (t : Trace) × (packet i (to_unsigned number % 2 ^ 16) ≡ ok bytes)
        × (length bytes ≡ 40)
        × (take 8 (drop 12 bytes) ≡ 192 ∷ 168 ∷ 2 ∷ 2 ∷ addr_bytes i)
        × (take 4 (drop 20 bytes)
            ≡ 26
              ∷ 10
              ∷ to_unsigned number % 2 ^ 16 / 256 % 256
              ∷ to_unsigned number % 2 ^ 16 % 256
              ∷ [])
        × (take 1 (drop 33 bytes) ≡ 2 ∷ [])
        × Verifies bytes
        × (main kernel rounds (program ∷ host ∷ port ∷ []) trace ≡ returns tt t)
        × (sends t ≡ repeated rounds (bytes, address) ++ sends trace)
  unfolding main with_addresses send_all emit sends
  tcp_sends rounds i number trace found skips opened set_ parsed is_i digits_ =
      let (bytes, value, long, addresses, ports, flags, verifies) =
        tcp_packet i (to_unsigned number % 2 ^ 16) is_i in
      let (t, first, none_sent) =
        first_socket-finds kernel skipped rest address sockfd trace skips opened set_ in
      let (u, runs, all) = send_rounds-sends kernel rounds bytes address (started ∷ t) in
      (
        bytes,
        u,
        value,
        long,
        addresses,
        ports,
        flags,
        verifies,
        ground arith,
        all ∙ ap (λ (l : List (List ℕ × List ℕ)). repeated rounds (bytes, address) ++ l) none_sent,
      )
