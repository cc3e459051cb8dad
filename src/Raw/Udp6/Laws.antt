-- ===== src/Raw/Udp6/Laws.antt =====
-- The datagram of Lab03/zad4/udpv6.c.
use pus.Base.{
  ℕ, ◌%◌, ◌/◌, ◌<◌, ◌≡◌, ◌≢◌, ◌^◌, ap, ◌∙◌, inl, inr, true, some, List, [], ◌∷◌, ◌++◌, ◌==◌,
  Bool-cases, arith,
}
use pus.Base.Int.{ℤ, to_unsigned}
use pus.Base.Text.{Text, atoi}
use pus.Base.Program.{ok, returns}
use pus.Checksum.{internet_checksum}
use pus.Checksum.Sum.{AreBytes}
use pus.Checksum.Field.{checksum_field, checksum_ones}
use pus.Raw.{InAddr, Kernel, Trace, started}
use pus.Raw.Steps.{addr_bytes, sin_addr, emit}
use pus.Raw.Traces.{sends, repeated, are_skipped, first_socket-finds, send_rounds-sends}
use pus.Raw.Udp6.{
  datagram, udp_bytes, pseudo_bytes, stored_sum, packet, creating_and_setting_socket,
  sending_empty_datagram, send_all, with_addresses, main,
}

abbrev front : ℕ → List ℕ
front port = 0 ∷ 0 ∷ port / 256 % 256 ∷ port % 256 ∷ 0 ∷ 8 ∷ []

abbrev behind : InAddr → List ℕ
behind i = addr_bytes i ++ 0 ∷ 17 ∷ 0 ∷ 8 ∷ []

-- The other sum of nothing: where 0 verifies, so does 0xffff.
stored-verifies :
    (port checksum : ℕ) (i : InAddr)
    → AreBytes (addr_bytes i)
    → checksum < 65536
    → internet_checksum (front port ++ 0 ∷ 0 ∷ behind i) 16 ≡ ok checksum
    → internet_checksum (front port ++ checksum % 256 ∷ checksum / 256 % 256 ∷ behind i) 16 ≡ ok 0
    → internet_checksum
        (front port ++ stored_sum checksum % 256 ∷ stored_sum checksum / 256 % 256 ∷ behind i)
        16
      ≡ ok 0
unfolding stored_sum
stored-verifies port checksum i h small value verifies = elim (Bool-cases (checksum == 0)) [
  | inl nought ↦ ground (
    arith,
    checksum_ones (front port) (behind i) 16 (omega arith) (omega arith) (omega arith) (omega arith)
        (omega arith),
  )
  | inr other ↦ ground arith
]

-- The sum over a datagram of 8 bytes and what the program puts behind it, as a receiver would take
-- it if that were the pseudo header.
abbrev pub Verifies : InAddr → List ℕ → Type 0
Verifies i bytes = internet_checksum (bytes ++ behind i) 16 ≡ ok 0

abbrev pub sent_bytes : ℕ → ℕ → List ℕ
sent_bytes port sum =
    0 ∷ 0 ∷ port / 256 % 256 ∷ port % 256 ∷ 0 ∷ 8 ∷ sum % 256 ∷ sum / 256 % 256 ∷ []

packet-eq :
    (i : InAddr) (port checksum : ℕ)
    → internet_checksum (front port ++ 0 ∷ 0 ∷ behind i) 16 ≡ ok checksum
    → packet i port ≡ ok (sent_bytes port (stored_sum checksum))
unfolding packet datagram udp_bytes pseudo_bytes
packet-eq i port checksum e = ground arith

stored_sum-bounds :
    (checksum : ℕ) → checksum < 65536 → (stored_sum checksum ≢ 0) × (stored_sum checksum < 65536)
unfolding stored_sum
stored_sum-bounds checksum h = (λ e. ground arith, ground arith)

-- For any four bytes that are read as the address, and any port, the datagram is put together
-- without a fault: 8 bytes, to the port, with a length of 8 and a checksum that is never 0, which
-- verifies over the datagram and those four bytes, the protocol and the length.
pub udp_packet :
    (i : InAddr) (port : ℕ)
    → AreBytes (addr_bytes i)
    → (sum : ℕ) × (sum ≢ 0)
      × (sum < 65536)
      × (packet i port ≡ ok (sent_bytes port sum))
      × Verifies i (sent_bytes port sum)
udp_packet i port h =
    let (checksum, value, small, verifies) =
      checksum_field (front port) (behind i) 16 (omega arith) (omega arith) (omega arith)
        (omega arith) (omega arith) in
    let bounds = stored_sum-bounds checksum small in
    (
      stored_sum checksum,
      bounds.0,
      bounds.1,
      packet-eq i port checksum value,
      stored-verifies port checksum i h small value verifies,
    )

-- A `struct sockaddr_in6`: the family, the port, the flow information, and the address with the scope.
abbrev pub sockaddr_in6 : ℕ → ℕ → ℕ → ℕ → InAddr → List ℕ → List ℕ
sockaddr_in6 f0 f1 p0 p1 flow host = f0 ∷ f1 ∷ p0 ∷ p1 ∷ flow.a ∷ flow.b ∷ flow.c ∷ flow.d ∷ host

module _ (kernel : Kernel) (program host port : Text) (skipped rest : List (List ℕ))
    (f0 f1 p0 p1 : ℕ) (flow : InAddr) (address : List ℕ) (sockfd : ℕ) where
  -- If an IPv6 address gives a socket on which the option can be set, and those in front of it give
  -- none, the program sends the same datagram to it in every round of its loop. The checksum in it
  -- is not 0 and verifies over the flow information of the address: the address itself, and where
  -- the datagram comes from, play no part.
  pub udp_sends :
      (rounds : ℕ) (number : ℤ) (trace : Trace)
      → kernel.getaddrinfo host ≡ some (skipped ++ sockaddr_in6 f0 f1 p0 p1 flow address ∷ rest)
      → are_skipped kernel skipped ≡ true
      → kernel.socket (sockaddr_in6 f0 f1 p0 p1 flow address) ≡ some sockfd
      → kernel.setsockopt sockfd ≡ true
      → AreBytes (addr_bytes flow)
      → atoi port ≡ ok number
      → (sum : ℕ) × (t : Trace) × (sum ≢ 0)
        × Verifies flow (sent_bytes (to_unsigned number % 2 ^ 16) sum)
        × (main kernel rounds (program ∷ host ∷ port ∷ []) trace ≡ returns tt t)
        × (sends t
            ≡ repeated rounds (
              sent_bytes (to_unsigned number % 2 ^ 16) sum,
              sockaddr_in6 f0 f1 p0 p1 flow address,
            )
              ++ sends trace)
  unfolding main with_addresses send_all creating_and_setting_socket sending_empty_datagram sin_addr
      emit sends
  udp_sends rounds number trace found skips opened set_ is_i digits_ =
      let to = sockaddr_in6 f0 f1 p0 p1 flow address in
      let (sum, nonzero, small, value, verifies) =
        udp_packet flow (to_unsigned number % 2 ^ 16) is_i in
      let bytes = sent_bytes (to_unsigned number % 2 ^ 16) sum in
      let (t, first, none_sent) =
        first_socket-finds kernel skipped rest to sockfd trace skips opened set_ in
      let (u, runs, all) = send_rounds-sends kernel rounds bytes to (started ∷ t) in
      (
        sum,
        u,
        nonzero,
        verifies,
        ground arith,
        all ∙ ap (λ (l : List (List ℕ × List ℕ)). repeated rounds (bytes, to) ++ l) none_sent,
      )
