-- ===== src/Raw/Ping/Laws.antt =====
-- The packets of Lab03/zad5/ping.cpp, and what it prints of them.
use mathlib.Core.List.{append_assoc, append-nil}
use pus.Base.{
  sym, ℕ, zero, suc, ◌+◌, ◌*◌, ◌%◌, ◌/◌, ◌<◌, ◌≡◌, refl, ap, ◌∙◌, true, Option, some, List, [], ◌∷◌,
  ◌++◌, length, arith,
}
use pus.Base.Program.{ok, returns, exits, >>=-returns}
use pus.Checksum.{internet_checksum}
use pus.Checksum.Sum.{AreBytes}
use pus.Checksum.Field.{checksum_field}
use pus.Raw.{InAddr, Details, Kernel, Trace, started, sent_to, packet_sent, printed}
use pus.Raw.Steps.{emit, addr_bytes}
use pus.Raw.Ping.{
  child_process, icmp_bytes, letters, datagram, echo, receive, receive_loop, send, send_loop,
  main_process,
}

-- The letters of a packet are bytes.
abbrev pub AreLetters : (ℕ → ℕ) → Type 0
AreLetters letter = (j : ℕ) → letter j < 256

letters-AreBytes :
    (letter : ℕ → ℕ) (n j : ℕ) → AreLetters letter → AreBytes (letters letter n j ++ 0 ∷ [])
unfolding letters
letters-AreBytes letter zero j h = omega arith
letters-AreBytes letter (suc n) j h = (h j, letters-AreBytes letter n (suc j) h)

letters-length : (letter : ℕ → ℕ) (n j : ℕ) → length (letters letter n j ++ 0 ∷ []) ≡ n + 1
unfolding letters
letters-length letter zero j = omega arith
letters-length letter (suc n) j = omega (arith, letters-length letter n (suc j))

-- Echo requests and replies, by their type, with the process and the number in the order of the network.
abbrev pub echo_bytes : ℕ → ℕ → ℕ → ℕ → (ℕ → ℕ) → List ℕ
echo_bytes icmp_type checksum pid i letter =
    icmp_type
    ∷ 0
    ∷ checksum % 256
    ∷ checksum / 256 % 256
    ∷ pid / 256 % 256
    ∷ pid % 256
    ∷ i / 256 % 256
    ∷ i % 256
    ∷ (letters letter 31 0 ++ 0 ∷ [])

echo-eq :
    (letter : ℕ → ℕ) (pid i checksum : ℕ)
    → internet_checksum
        (8
          ∷ 0
          ∷ 0
          ∷ 0
          ∷ pid / 256 % 256
          ∷ pid % 256
          ∷ i / 256 % 256
          ∷ i % 256
          ∷ (letters letter 31 0 ++ 0 ∷ []))
        40
      ≡ ok checksum
    → echo letter pid i ≡ ok (echo_bytes 8 checksum pid i letter)
unfolding echo datagram icmp_bytes
echo-eq letter pid i checksum e = ground arith

-- An echo request of 40 bytes is put together without a fault, with the process and the number in
-- it, and its checksum verifies.
pub echo_verifies :
    (letter : ℕ → ℕ) (pid i : ℕ)
    → AreLetters letter
    → (checksum : ℕ) × (echo letter pid i ≡ ok (echo_bytes 8 checksum pid i letter))
      × (internet_checksum (echo_bytes 8 checksum pid i letter) 40 ≡ ok 0)
echo_verifies letter pid i h =
    let rest =
      pid / 256 % 256 ∷ pid % 256 ∷ i / 256 % 256 ∷ i % 256 ∷ (letters letter 31 0 ++ 0 ∷ []) in
    let rest_bytes : AreBytes rest =
      (omega arith, (omega arith, (omega arith, (omega arith, letters-AreBytes letter 31 0 h)))) in
    let (checksum, value, small, verifies) =
      checksum_field (8 ∷ 0 ∷ []) rest 40 (omega arith) rest_bytes (omega arith) (omega arith)
        (omega (arith, letters-length letter 31 0)) in
    (checksum, echo-eq letter pid i checksum value, verifies)

-- What was given to `sendto`, the first first.
unfoldable pub requests : Trace → List (List ℕ × List ℕ)
requests [] = []
requests (sent_to packet address ∷ trace) = requests trace ++ (packet, address) ∷ []
requests (_ ∷ trace) = requests trace

module _ (kernel : Kernel) (letter : ℕ → ℕ → ℕ) (pid : ℕ) (address : List ℕ) where
  -- Echo requests to the address, numbered from `i` on, whose checksums verify.
  abbrev pub AreEchoes : ℕ → List (List ℕ × List ℕ) → Type 0
  AreEchoes i [] = Unit
  AreEchoes i ((packet, to) ∷ rest) =
      ((checksum : ℕ) × (packet ≡ echo_bytes 8 checksum pid i (letter i)))
      × (internet_checksum packet 40 ≡ ok 0)
      × (to ≡ address)
      × AreEchoes (i + 1) rest

  send_works :
      (packet : List ℕ) (trace : Trace)
      → kernel.sendto (sent_to packet address ∷ trace) ≡ true
      → send kernel letter packet address trace
        ≡ returns tt (packet_sent ∷ sent_to packet address ∷ trace)
  unfolding send emit
  send_works packet trace h = rw h refl

  send_loop-requests :
      (n i : ℕ) (trace : Trace)
      → ((t : Trace) → kernel.sendto t ≡ true)
      → ((k : ℕ) → AreLetters (letter k))
      → (sent : List (List ℕ × List ℕ)) × (t : Trace) × (send_loop kernel letter n i pid address
            trace
          ≡ exits 0 t)
        × (requests t ≡ requests trace ++ sent)
        × (length sent ≡ n)
        × AreEchoes i sent
  unfolding send_loop requests
  send_loop-requests zero i trace h k =
      ([], trace, refl, sym (append-nil (requests trace)), refl, tt)
  send_loop-requests (suc n) i trace h k =
      let (checksum, value, verifies) = echo_verifies (letter i) pid i (k i) in
      let packet = echo_bytes 8 checksum pid i (letter i) in
      let (sent, t, runs, all, long, good) =
        send_loop-requests n (i + 1) (packet_sent ∷ sent_to packet address ∷ trace) h k in
      (
        (packet, address) ∷ sent,
        t,
        rw value (
            >>=-returns (send kernel letter packet address)
              (λ _. send_loop kernel letter n (i + 1) pid address)
              (send_works packet trace (h (sent_to packet address ∷ trace)))
            ∙ runs),
        all ∙ append_assoc (requests trace) ((packet, address) ∷ []) sent,
        ap suc long,
        ((checksum, refl), verifies, refl, good),
      )

  -- If `sendto` does not fail, the process that sends ends with success, and has sent four echo
  -- requests with its process number, numbered 1 to 4 in order, whose checksums verify.
  pub ping_sends :
      (trace : Trace)
      → ((t : Trace) → kernel.sendto t ≡ true)
      → ((k : ℕ) → AreLetters (letter k))
      → (sent : List (List ℕ × List ℕ)) × (t : Trace) × (main_process kernel letter pid address
            trace
          ≡ exits 0 t)
        × (requests t ≡ requests trace ++ sent)
        × (length sent ≡ 4)
        × AreEchoes 1 sent
  unfolding main_process emit requests
  ping_sends trace h k = send_loop-requests 4 1 (started ∷ trace) h k

-- The first 12 bytes of an IP header.
pub record IpFront : Type 0 where
  pub version_length : ℕ
  pub tos : ℕ
  pub len0 : ℕ
  pub len1 : ℕ
  pub id0 : ℕ
  pub id1 : ℕ
  pub off0 : ℕ
  pub off1 : ℕ
  pub ttl : ℕ
  pub protocol : ℕ
  pub sum0 : ℕ
  pub sum1 : ℕ

-- A packet whose IP header has no options.
abbrev pub ip_packet : IpFront → InAddr → InAddr → List ℕ → List ℕ
ip_packet f source destination body =
    f.version_length
    ∷ f.tos
    ∷ f.len0
    ∷ f.len1
    ∷ f.id0
    ∷ f.id1
    ∷ f.off0
    ∷ f.off1
    ∷ f.ttl
    ∷ f.protocol
    ∷ f.sum0
    ∷ f.sum1
    ∷ (addr_bytes source ++ (addr_bytes destination ++ body))

abbrev pub swapped : ℕ → ℕ
swapped n = n / 256 % 256 + 256 * (n % 256)

-- An echo reply in a packet without IP options.
pub record Reply : Type 0 where
  pub front : IpFront
  pub source : InAddr
  pub destination : InAddr
  pub checksum : ℕ
  pub pid : ℕ
  pub number : ℕ
  pub letter : ℕ → ℕ

abbrev pub packet_of : Reply → List ℕ
packet_of r =
    ip_packet r.front r.source r.destination (echo_bytes 0 r.checksum r.pid r.number r.letter)

abbrev pub shown_of : Reply → Details
shown_of r = record {
  source = r.source;
  ttl = r.front.ttl;
  header_length = r.front.version_length % 16;
  destination = r.destination;
  icmp_type = 0;
  code = 0;
  id = swapped r.pid;
  sequence = swapped r.number;
}

abbrev pub receipts : List Reply → List (Option (List ℕ))
receipts [] = []
receipts (r ∷ rest) = some (packet_of r) ∷ receipts rest

abbrev pub shown : List Reply → Trace → Trace
shown [] trace = trace
shown (r ∷ rest) trace = shown rest (printed (shown_of r) ∷ trace)

-- Whatever the buffer held before.
receive_loop_reply :
    (n : ℕ) (r : Reply) (rest : List (Option (List ℕ))) (buffer : List ℕ) (trace : Trace)
    → receive_loop (suc n) (some (packet_of r) ∷ rest) buffer trace
      ≡ receive_loop n rest (receive (some (packet_of r)) buffer) (printed (shown_of r) ∷ trace)
unfolding receive_loop emit
receive_loop_reply n r rest buffer trace = refl

receive_loop_done :
    (buffer : List ℕ) (trace : Trace) → receive_loop 0 [] buffer trace ≡ exits 0 trace
unfolding receive_loop
receive_loop_done buffer trace = refl

receive_loop-shown :
    (replies : List Reply) (buffer : List ℕ) (trace : Trace)
    → receive_loop (length replies) (receipts replies) buffer trace ≡ exits 0 (shown replies trace)
receive_loop-shown [] buffer trace = receive_loop_done buffer trace
receive_loop-shown (r ∷ rest) buffer trace =
    receive_loop_reply (length rest) r (receipts rest) buffer trace
    ∙ receive_loop-shown rest (receive (some (packet_of r)) buffer) (printed (shown_of r) ∷ trace)

-- Of four echo replies in packets without IP options, the process that receives prints in order the
-- addresses, the time to live, the length of the header and the type 0, and the process number and
-- the sequence number with their two bytes swapped; then it ends with success.
pub ping_shows :
    (replies : List Reply) (trace : Trace)
    → length replies ≡ 4
    → child_process (receipts replies) trace ≡ exits 0 (shown replies (started ∷ trace))
unfolding child_process emit
ping_shows replies trace four =
    ap (λ (n : ℕ). receive_loop n (receipts replies) [] (started ∷ trace)) (sym four)
    ∙ receive_loop-shown replies [] (started ∷ trace)
