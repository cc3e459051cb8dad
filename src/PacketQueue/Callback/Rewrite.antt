-- ===== src/PacketQueue/Callback/Rewrite.antt =====
-- What `callback` of Lab07/queuemod.c makes of the bytes of a packet.
use mathlib.Core.List.{append_assoc, reverse_aux}
use pus.Base.{ℕ, ◌+◌, ◌-◌, ◌/◌, ◌%◌, ◌≤◌, ◌<◌, ◌≡◌, ap, ap₂, sym, ◌∙◌, List, [], ◌∷◌, ◌++◌}
use pus.Base.{arith, length, length-append, reverse, set-middle, set-middle_next}
use pus.Base.Program.{ok}
use pus.Checksum.{internet_checksum}
use pus.Checksum.Sum.{AreBytes, total, words, folded}
use pus.Checksum.Verify.{
  low_byte, high_byte, append-AreBytes, internet_checksum-behind, internet_checksum_whole,
}
use pus.SwapBytes.{swap_bytes}
use pus.SwapBytes.Laws.{swap_bytes-reverse}
use pus.PacketQueue.Callback.{rewrite_packet, store_short}

store_short-middle :
    (pre post : List ℕ) (a b c : ℕ)
    → store_short (pre ++ a ∷ b ∷ post) (length pre) c ≡ ok (pre ++ low_byte c ∷ high_byte c ∷ post)
unfolding store_short
store_short-middle pre post a b c = ground (
  arith,
  length-append pre (a ∷ b ∷ post),
  set-middle pre a (c % 256) (b ∷ post),
  set-middle_next pre (c % 256) b (c / 256) post,
)

-- An IPv4 packet without options that carries an ICMP message: the IP header, the type and the
-- code, the two bytes of the checksum, the rest of the ICMP header and the body.
pub record Parts : Type 0 where
  pub ip : List ℕ
  pub kind : ℕ
  pub code : ℕ
  pub rest : List ℕ
  pub body : List ℕ

pub record IsPacket (p : Parts) : Type 0 where
  pub ip_size : length p.ip ≡ 20
  pub rest_size : length p.rest ≡ 4
  pub body_size : 0 < length p.body
  pub fits : 28 + length p.body ≤ 65535
  pub ip_bytes : AreBytes p.ip
  pub kind_byte : p.kind < 256
  pub code_byte : p.code < 256
  pub rest_bytes : AreBytes p.rest
  pub body_bytes : AreBytes p.body

-- The ICMP message with given checksum bytes and body.
abbrev pub icmp : Parts → ℕ → ℕ → List ℕ → List ℕ
icmp p c0 c1 body = p.kind ∷ p.code ∷ c0 ∷ c1 ∷ (p.rest ++ body)

abbrev pub packet_size : Parts → ℕ
packet_size p = 28 + length p.body

pub reverse-AreBytes :
    (xs acc : List ℕ) → AreBytes xs → AreBytes acc → AreBytes (reverse_aux xs acc)
reverse-AreBytes [] acc h k = k
reverse-AreBytes (x ∷ xs) acc h k = reverse-AreBytes xs (x ∷ acc) h.1 (h.0, k)

pub length-reverse_aux : (xs acc : List ℕ) → length (reverse_aux xs acc) ≡ length xs + length acc
length-reverse_aux [] acc = omega arith
length-reverse_aux (x ∷ xs) acc = omega (arith, length-reverse_aux xs (x ∷ acc))

split_body :
    (p : Parts) (c0 c1 : ℕ) (body behind : List ℕ)
    → p.ip ++ (icmp p c0 c1 body ++ behind)
      ≡ (p.ip ++ p.kind ∷ p.code ∷ c0 ∷ c1 ∷ p.rest) ++ (body ++ behind)
split_body p c0 c1 body behind = simp append_assoc

split_checksum :
    (p : Parts) (c0 c1 : ℕ) (body behind : List ℕ)
    → p.ip ++ (icmp p c0 c1 body ++ behind)
      ≡ (p.ip ++ p.kind ∷ p.code ∷ []) ++ c0 ∷ c1 ∷ (p.rest ++ (body ++ behind))
split_checksum p c0 c1 body behind = simp append_assoc

module _ (p : Parts) (v : IsPacket p) (c0 c1 : ℕ) (behind : List ℕ) where
  swapped-eq :
      swap_bytes (p.ip ++ (icmp p c0 c1 p.body ++ behind)) 28 (length p.body)
      ≡ ok (p.ip ++ (icmp p c0 c1 (reverse p.body) ++ behind))
  swapped-eq =
      ap₂ (λ m n. swap_bytes m n (length p.body)) (split_body p c0 c1 p.body behind)
        (omega
          (arith, v.ip_size, v.rest_size, length-append p.ip (p.kind ∷ p.code ∷ c0 ∷ c1 ∷ p.rest)))
      ∙ (swap_bytes-reverse (p.ip ++ p.kind ∷ p.code ∷ c0 ∷ c1 ∷ p.rest) p.body behind v.body_size
            (omega (arith, v.fits))
          ∙ ap ok (sym (split_body p c0 c1 (reverse p.body) behind)))

  store-eq :
      (body : List ℕ) (c : ℕ)
      → store_short (p.ip ++ (icmp p c0 c1 body ++ behind)) 22 c
        ≡ ok (p.ip ++ (icmp p (low_byte c) (high_byte c) body ++ behind))
  store-eq body c =
      ap₂ (λ m n. store_short m n c) (split_checksum p c0 c1 body behind)
        (omega (arith, v.ip_size, length-append p.ip (p.kind ∷ p.code ∷ [])))
      ∙ (store_short-middle (p.ip ++ p.kind ∷ p.code ∷ []) (p.rest ++ (body ++ behind)) c0 c1 c
          ∙ ap ok (sym (split_checksum p (low_byte c) (high_byte c) body behind)))

  abbrev cleared : List ℕ
  cleared = p.ip ++ icmp p 0 0 (reverse p.body)

  cleared-AreBytes : AreBytes (p.ip ++ icmp p 0 0 (reverse p.body))
  cleared-AreBytes = append-AreBytes p.ip _ v.ip_bytes (
    v.kind_byte,
    (
      v.code_byte,
      (
        omega arith,
        (
          omega arith,
          append-AreBytes p.rest _ v.rest_bytes (reverse-AreBytes p.body [] v.body_bytes tt),
        ),
      ),
    ),
  )

  length-cleared : length (p.ip ++ icmp p 0 0 (reverse p.body)) ≡ packet_size p
  length-cleared = omega (
    arith,
    v.ip_size,
    v.rest_size,
    length-append p.ip (icmp p 0 0 (reverse p.body)),
    length-append p.rest (reverse p.body),
    length-reverse_aux p.body [],
  )

  abbrev sum : ℕ
  sum = 65535 - folded (total (words cleared))

  checksum-cleared : internet_checksum cleared (packet_size p) ≡ ok sum
  checksum-cleared =
      rw (← length-cleared)
        (internet_checksum_whole cleared cleared-AreBytes (omega (arith, length-cleared, v.fits)))

  checksum-behind :
      AreBytes behind
      → internet_checksum (p.ip ++ (icmp p 0 0 (reverse p.body) ++ behind)) (packet_size p) ≡ ok sum
  checksum-behind hb =
      ap₂ internet_checksum (sym (append_assoc p.ip (icmp p 0 0 (reverse p.body)) behind))
        (sym length-cleared)
      ∙ (internet_checksum-behind cleared behind cleared-AreBytes hb
            (omega (arith, length-cleared, v.fits))
          ∙ (ap (internet_checksum cleared) length-cleared ∙ checksum-cleared))

-- The bytes of the packet after the callback: the body reversed, and over the zeroed field a
-- checksum of the whole packet stored in the ICMP header.
pub rewrite_packet-eq :
    (p : Parts) (v : IsPacket p) (c0 c1 : ℕ) (behind : List ℕ)
    → AreBytes behind
    → (c : ℕ) × (rewrite_packet (packet_size p) (p.ip ++ (icmp p c0 c1 p.body ++ behind))
        ≡ ok (p.ip ++ (icmp p (low_byte c) (high_byte c) (reverse p.body) ++ behind)))
      × (internet_checksum (p.ip ++ icmp p 0 0 (reverse p.body)) (packet_size p) ≡ ok c)
unfolding rewrite_packet
rewrite_packet-eq p v c0 c1 behind hb = (
  sum p v c0 c1 behind,
  ground (
    arith,
    swapped-eq p v c0 c1 behind,
    store-eq p v c0 c1 behind (reverse p.body) 0,
    checksum-behind p v c0 c1 behind hb,
    store-eq p v 0 0 behind (reverse p.body) (sum p v c0 c1 behind),
  ),
  checksum-cleared p v c0 c1 behind,
)
