-- ===== src/Checksum/Field.antt =====
-- Checksums that a program stores into the packet that they are taken over.
use pus.Base.{
  ℕ, ◌+◌, ◌-◌, ◌/◌, ◌%◌, ◌≤◌, ◌<◌, ◌≡◌, ap, sym, subst, ◌∙◌, List, ◌∷◌, ◌++◌, arith, length,
  length-append,
}
use pus.Base.Program.{ok}
use pus.Checksum.{internet_checksum}
use pus.Checksum.Sum.{words, total, folded, AreBytes}
use pus.Checksum.Rfc.{folded-lt}
use pus.Checksum.Verify.{
  append-AreBytes, total-append, total-field, ok-injective, internet_checksum_whole,
  internet_checksum-store,
}

length-field :
    (pre post : List ℕ) (a b c d : ℕ) → length (pre ++ a ∷ b ∷ post) ≡ length (pre ++ c ∷ d ∷ post)
length-field pre post a b c d =
    omega (arith, length-append pre (a ∷ b ∷ post), length-append pre (c ∷ d ∷ post))

-- The checksum over a packet with a zeroed field exists, and the packet with it in the field
-- verifies.
pub checksum_field :
    (pre post : List ℕ) (n : ℕ)
    → AreBytes pre
    → AreBytes post
    → length pre % 2 ≡ 0
    → n ≤ 65536
    → length (pre ++ 0 ∷ 0 ∷ post) ≡ n
    → (c : ℕ) × (internet_checksum (pre ++ 0 ∷ 0 ∷ post) n ≡ ok c)
      × (c < 65536)
      × (internet_checksum (pre ++ c % 256 ∷ c / 256 % 256 ∷ post) n ≡ ok 0)
checksum_field pre post n hpre hpost even small size =
    let bytes = pre ++ 0 ∷ 0 ∷ post in
    let s = total (words bytes) in
    let c = 65535 - folded s in
    let zeroed : AreBytes bytes =
      append-AreBytes pre (0 ∷ 0 ∷ post) hpre (omega arith, (omega arith, hpost)) in
    let value : internet_checksum bytes (length bytes) ≡ ok c =
      internet_checksum_whole bytes zeroed (omega (arith, size)) in
    let high : c / 256 ≡ c / 256 % 256 = omega arith in
    let filled = internet_checksum-store pre post c hpre hpost even (omega (arith, size)) value in
    let total_size : length (pre ++ c % 256 ∷ c / 256 ∷ post) ≡ n =
      length-field pre post (c % 256) (c / 256) 0 0 ∙ size in
    (
      c,
      subst (λ (k : ℕ). internet_checksum bytes k ≡ ok c) size value,
      omega arith,
      subst (λ (h : ℕ). internet_checksum (pre ++ c % 256 ∷ h ∷ post) n ≡ ok 0) high
          (subst (λ (k : ℕ). internet_checksum (pre ++ c % 256 ∷ c / 256 ∷ post) k ≡ ok 0)
            total_size filled),
    )

folded-ones : (s : ℕ) → folded s ≡ 65535 → folded (s + 65535) ≡ 65535
unfolding folded
folded-ones s h = ground arith

-- Where a packet with 0 in the field verifies, so does the packet with the other sum of nothing.
pub checksum_ones :
    (pre post : List ℕ) (n : ℕ)
    → AreBytes pre
    → AreBytes post
    → length pre % 2 ≡ 0
    → n ≤ 65536
    → length (pre ++ 0 ∷ 0 ∷ post) ≡ n
    → internet_checksum (pre ++ 0 ∷ 0 ∷ post) n ≡ ok 0
    → internet_checksum (pre ++ 255 ∷ 255 ∷ post) n ≡ ok 0
checksum_ones pre post n hpre hpost even small size verifies =
    let bytes = pre ++ 0 ∷ 0 ∷ post in
    let ones = pre ++ 255 ∷ 255 ∷ post in
    let s = total (words bytes) in
    let zeroed : AreBytes bytes =
      append-AreBytes pre (0 ∷ 0 ∷ post) hpre (omega arith, (omega arith, hpost)) in
    let filled : AreBytes ones =
      append-AreBytes pre (255 ∷ 255 ∷ post) hpre (omega arith, (omega arith, hpost)) in
    let value : internet_checksum bytes n ≡ ok (65535 - folded s) =
      subst (λ (k : ℕ). internet_checksum bytes k ≡ ok (65535 - folded s)) size
        (internet_checksum_whole bytes zeroed (omega (arith, size))) in
    let whole : folded s ≡ 65535 =
      omega (arith, ok-injective (sym verifies ∙ value), folded-lt s) in
    let total_size : length ones ≡ n = length-field pre post 255 255 0 0 ∙ size in
    let sum : total (words ones) ≡ s + 65535 = omega (
      arith,
      total-append pre (0 ∷ 0 ∷ post) even,
      total-append pre (255 ∷ 255 ∷ post) even,
      total-field 65535 post,
    ) in
    subst (λ (k : ℕ). internet_checksum ones k ≡ ok 0) total_size
      (internet_checksum_whole ones filled (omega (arith, total_size))
        ∙ ap ok (omega (arith, ap folded sum, folded-ones s whole)))
