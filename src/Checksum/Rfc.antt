-- ===== src/Checksum/Rfc.antt =====
-- `internet_checksum` against the checksum as RFC 1071 defines it: the complement of the sum of
-- the words, each carry added back at once, where the code defers the carries.
use pus.Base.{ℕ, zero, suc, ◌+◌, ◌-◌, ◌≤◌, ◌<◌, ◌≡◌, refl, List, [], ◌∷◌}
use pus.Base.{ltb, if◌then◌else◌, arith, length, take}
use pus.Base.Program.{ok}
use pus.Checksum.{internet_checksum, complement}
use pus.Checksum.Sum.{words, total, folded, AreBytes, sum_words-total, fold_carries-folded}

-- One's complement addition of 16-bit words.
abbrev pub end_around : ℕ → ℕ → ℕ
end_around a b = if ltb (a + b) 65536 then a + b else a + b - 65535

pub ones_sum : ℕ → List ℕ → ℕ
ones_sum acc [] = acc
ones_sum acc (w ∷ ws) = ones_sum (end_around acc w) ws

abbrev pub AreWords : List ℕ → Type 0
AreWords [] = Unit
AreWords (w ∷ ws) = (w < 65536) × AreWords ws

words-AreWords : (bytes : List ℕ) → AreBytes bytes → AreWords (words bytes)
unfolding words
words-AreWords [] h = tt
words-AreWords (a ∷ []) h = omega arith
words-AreWords (a ∷ b ∷ bytes) h = (omega arith, words-AreWords bytes h.1.1)

end_around-folded : (s w : ℕ) → w < 65536 → end_around (folded s) w ≡ folded (s + w)
unfolding folded
end_around-folded s w h = ground arith

ones_sum-folded :
    (s : ℕ) (ws : List ℕ) → AreWords ws → ones_sum (folded s) ws ≡ folded (s + total ws)
unfolding ones_sum total
ones_sum-folded s [] h = ground arith
ones_sum-folded s (w ∷ ws) h =
    ground (arith, end_around-folded s w h.0, ones_sum-folded (s + w) ws h.1)

pub take-AreBytes : (n : ℕ) (bytes : List ℕ) → AreBytes bytes → AreBytes (take n bytes)
take-AreBytes zero bytes h = tt
take-AreBytes (suc n) [] h = tt
take-AreBytes (suc n) (b ∷ bytes) h = (h.0, take-AreBytes n bytes h.1)

pub folded-lt : (s : ℕ) → folded s < 65536
unfolding folded
folded-lt s = ground arith

pub complement-folded : (s : ℕ) → complement (folded s) ≡ 65535 - folded s
unfolding complement
complement-folded s = omega (arith, folded-lt s)

-- The result in closed form, for any part of a buffer up to 65536 bytes long.
pub internet_checksum_lem :
    (addr : List ℕ) (count : ℕ)
    → AreBytes addr
    → count ≤ length addr
    → count ≤ 65536
    → internet_checksum addr count ≡ ok (65535 - folded (total (words (take count addr))))
unfolding internet_checksum
internet_checksum_lem addr count bytes within small =
    let s = total (words (take count addr)) in
    ground (
      arith,
      sum_words-total count addr 0 bytes within (omega arith),
      fold_carries-folded s s,
      complement-folded s,
    )

folded-zero : folded 0 ≡ 0
unfolding folded
folded-zero = refl

-- For up to 65536 bytes inside the buffer the code neither overflows `sum` nor reads outside, and
-- returns the complement of the one's complement sum of the words with an end-around carry at
-- each addition.
pub internet_checksum-rfc :
    (addr : List ℕ) (count : ℕ)
    → AreBytes addr
    → count ≤ length addr
    → count ≤ 65536
    → internet_checksum addr count ≡ ok (65535 - ones_sum 0 (words (take count addr)))
internet_checksum-rfc addr count bytes within small = ground (
  arith,
  internet_checksum_lem addr count bytes within small,
  ones_sum-folded 0 (words (take count addr)) (words-AreWords _ (take-AreBytes count addr bytes)),
  folded-zero,
)
