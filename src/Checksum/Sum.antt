-- ===== src/Checksum/Sum.antt =====
-- The two loops of `internet_checksum`: what the first adds up, and where the second stops.
use pus.Base.{ℕ, zero, suc, ◌+◌, ◌-◌, ◌*◌, ◌/◌, ◌%◌, ◌^◌, ◌≤◌, ◌<◌, ◌≡◌, List, [], ◌∷◌, All}
use pus.Base.{◌==◌, if◌then◌else◌, arith, length, take}
use pus.Base.Program.{ok}
use pus.Checksum.{add_int, sum_words, fold_carries}

-- The bytes of a buffer as 16-bit words, the odd byte behind them as a word of its own.
unfoldable pub words : List ℕ → List ℕ
words [] = []
words (a ∷ []) = a ∷ []
words (a ∷ b ∷ bytes) = (a + 256 * b) ∷ words bytes

unfoldable pub total : List ℕ → ℕ
total [] = 0
total (w ∷ ws) = w + total ws

abbrev pub AreBytes : List ℕ → Type 0
AreBytes bytes = All (λ b. b < 256) bytes

-- The value of `sum` after the carries are folded in: 1 to 65535, and 0 only for 0.
unfoldable pub folded : ℕ → ℕ
folded s = if s == 0 then 0 else (s - 1) % 65535 + 1

-- Adding does not overflow an `int` for up to 65536 bytes.
pub sum_words-total :
    (count : ℕ) (addr : List ℕ) (sum : ℕ)
    → AreBytes addr
    → count ≤ length addr
    → sum + 65535 * ((count + 1) / 2) < 2 ^ 31
    → sum_words count addr sum ≡ ok (sum + total (words (take count addr)))
unfolding sum_words add_int words total
sum_words-total zero addr sum bytes within small = ground arith
sum_words-total (suc zero) [] sum bytes within small = absurd (omega arith)
sum_words-total (suc zero) (a ∷ addr) sum bytes within small = ground arith
sum_words-total (suc (suc count)) [] sum bytes within small = absurd (omega arith)
sum_words-total (suc (suc count)) (a ∷ []) sum bytes within small = absurd (omega arith)
sum_words-total (suc (suc count)) (a ∷ b ∷ addr) sum bytes within small =
    ground (
      arith,
      sum_words-total count addr (sum + (a + 256 * b)) bytes.1.1 (omega arith) (omega arith),
    )

folded-step : (s : ℕ) → s / 2 ^ 16 ≡ 0 → folded s ≡ s
unfolding folded
folded-step s h = ground arith

folded-fold : (s : ℕ) → 65536 ≤ s → folded (s % 2 ^ 16 + s / 2 ^ 16) ≡ folded s
unfolding folded
folded-fold s h = ground arith

-- The second loop ends by its test within `sum` rounds, at the folded value.
pub fold_carries-folded : (fuel s : ℕ) → s ≤ fuel → fold_carries fuel s ≡ folded s
unfolding fold_carries
fold_carries-folded zero s h = omega (arith, folded-step s (omega arith))
fold_carries-folded (suc fuel) s h =
    ground (arith, folded-step s, folded-fold s, fold_carries-folded fuel (s % 2 ^ 16 + s / 2 ^ 16))
