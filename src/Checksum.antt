-- ===== src/Checksum.antt =====
-- `internet_checksum` of Lab07/libqueue.c (Lab03/zad4/checksum.h and Lab03/zad5/checksum.h hold
-- the same function). Memory from `addr` on is a list of bytes; words are loaded as on the
-- little-endian machines that the programs are built for.
use pus.Base.{ℕ, zero, suc, ◌+◌, ◌-◌, ◌*◌, ◌/◌, ◌%◌, ◌^◌, List, [], ◌∷◌, true, false}
use pus.Base.{ltb, ◌==◌, if◌then◌else◌}
use pus.Base.Program.{Result, ok, fails, bind, int_overflow, out_of_bounds}
pub mod Sum
pub mod Rfc
pub mod Verify
pub mod Field

-- `sum += w` on an `int` that is not negative
add_int : ℕ → ℕ → Result ℕ
add_int a b = if ltb (a + b) (2 ^ 31) then ok (a + b) else fails int_overflow

-- The first loop and the odd byte behind it, with `count` bytes left from `addr`.
pub sum_words : ℕ → List ℕ → ℕ → Result ℕ
sum_words zero addr sum = ok sum
sum_words (suc zero) [] sum = fails out_of_bounds
sum_words (suc zero) (a ∷ addr) sum = add_int sum a
sum_words (suc (suc count)) [] sum = fails out_of_bounds
sum_words (suc (suc count)) (a ∷ []) sum = fails out_of_bounds
sum_words (suc (suc count)) (a ∷ b ∷ addr) sum =
    bind (add_int sum (a + 256 * b)) (λ sum'. sum_words count addr sum')

-- `while (sum >> 16) sum = (sum & 0xffff) + (sum >> 16)`
pub fold_carries : ℕ → ℕ → ℕ
fold_carries zero sum = sum
fold_carries (suc fuel) sum = elim (sum / 2 ^ 16 == 0) [
  | true ↦ sum
  | false ↦ fold_carries fuel (sum % 2 ^ 16 + sum / 2 ^ 16)
]

-- `(unsigned short) ~sum`
pub complement : ℕ → ℕ
complement sum = 65535 - sum % 2 ^ 16

-- `count` is the bit pattern of an `int`: a negative one passes neither test, as 0 does.
-- Each round of the second loop lowers `sum`, so `sum` rounds are enough.
unfoldable pub internet_checksum : List ℕ → ℕ → Result ℕ
unfolding sum_words add_int fold_carries complement
internet_checksum addr count =
    bind (sum_words (if ltb count (2 ^ 31) then count else 0) addr 0)
      (λ sum. ok (complement (fold_carries sum sum)))
