-- ===== src/Palindrome.antt =====
-- `is_palindrome` of Lab01/zad3/libpalindrome.c. The data is a list of bytes. The state holds the
-- number of live blocks of memory and the characters printed, the latest first. `malloc` may fail.
use pus.Base.{
  ℕ, zero, suc, ◌+◌, ◌-◌, Bool, true, false, ◌&&◌, ◌||◌, Option, none, some, List, [], ◌∷◌, ◌++◌,
}
use pus.Base.{ltb, leb, ◌==◌, if◌then◌else◌, length, get_elem?}
use pus.Base.Int.{ℤ, pos, negsuc}
use pus.Base.Program.{
  Prog, Result, ok, fails, bind, lift, ◌>>=◌, ◌>>◌, pure, exit, exit_failure, out_of_bounds,
  uninitialised, returns,
}
pub mod Laws
pub mod Server
pub mod Client
pub mod Digits

pub record World : Type 0 where
  pub live : ℕ
  pub printed : List ℕ

-- `isdigit` and `isalpha` of <ctype.h> in the "C" locale
unfoldable pub isdigit : ℕ → Bool
isdigit c = leb b'0' c && leb c b'9'

unfoldable pub isalpha : ℕ → Bool
isalpha c = (leb b'A' c && leb c b'Z') || (leb b'a' c && leb c b'z')

free : Prog World (Unit {0})
free w = returns tt (record w { live = w.live - 1 })

put_char : ℕ → Prog World (Unit {0})
put_char c w = returns tt (record w { printed = c ∷ w.printed })

-- `tmp` has room for `size` bytes, of which the first `length tmp` are written.
append_char : ℕ → List ℕ → ℕ → Result (List ℕ)
append_char size tmp c = if ltb (length tmp) size then ok (tmp ++ c ∷ []) else fails out_of_bounds

-- The loop over the data, `n` bytes of which are left. `none` stands for the return at a letter.
copy_digits : ℕ → ℕ → List ℕ → List ℕ → Prog World (Option (List ℕ))
unfolding append_char put_char
copy_digits size zero buff tmp = pure (some tmp)
copy_digits size (suc n) [] tmp = lift (fails out_of_bounds)
copy_digits size (suc n) (c ∷ buff) tmp =
    if isdigit c
    then (do tmp' ← lift (append_char size tmp c); put_char c; copy_digits size n buff tmp')
    else if isalpha c
    then pure none
    else copy_digits size n buff tmp

-- The number of zeros in front.
leading_zeros : List ℕ → ℕ
leading_zeros [] = 0
leading_zeros (c ∷ tmp) = if c == b'0' then suc (leading_zeros tmp) else 0

read : ℕ → List ℕ → ℕ → Result ℕ
read size tmp i = elim (get_elem? tmp i) [
  | some c ↦ ok c
  | none ↦ if ltb i size then fails uninitialised else fails out_of_bounds
]

-- The `do` loop; `tail` points to the byte at `tail_end - 1`, at first in front of the block if
-- there are no digits.
pub compare_ends : ℕ → List ℕ → ℕ → ℕ → Result ℤ
unfolding read
compare_ends size tmp head zero = fails out_of_bounds
compare_ends size tmp head (suc tail) = bind (read size tmp head) λ a.
    bind (read size tmp tail) λ b. elim (a == b) [
      | false ↦ ok (pos 0)
      | true ↦ elim (ltb (head + 1) tail) [
        | true ↦ compare_ends size tmp (head + 1) tail
        | false ↦ ok (pos 1)
      ]
    ]

-- What follows the copying.
finish : ℕ → Option (List ℕ) → Prog World ℤ
unfolding free compare_ends leading_zeros
finish size none = do free; pure (negsuc 0)
finish size (some tmp) = do
  result ← lift (compare_ends size tmp (leading_zeros tmp) (length tmp))
  free
  pure result

malloc : Bool → Prog World (Unit {0})
malloc false w = exit exit_failure w
malloc true w = returns tt (record w { live = w.live + 1 })

unfoldable pub is_palindrome : Bool → List ℕ → ℕ → Prog World ℤ
unfolding malloc copy_digits finish
is_palindrome has_memory buff buff_len = do
  malloc has_memory
  copied ← copy_digits buff_len buff_len buff []
  finish buff_len copied
