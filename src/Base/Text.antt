-- ===== src/Base/Text.antt =====
-- C strings as lists of bytes, without the terminating NUL, and the functions of the standard
-- library on them.
use Prim.Native.Nat.{ℕ, zero, suc, ◌≤◌, ◌/◌, ◌+◌, ◌-◌, ◌*◌, ◌^◌, ◌%◌, min}
use mathlib.Core.Option.{Option, none, some}
use Prim.Native.String.{String}
use Prim.Native.Char.{code}
use mathlib.Core.Path.{◌≡◌, refl, ap₂}
use mathlib.Core.Bool.{not, Bool, true, false, ◌&&◌, ◌||◌}
use mathlib.Core.List.{List, [], ◌∷◌, ◌++◌}
use native.Mathlib.Omega.{arith}
use pus.Base.Tests.{◌==◌, ltb, leb, if◌then◌else◌}
use pus.Base.Int.{ℤ, pos, negsuc}
use pus.Base.Lists.{length}
use pus.Base.Program.{Result, ok, fails, bind, int_overflow, out_of_bounds}

abbrev pub Text : Type 0
Text = List ℕ

abbrev pub codes : String → Text
codes String.[] = []
codes (String.◌∷◌ c s) = code c ∷ codes s

-- `strcmp(s, t) == 0`
unfoldable pub str_eq : Text → Text → Bool
str_eq [] [] = true
str_eq [] (b ∷ t) = false
str_eq (a ∷ s) [] = false
str_eq (a ∷ s) (b ∷ t) = a == b && str_eq s t

pub str_eq_refl : (s : Text) → str_eq s s ≡ true
unfolding str_eq
str_eq_refl [] = refl
str_eq_refl (a ∷ s) = ground (arith, str_eq_refl s)

pub str_eq→eq : (s t : Text) → str_eq s t ≡ true → s ≡ t
unfolding str_eq
str_eq→eq [] [] h = refl
str_eq→eq [] (b ∷ t) h = cc
str_eq→eq (a ∷ s) [] h = cc
str_eq→eq (a ∷ s) (b ∷ t) h = ap₂ ◌∷◌ (ground arith) (str_eq→eq s t (ground arith))

-- `*s == '-'`
abbrev pub has_dash : Text → Bool
has_dash [] = false
has_dash (c ∷ s) = c == b'-'

-- `isspace` and `isdigit` in the "C" locale
abbrev pub isspace : ℕ → Bool
isspace c = c == 32 || (leb 9 c && leb c 13)

abbrev pub isdigit : ℕ → Bool
isdigit c = leb b'0' c && leb c b'9'

-- The value of the digits in front.
digits_value : ℕ → Text → ℕ
digits_value acc [] = acc
digits_value acc (c ∷ s) = elim (isdigit c) [
  | true ↦ digits_value (acc * 10 + (c - b'0')) s
  | false ↦ acc
]

positive : ℕ → Result ℤ
positive n = if ltb n (2 ^ 31) then ok (pos n) else fails int_overflow

negative : ℕ → Result ℤ
negative n =
    if n == 0
    then ok (pos 0)
    else if leb n (2 ^ 31)
    then ok (negsuc (n - 1))
    else fails int_overflow

-- `atoi`, behind the white space. A value that does not fit an `int` is undefined behaviour.
signed : Text → Result ℤ
signed [] = ok (pos 0)
signed (c ∷ s) =
    if c == b'-'
    then negative (digits_value 0 s)
    else if c == b'+'
    then positive (digits_value 0 s)
    else positive (digits_value 0 (c ∷ s))

unfoldable pub atoi : Text → Result ℤ
unfolding signed negative positive digits_value
atoi [] = ok (pos 0)
atoi (c ∷ s) = elim (isspace c) [ true ↦ atoi s | false ↦ signed (c ∷ s) ]

-- `strtol(s, NULL, 10)` as an `unsigned long`, with a `long` of 64 bits; a value that does not fit
-- is the nearest that does.
signed_long : Text → ℕ
signed_long [] = 0
signed_long (c ∷ s) =
    if c == b'-'
    then (2 ^ 64 - min (digits_value 0 s) (2 ^ 63)) % 2 ^ 64
    else if c == b'+'
    then min (digits_value 0 s) (2 ^ 63 - 1)
    else min (digits_value 0 (c ∷ s)) (2 ^ 63 - 1)

unfoldable pub strtol : Text → ℕ
unfolding signed_long digits_value
strtol [] = 0
strtol (c ∷ s) = elim (isspace c) [ true ↦ strtol s | false ↦ signed_long (c ∷ s) ]

-- `strchr`, or `strstr` with one character: the text in front of `b`, and the text behind it.
unfoldable pub split_at : ℕ → Text → Option (Text × Text)
split_at b [] = none
split_at b (c ∷ s) = elim (c == b) [
  | true ↦ some ([], s)
  | false ↦ elim (split_at b s) [ none ↦ none | some (s1, s2) ↦ some (c ∷ s1, s2) ]
]

-- `sprintf` of `%d` for a number that is not negative: an `int` has ten digits at most.
decimal_digits : ℕ → ℕ → Text → Text
decimal_digits zero n text = (b'0' + n % 10) ∷ text
decimal_digits (suc fuel) n text = elim (ltb n 10) [
  | true ↦ (b'0' + n % 10) ∷ text
  | false ↦ decimal_digits fuel (n / 10) ((b'0' + n % 10) ∷ text)
]

unfoldable pub decimal : ℕ → Text
unfolding decimal_digits
decimal n = decimal_digits 10 n []

decimal_digits-length :
    (fuel n : ℕ) (text : Text) → length (decimal_digits fuel n text) ≤ fuel + 1 + length text
unfolding decimal_digits
decimal_digits-length zero n text = omega arith
decimal_digits-length (suc fuel) n text =
    ground (arith, decimal_digits-length fuel (n / 10) ((b'0' + n % 10) ∷ text))

pub decimal-length : (n : ℕ) → length (decimal n) ≤ 11
unfolding decimal
decimal-length n = decimal_digits-length 10 n []

-- What `%s` and `strlen` read: the bytes in front of the first NUL of a buffer.
unfoldable pub c_string : List ℕ → Result Text
c_string [] = fails out_of_bounds
c_string (c ∷ buffer) = if c == 0 then ok [] else bind (c_string buffer) (λ text. ok (c ∷ text))

-- No byte is NUL.
unfoldable pub is_text : Text → Bool
is_text [] = true
is_text (c ∷ text) = not (c == 0) && is_text text

pub c_string-append :
    (text rest : List ℕ) → is_text text ≡ true → c_string (text ++ 0 ∷ rest) ≡ ok text
unfolding c_string is_text
c_string-append [] rest h = refl
c_string-append (c ∷ text) rest h = ground (arith, c_string-append text rest)

pub c_string-full : (text : List ℕ) → is_text text ≡ true → c_string text ≡ fails out_of_bounds
unfolding c_string is_text
c_string-full [] h = refl
c_string-full (c ∷ text) h = ground (arith, c_string-full text)

-- `strstr(text, word) != NULL`
is_prefix : Text → Text → Bool
is_prefix [] text = true
is_prefix (a ∷ word) [] = false
is_prefix (a ∷ word) (b ∷ text) = a == b && is_prefix word text

unfoldable pub contains : Text → Text → Bool
unfolding is_prefix
contains [] word = is_prefix word []
contains (c ∷ text) word = is_prefix word (c ∷ text) || contains text word
