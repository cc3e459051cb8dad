-- ===== src/Base/Strings.antt =====
-- Functions of the C library that scan a text, or write one into a buffer.
use Prim.Native.Nat.{ℕ, zero, suc, ◌-◌, ◌≤◌, ◌<◌}
use mathlib.Core.Path.{◌≡◌, refl, ap, sym, ◌∙◌}
use mathlib.Core.Bool.{Bool, true, false, not, ◌&&◌, ◌||◌}
use mathlib.Core.Logic.{inl, inr}
use mathlib.Core.Option.{Option, none, some}
use mathlib.Core.List.{List, [], ◌∷◌, ◌++◌, append_assoc}
use native.Mathlib.Omega.{arith}
use pus.Base.Tests.{◌==◌, ltb, if◌then◌else◌, Bool-cases}
use pus.Base.Lists.{length, drop, length-append}
use pus.Base.Int.{ℤ}
use pus.Base.Text.{Text, isspace, isdigit, atoi, is_text}
use pus.Base.Program.{Result, ok, fails, bind, uninitialised, out_of_bounds}
use pus.Base.Buffer.{zeros, length-zeros}

unfoldable pub skip_spaces : Text → Text
skip_spaces [] = []
skip_spaces (c ∷ text) = elim (isspace c) [ true ↦ skip_spaces text | false ↦ c ∷ text ]

-- The characters in front of the first white space, and the rest.
unfoldable pub word : Text → Text × Text
word [] = ([], [])
word (c ∷ text) = elim (isspace c) [
  | true ↦ ([], c ∷ text)
  | false ↦ (c ∷ (word text).0, (word text).1)
]

-- `%s` of `sscanf`, which matches at least one character.
unfoldable pub scan_word : Text → Option (Text × Text)
unfolding skip_spaces word
scan_word text = elim (skip_spaces text) [ [] ↦ none | c ∷ rest ↦ some (word (c ∷ rest)) ]

starts_digit : Text → Bool
starts_digit [] = false
starts_digit (c ∷ text) = isdigit c

starts_number : Text → Bool
unfolding starts_digit
starts_number [] = false
starts_number (c ∷ text) = if c == b'-' || c == b'+' then starts_digit text else isdigit c

-- `sscanf(text, "%d", &n)` and the value of `n`, which is not written where no number matches.
unfoldable pub scan_int : Text → Result ℤ
unfolding skip_spaces starts_number
scan_int text = if starts_number (skip_spaces text) then atoi text else fails uninitialised

-- Writes to the front of a buffer.
unfoldable pub put_bytes : List ℕ → List ℕ → Result (List ℕ)
put_bytes [] buff = ok buff
put_bytes (b ∷ bytes) [] = fails out_of_bounds
put_bytes (b ∷ bytes) (c ∷ buff) = bind (put_bytes bytes buff) λ rest. ok (b ∷ rest)

unfoldable pub strcpy : Text → List ℕ → Result (List ℕ)
unfolding put_bytes
strcpy text buff = put_bytes (text ++ 0 ∷ []) buff

unfoldable pub strcat : Text → List ℕ → Result (List ℕ)
unfolding strcpy
strcat text [] = fails out_of_bounds
strcat text (c ∷ buff) = elim (c == 0) [
  | true ↦ strcpy text (c ∷ buff)
  | false ↦ bind (strcat text buff) λ rest. ok (c ∷ rest)
]

-- No character is white space.
unfoldable pub is_word : Text → Bool
is_word [] = true
is_word (c ∷ text) = not (isspace c) && is_word text

word-append :
    (text rest : Text) (c : ℕ)
    → is_word text ≡ true
    → isspace c ≡ true
    → word (text ++ c ∷ rest) ≡ (text, c ∷ rest)
unfolding word is_word
word-append [] rest c h k = ground arith
word-append (d ∷ text) rest c h k = ground (arith, word-append text rest c)

word_all : (text : Text) → is_word text ≡ true → word text ≡ (text, [])
unfolding word is_word
word_all [] h = refl
word_all (c ∷ text) h = ground (arith, word_all text)

-- A word is scanned up to the end, or to the white space behind it.
pub scan_word_all :
    (d : ℕ) (text : Text) → is_word (d ∷ text) ≡ true → scan_word (d ∷ text) ≡ some (d ∷ text, [])
unfolding scan_word skip_spaces is_word
scan_word_all d text h = ground (arith, word_all (d ∷ text))

pub scan_word-append :
    (d : ℕ) (text rest : Text) (c : ℕ)
    → is_word (d ∷ text) ≡ true
    → isspace c ≡ true
    → scan_word (d ∷ text ++ c ∷ rest) ≡ some (d ∷ text, c ∷ rest)
unfolding scan_word skip_spaces is_word
scan_word-append d text rest c h k = ground (arith, word-append (d ∷ text) rest c)

pub put_bytes_fits :
    (bytes buff : List ℕ)
    → length bytes ≤ length buff
    → put_bytes bytes buff ≡ ok (bytes ++ drop (length bytes) buff)
unfolding put_bytes
put_bytes_fits [] buff h = refl
put_bytes_fits (b ∷ bytes) [] h = absurd (omega arith)
put_bytes_fits (b ∷ bytes) (c ∷ buff) h = ground (arith, put_bytes_fits bytes buff (omega arith))

put_bytes_outside :
    (bytes buff : List ℕ) → length buff < length bytes → put_bytes bytes buff ≡ fails out_of_bounds
unfolding put_bytes
put_bytes_outside [] buff h = absurd (omega arith)
put_bytes_outside (b ∷ bytes) [] h = refl
put_bytes_outside (b ∷ bytes) (c ∷ buff) h =
    ground (arith, put_bytes_outside bytes buff (omega arith))

-- A buffer of zeros to which a text was written, or what becomes of a text that does not fit.
unfoldable pub filled : ℕ → Text → Result (List ℕ)
filled size text =
    if ltb (length text) size then ok (text ++ zeros (size - length text)) else fails out_of_bounds

pub drop-zeros : (n k : ℕ) → drop n (zeros k) ≡ zeros (k - n)
drop-zeros zero k = ap zeros (same k)
  where
    same : (k : ℕ) → k ≡ k - 0
    same k = omega arith
drop-zeros (suc n) zero = ap zeros (none_left n)
  where
    none_left : (n : ℕ) → 0 ≡ 0 - suc n
    none_left n = omega arith
drop-zeros (suc n) (suc k) = drop-zeros n k ∙ ap zeros (less n k)
  where
    less : (n k : ℕ) → k - n ≡ suc k - suc n
    less n k = omega arith

-- Results of buffers, in sequence.
pub bind_ok : (r : Result (List ℕ)) → bind r (λ l. ok l) ≡ r
bind_ok (ok l) = refl
bind_ok (fails e) = refl

behind : Text → Result (List ℕ) → Result (List ℕ)
behind text r = bind r λ l. ok (text ++ l)

behind-bind :
    (c : ℕ) (text : Text) (r : Result (List ℕ))
    → bind (behind text r) (λ l. ok (c ∷ l)) ≡ behind (c ∷ text) r
unfolding behind
behind-bind c text (ok l) = refl
behind-bind c text (fails e) = refl

strcat-zeros :
    (text added : Text) (k : ℕ)
    → is_text text ≡ true
    → strcat added (text ++ zeros (suc k))
      ≡ behind text (put_bytes (added ++ 0 ∷ []) (zeros (suc k)))
unfolding strcat strcpy behind is_text
strcat-zeros [] added k h = sym (bind_ok (put_bytes (added ++ 0 ∷ []) (zeros (suc k))))
strcat-zeros (c ∷ text) added k h = ground (
  arith,
  strcat-zeros text added k (ground arith),
  behind-bind c text (put_bytes (added ++ 0 ∷ []) (zeros (suc k))),
)

put_terminated :
    (added : Text) (k : ℕ)
    → put_bytes (added ++ 0 ∷ []) (zeros (suc k)) ≡ (
        if ltb (length added) (suc k)
        then ok (added ++ zeros (suc k - length added))
        else fails out_of_bounds)
put_terminated added k =
    let long = length-append added (0 ∷ []) in
    let total = length-zeros (suc k) in
    let kept = drop-zeros (length (added ++ 0 ∷ [])) (suc k) in
    elim (Bool-cases (ltb (length added) (suc k))) [
      | inl fits ↦
          put_bytes_fits (added ++ 0 ∷ []) (zeros (suc k)) (ground (arith, long, total))
          ∙ ap ok (
              append_assoc added (0 ∷ []) (drop (length (added ++ 0 ∷ [])) (zeros (suc k)))
              ∙ ap (λ (l : List ℕ). added ++ 0 ∷ l) kept
              ∙ ap (λ (n : ℕ). added ++ zeros n) {x = suc (suc k - length (added ++ 0 ∷ []))}
                  {y = suc k - length added} (ground (arith, long)))
          ∙ ground arith
      | inr long_ ↦
          put_bytes_outside (added ++ 0 ∷ []) (zeros (suc k)) (ground (arith, long, total))
          ∙ ground arith
    ]

behind-filled :
    (size k : ℕ) (text added : Text)
    → size - length text ≡ suc k
    → behind text (
        if ltb (length added) (suc k)
        then ok (added ++ zeros (suc k - length added))
        else fails out_of_bounds)
      ≡ filled size (text ++ added)
unfolding filled behind
behind-filled size k text added room =
    let long = length-append text added in
    elim (Bool-cases (ltb (length added) (suc k))) [
      | inl fits ↦
          let fits_both : ltb (length (text ++ added)) size ≡ true = ground (arith, long) in
          rw fits (
            rw fits_both (
              ap ok (
                sym (append_assoc text added (zeros (suc k - length added)))
                ∙ ap (λ (n : ℕ). (text ++ added) ++ zeros n) {x = suc k - length added}
                    {y = size - length (text ++ added)} (ground (arith, long)))))
      | inr not_ ↦
          let not_both : ltb (length (text ++ added)) size ≡ false = ground (arith, long) in
          rw not_ (rw not_both refl)
    ]

-- `strcat` to a text in a buffer of zeros.
pub filled-strcat :
    (size : ℕ) (text added : Text)
    → is_text text ≡ true
    → bind (filled size text) (strcat added) ≡ filled size (text ++ added)
unfolding filled behind
filled-strcat size text added h =
    let long = length-append text added in
    elim (Bool-cases (ltb (length text) size)) [
      | inl fits ↦
          let k = size - length text - 1 in
          let room : size - length text ≡ suc k = ground arith in
          let step =
            ap (λ (n : ℕ). strcat added (text ++ zeros n)) room
            ∙ strcat-zeros text added k h
            ∙ ap (behind text) (put_terminated added k) in
          rw fits (step ∙ behind-filled size k text added room)
      | inr not_ ↦ ground (arith, long)
    ]

-- `strcpy` into a buffer of zeros.
pub filled-strcpy : (k : ℕ) (text : Text) → strcpy text (zeros (suc k)) ≡ filled (suc k) text
unfolding filled strcpy
filled-strcpy k text = put_terminated text k
