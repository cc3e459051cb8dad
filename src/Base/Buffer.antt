-- ===== src/Base/Buffer.antt =====
-- Buffers that hold a text, and that texts are written over.
use Prim.Native.Nat.{ℕ, zero, suc, ◌+◌, ◌-◌, ◌≤◌, ◌<◌}
use mathlib.Core.Path.{◌≡◌, refl, sym, ap, ◌∙◌}
use mathlib.Core.Bool.{Bool, true, ◌&&◌}
use mathlib.Core.List.{List, [], ◌∷◌, ◌++◌, append_assoc}
use native.Mathlib.Omega.{arith}
use pus.Base.Tests.{◌==◌}
use pus.Base.Lists.{length, take, drop, length-append, length-drop}
use pus.Base.Program.{ok}
use pus.Base.Text.{Text, is_text, c_string, c_string-append}

-- All bytes are NUL.
unfoldable pub is_blank : List ℕ → Bool
is_blank [] = true
is_blank (c ∷ pad) = c == 0 && is_blank pad

pub drop_blank : (n : ℕ) (pad : List ℕ) → is_blank pad ≡ true → is_blank (drop n pad) ≡ true
unfolding is_blank
drop_blank zero pad h = h
drop_blank (suc n) [] h = h
drop_blank (suc n) (c ∷ pad) h = drop_blank n pad (ground arith)

zero_sub : (n : ℕ) → 0 ≡ 0 - n
zero_sub n = omega arith

sub_zero : (n : ℕ) → n ≡ n - 0
sub_zero n = omega arith

suc_sub : (m n : ℕ) → m - n ≡ suc m - suc n
suc_sub m n = omega arith

-- What stays of a text and the blank bytes behind it.
pub drop-append :
    (n : ℕ) (text pad : List ℕ) → drop n (text ++ pad) ≡ drop n text ++ drop (n - length text) pad
drop-append zero text pad = ap (λ (k : ℕ). text ++ drop k pad) (zero_sub (length text))
drop-append (suc n) [] pad = ap (λ (k : ℕ). drop k pad) (sub_zero (suc n))
drop-append (suc n) (c ∷ text) pad =
    drop-append n text pad ∙ ap (λ (k : ℕ). drop n text ++ drop k pad) (suc_sub n (length text))

pub take_all : (n : ℕ) (xs : List ℕ) → length xs ≤ n → take n xs ≡ xs
take_all zero [] h = refl
take_all zero (x ∷ xs) h = ground arith
take_all (suc n) [] h = refl
take_all (suc n) (x ∷ xs) h = ap (λ (l : List ℕ). x ∷ l) (take_all n xs (omega arith))

-- The text in a buffer after a text is written over it: a shorter one leaves the end of the text before.
unfoldable pub overlaid : Text → Text → Text
overlaid text old = text ++ drop (length text) old

pub is_text-append :
    (text rest : List ℕ) → is_text text ≡ true → is_text rest ≡ true → is_text (text ++ rest) ≡ true
unfolding is_text
is_text-append [] rest h k = k
is_text-append (c ∷ text) rest h k = ground (arith, is_text-append text rest)

pub is_text-drop : (n : ℕ) (text : List ℕ) → is_text text ≡ true → is_text (drop n text) ≡ true
unfolding is_text
is_text-drop zero text h = h
is_text-drop (suc n) [] h = h
is_text-drop (suc n) (c ∷ text) h = is_text-drop n text (ground arith)

pub overlaid-is_text :
    (text old : Text)
    → is_text old ≡ true
    → is_text text ≡ true
    → is_text (overlaid text old) ≡ true
unfolding overlaid
overlaid-is_text text old h k =
    is_text-append text (drop (length text) old) k (is_text-drop (length text) old h)

pub length-overlaid :
    (text old : Text) → length (overlaid text old) ≡ length text + (length old - length text)
unfolding overlaid
length-overlaid text old =
    omega (arith, length-append text (drop (length text) old), length-drop (length text) old)

pub blank_head :
    (pad : List ℕ) → is_blank pad ≡ true → 0 < length pad → (rest : List ℕ) × (pad ≡ 0 ∷ rest)
unfolding is_blank
blank_head [] h k = absurd (omega arith)
blank_head (c ∷ rest) h k = (rest, ground arith)

-- `memset` with zeros.
abbrev pub zeros : ℕ → List ℕ
zeros zero = []
zeros (suc n) = 0 ∷ zeros n

-- A call that writes at most `size` bytes to the front of a buffer.
unfoldable pub overwrite : ℕ → List ℕ → List ℕ → List ℕ
overwrite size bytes buff = take size bytes ++ drop (length (take size bytes)) buff

pub overwrite-overlaid :
    (size : ℕ) (text old pad : List ℕ)
    → length text < size
    → overwrite size text (old ++ pad) ≡ overlaid text old ++ drop (length text - length old) pad
unfolding overwrite overlaid
overwrite-overlaid size text old pad h =
    ap (λ (l : List ℕ). l ++ drop (length l) (old ++ pad)) (take_all size text (omega arith))
    ∙ ap (λ (l : List ℕ). text ++ l) (drop-append (length text) old pad)
    ∙ sym (append_assoc text (drop (length text) old) (drop (length text - length old) pad))

-- The buffer has the text in front, and only NULs behind it.
pub Holds : ℕ → List ℕ → Text → Type 0
Holds size buff text =
    (pad : List ℕ) × (buff ≡ text ++ pad)
    × (is_blank pad ≡ true)
    × (is_text text ≡ true)
    × (length text + length pad ≡ size)
    × (length text < size)

pub overwrite-Holds :
    (size : ℕ) (text old buff : List ℕ)
    → Holds size buff old
    → is_text text ≡ true
    → length text < size
    → Holds size (overwrite size text buff) (overlaid text old)
unfolding Holds
overwrite-Holds size text old buff (pad, is_buff, blank, is_old, total, room) t h =
    let padded = length-drop (length text - length old) pad in
    let long = length-overlaid text old in
    (
      drop (length text - length old) pad,
      ap (λ (l : List ℕ). overwrite size text l) is_buff ∙ overwrite-overlaid size text old pad h,
      drop_blank (length text - length old) pad blank,
      overlaid-is_text text old is_old t,
      omega (arith, padded, long, total),
      omega (arith, long, room, h),
    )

pub c_string-Holds :
    (size : ℕ) (buff text : List ℕ) → Holds size buff text → c_string buff ≡ ok text
unfolding Holds
c_string-Holds size buff text (pad, is_buff, blank, is_t, total, room) =
    let (rest, padded) = blank_head pad blank (omega (arith, total, room)) in
    ap c_string (is_buff ∙ ap (λ (l : List ℕ). text ++ l) padded) ∙ c_string-append text rest is_t

zeros-is_blank : (size : ℕ) → is_blank (zeros size) ≡ true
unfolding is_blank
zeros-is_blank zero = refl
zeros-is_blank (suc size) = zeros-is_blank size

pub length-zeros : (size : ℕ) → length (zeros size) ≡ size
length-zeros zero = refl
length-zeros (suc size) = ap suc (length-zeros size)

-- A buffer of zeros holds the empty text.
pub zeros-Holds : (size : ℕ) → 0 < size → Holds size (zeros size) []
unfolding Holds is_text
zeros-Holds size room =
    (zeros size, refl, zeros-is_blank size, refl, omega (arith, length-zeros size), room)
