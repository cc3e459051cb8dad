-- ===== src/Palindrome/Digits.antt =====
-- The copying of the digits in `is_palindrome` of Lab01/zad3/libpalindrome.c, and the whole call.
use mathlib.Core.List.{append_assoc, append-nil, reverse_aux}
use pus.Base.{ℕ, zero, suc, ◌+◌, ◌-◌, ◌≤◌, ◌<◌, ◌≡◌, inl, inr, refl, ap, ap₂, sym, ◌∙◌}
use pus.Base.{Bool, true, false, ◌||◌, none, some, List, [], ◌∷◌, ◌++◌, arith}
use pus.Base.{ltb, ◌==◌, if◌then◌else◌, length, length-append, get_elem?-none, Bool-cases}
use pus.Base.Int.{ℤ, negsuc}
use pus.Base.Program.{ok, fails, returns, faults, Fault, out_of_bounds, uninitialised}
use pus.Palindrome.{
  World, isdigit, isalpha, compare_ends, copy_digits, leading_zeros, is_palindrome,
}
use pus.Palindrome.Laws.{Answers, compare_ends-Answers}

-- The digits of the data, in order.
unfoldable pub digits : List ℕ → List ℕ
digits [] = []
digits (c ∷ buff) = if isdigit c then c ∷ digits buff else digits buff

-- A letter stands somewhere in the data.
unfoldable pub has_letter : List ℕ → Bool
has_letter [] = false
has_letter (c ∷ buff) = isalpha c || has_letter buff

-- The digits from the first that is not 0 on.
unfoldable pub significant : List ℕ → List ℕ
significant [] = []
significant (c ∷ tmp) = if c == b'0' then significant tmp else c ∷ tmp

-- The zeros that are left out.
zeros : List ℕ → List ℕ
zeros [] = []
zeros (c ∷ tmp) = if c == b'0' then c ∷ zeros tmp else []

zeros-append-significant : (tmp : List ℕ) → zeros tmp ++ significant tmp ≡ tmp
unfolding zeros significant
zeros-append-significant [] = refl
zeros-append-significant (c ∷ tmp) = ground (arith, zeros-append-significant tmp)

length-zeros : (tmp : List ℕ) → length (zeros tmp) ≡ leading_zeros tmp
unfolding zeros leading_zeros
length-zeros [] = refl
length-zeros (c ∷ tmp) = ground (arith, length-zeros tmp)

digit_is_no_letter : (c : ℕ) → isdigit c ≡ true → isalpha c ≡ false
unfolding isdigit isalpha
digit_is_no_letter c h = ground arith

-- One round of the loop: at a digit, at a letter, and at any other character.
copy_digits_digit :
    (size n c : ℕ) (buff tmp : List ℕ) (w : World)
    → isdigit c ≡ true
    → length tmp < size
    → copy_digits size (suc n) (c ∷ buff) tmp w
      ≡ copy_digits size n buff (tmp ++ c ∷ []) (record w { printed = c ∷ w.printed })
unfolding copy_digits
copy_digits_digit size n c buff tmp w digit room = rw digit (ground arith)

copy_digits_letter :
    (size n c : ℕ) (buff tmp : List ℕ) (w : World)
    → isalpha c ≡ true
    → copy_digits size (suc n) (c ∷ buff) tmp w ≡ returns none w
unfolding copy_digits
copy_digits_letter size n c buff tmp w letter = elim (Bool-cases (isdigit c)) [
  | inl digit ↦ cc (digit_is_no_letter c digit)
  | inr other ↦ rw (other, letter)
]

copy_digits_other :
    (size n c : ℕ) (buff tmp : List ℕ) (w : World)
    → isdigit c ≡ false
    → isalpha c ≡ false
    → copy_digits size (suc n) (c ∷ buff) tmp w ≡ copy_digits size n buff tmp w
unfolding copy_digits
copy_digits_other size n c buff tmp w p q = rw (p, q)

copy_digits-digits :
    (size n : ℕ) (buff tmp : List ℕ) (w : World)
    → n ≡ length buff
    → length tmp + n ≤ size
    → has_letter buff ≡ false
    → copy_digits size n buff tmp w
      ≡ returns
          (some (tmp ++ digits buff))
          (record w { printed = reverse_aux (digits buff) w.printed })
unfolding copy_digits digits has_letter
copy_digits-digits size zero [] tmp w e room none_ = ground (arith, append-nil tmp)
copy_digits-digits size zero (c ∷ buff) tmp w e room none_ = absurd (omega arith)
copy_digits-digits size (suc n) [] tmp w e room none_ = absurd (omega arith)
copy_digits-digits size (suc n) (c ∷ buff) tmp w e room none_ = elim (Bool-cases (isdigit c)) [
  | inl digit ↦ ground (
    arith,
    copy_digits_digit size n c buff tmp w digit,
    copy_digits-digits size n buff (tmp ++ c ∷ []) (record w { printed = c ∷ w.printed }),
    length-append tmp (c ∷ []),
    append_assoc tmp (c ∷ []) (digits buff),
  )
  | inr other ↦
      ground
        (arith, copy_digits_other size n c buff tmp w other, copy_digits-digits size n buff tmp w)
]

-- At a letter the loop gives up, with no block of memory gained or lost.
copy_digits-has_letter :
    (size n : ℕ) (buff tmp : List ℕ) (w : World)
    → n ≡ length buff
    → length tmp + n ≤ size
    → has_letter buff ≡ true
    → (w' : World) × (copy_digits size n buff tmp w ≡ returns none w') × (w'.live ≡ w.live)
unfolding has_letter
copy_digits-has_letter size n [] tmp w e room found = cc
copy_digits-has_letter size zero (c ∷ buff) tmp w e room found = absurd (omega arith)
copy_digits-has_letter size (suc n) (c ∷ buff) tmp w e room found = elim (Bool-cases (isalpha c)) [
  | inl letter ↦ (w, copy_digits_letter size n c buff tmp w letter, refl)
  | inr no_letter ↦
      let later : has_letter buff ≡ true = ground arith in
      elim (Bool-cases (isdigit c)) [
        | inl digit ↦
            let w1 : World = record w { printed = c ∷ w.printed } in
            let (w', q, l) =
              copy_digits-has_letter size n buff (tmp ++ c ∷ []) w1 (omega arith)
                (omega (arith, length-append tmp (c ∷ []))) later in
            (w', copy_digits_digit size n c buff tmp w digit (omega arith) ∙ q, l)
        | inr other ↦
            let (w', q, l) =
              copy_digits-has_letter size n buff tmp w (omega arith) (omega arith) later in
            (w', copy_digits_other size n c buff tmp w other no_letter ∙ q, l)
      ]
]

-- The comparison starts at the first digit that is not 0.
compare_digits :
    (size : ℕ) (ds : List ℕ)
    → 0 < length (significant ds)
    → (r : ℤ) × (compare_ends size ds (leading_zeros ds) (length ds) ≡ ok r)
      × Answers (significant ds) r
compare_digits size ds h =
    let whole = zeros-append-significant ds in
    let (r, q, a) =
      compare_ends-Answers size (length ds) (zeros ds) (significant ds) [] h
        (omega (arith, length-append (zeros ds) (significant ds), ap length whole)) in
    (
      r,
      ap₂ (λ l i. compare_ends size l i (length ds))
            (sym (ap (λ l. zeros ds ++ l) (append-nil (significant ds)) ∙ whole))
            (sym (length-zeros ds))
          ∙ q,
      a,
    )

compare_behind :
    (size head tail_end : ℕ) (ds : List ℕ)
    → length ds ≤ head
    → (e : Fault) × (compare_ends size ds head tail_end ≡ fails e)
unfolding compare_ends
compare_behind size head zero ds h = (out_of_bounds, refl)
compare_behind size head (suc tail) ds h = elim (Bool-cases (ltb head size)) [
  | inl inside ↦ (uninitialised, ground (arith, get_elem?-none ds head h))
  | inr outside ↦ (out_of_bounds, ground (arith, get_elem?-none ds head h))
]

module _ (buff : List ℕ) (w : World) where
  -- Data with no letter, and with a digit other than 0: the digits are printed, the memory is
  -- given back, and the result is 1 if the digits from the first that is not 0 on read the same
  -- backwards, and else 0. This holds also where other characters stand between the digits, for
  -- which the comments on the function ask for -1: they are skipped.
  pub is_palindrome-Answers :
      has_letter buff ≡ false
      → 0 < length (significant (digits buff))
      → (r : ℤ) × (is_palindrome true buff (length buff) w
          ≡ returns r (record w { printed = reverse_aux (digits buff) w.printed }))
        × Answers (significant (digits buff)) r
  unfolding is_palindrome
  is_palindrome-Answers no_letter some_digit =
      let ds = digits buff in
      let w1 : World = record w { live = w.live + 1 } in
      let (r, q, a) = compare_digits (length buff) ds some_digit in
      (
        r,
        ground (
          arith,
          copy_digits-digits (length buff) (length buff) buff [] w1 refl (omega arith) no_letter,
        ),
        a,
      )

  -- Data with a letter: the result is -1, and the memory is given back.
  pub is_palindrome_letter :
      has_letter buff ≡ true
      → (w' : World) × (is_palindrome true buff (length buff) w ≡ returns (negsuc 0) w')
        × (w'.live ≡ w.live)
  unfolding is_palindrome
  is_palindrome_letter found =
      let w1 : World = record w { live = w.live + 1 } in
      let (w', q, l) =
        copy_digits-has_letter (length buff) (length buff) buff [] w1 refl (omega arith) found in
      (record w' { live = w'.live - 1 }, ground arith, omega (arith, l))

  -- Data with no letter whose digits, if any, are all 0: a byte is read that was never written, or
  -- that lies outside the block.
  pub is_palindrome_zero :
      has_letter buff ≡ false
      → significant (digits buff) ≡ []
      → (e : Fault) × (is_palindrome true buff (length buff) w ≡ faults e)
  unfolding is_palindrome
  is_palindrome_zero no_letter no_digit =
      let ds = digits buff in
      let w1 : World = record w { live = w.live + 1 } in
      let (e, q) = compare_behind (length buff) (leading_zeros ds) (length ds) ds (
        omega (
          arith,
          length-zeros ds,
          length-append (zeros ds) (significant ds),
          ap length (zeros-append-significant ds),
          ap length no_digit,
        )) in
      (
        e,
        ground (
          arith,
          copy_digits-digits (length buff) (length buff) buff [] w1 refl (omega arith) no_letter,
        ),
      )
