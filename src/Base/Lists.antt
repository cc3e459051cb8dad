-- ===== src/Base/Lists.antt =====
-- Lists measured and indexed by native numbers, under the library's names.
use Prim.Native.Nat.{ℕ, zero, suc, ◌+◌, ◌-◌, ◌≤◌, min}
use mathlib.Core.Path.{◌≡◌, refl, ap, ◌∙◌}
use mathlib.Core.Logic.{◌⊎◌, inl, inr}
use mathlib.Core.List.{List, [], ◌∷◌, ◌++◌, append_assoc}
use mathlib.Core.Option.{Option, none, some}
use native.Mathlib.Omega.{arith}

module _ {ℓ} {A : Type ℓ} where
  abbrev pub length : List A → ℕ
  length [] = 0
  length (x ∷ xs) = suc (length xs)

  abbrev pub get_elem? : List A → ℕ → Option A
  get_elem? [] i = none
  get_elem? (x ∷ xs) zero = some x
  get_elem? (x ∷ xs) (suc i) = get_elem? xs i

  -- A write out of bounds changes nothing.
  abbrev pub set : List A → ℕ → A → List A
  set [] i v = []
  set (x ∷ xs) zero v = v ∷ xs
  set (x ∷ xs) (suc i) v = x ∷ set xs i v

  abbrev pub take : ℕ → List A → List A
  take zero xs = []
  take (suc n) [] = []
  take (suc n) (x ∷ xs) = x ∷ take n xs

  abbrev pub drop : ℕ → List A → List A
  drop zero xs = xs
  drop (suc n) [] = []
  drop (suc n) (x ∷ xs) = drop n xs

  abbrev pub All {κ} : (A → Type κ) → List A → Type κ
  All P [] = Unit
  All P (x ∷ xs) = P x × All P xs

  pub length-append : (xs ys : List A) → length (xs ++ ys) ≡ length xs + length ys
  length-append [] ys = omega arith
  length-append (x ∷ xs) ys = omega (arith, length-append xs ys)

  pub length-take : (n : ℕ) (xs : List A) → length (take n xs) ≡ min n (length xs)
  length-take zero xs = omega arith
  length-take (suc n) [] = omega arith
  length-take (suc n) (x ∷ xs) = omega (arith, length-take n xs)

  pub length-drop : (n : ℕ) (xs : List A) → length (drop n xs) ≡ length xs - n
  length-drop zero xs = omega arith
  length-drop (suc n) [] = omega arith
  length-drop (suc n) (x ∷ xs) = omega (arith, length-drop n xs)

  pub take-append-drop : (n : ℕ) (xs : List A) → take n xs ++ drop n xs ≡ xs
  take-append-drop zero xs = refl
  take-append-drop (suc n) [] = refl
  take-append-drop (suc n) (x ∷ xs) = rw (take-append-drop n xs)

  -- The element in the middle of a list, and its replacement.
  pub get_elem?-middle :
      (xs : List A) (y : A) (ys : List A) → get_elem? (xs ++ y ∷ ys) (length xs) ≡ some y
  get_elem?-middle [] y ys = refl
  get_elem?-middle (x ∷ xs) y ys = get_elem?-middle xs y ys

  pub set-middle :
      (xs : List A) (y v : A) (ys : List A) → set (xs ++ y ∷ ys) (length xs) v ≡ xs ++ v ∷ ys
  set-middle [] y v ys = refl
  set-middle (x ∷ xs) y v ys = ap (λ l. x ∷ l) (set-middle xs y v ys)

  pub set-middle_next :
      (xs : List A) (y z v : A) (ys : List A)
      → set (xs ++ y ∷ z ∷ ys) (length xs + 1) v ≡ xs ++ y ∷ v ∷ ys
  set-middle_next [] y z v ys = refl
  set-middle_next (x ∷ xs) y z v ys =
      let shift : suc (length xs) + 1 ≡ suc (length xs + 1) = omega arith in
      ap (λ i. set (x ∷ (xs ++ y ∷ z ∷ ys)) i v) shift
      ∙ ap (λ l. x ∷ l) (set-middle_next xs y z v ys)

  pub append-ends :
      (pre m post : List A) (x y : A)
      → pre ++ ((x ∷ (m ++ y ∷ [])) ++ post) ≡ pre ++ x ∷ (m ++ y ∷ post)
  append-ends pre m post x y = ap (λ l. pre ++ x ∷ l) (append_assoc m (y ∷ []) post)

  pub get_elem?-none : (xs : List A) (i : ℕ) → length xs ≤ i → get_elem? xs i ≡ none
  get_elem?-none [] i h = refl
  get_elem?-none (x ∷ xs) zero h = absurd (omega arith)
  get_elem?-none (x ∷ xs) (suc i) h = get_elem?-none xs i (omega arith)

  -- A list that is not empty has a last element.
  pub snoc-cases :
      (x : A) (xs : List A) → (xs ≡ []) ⊎ ((ys : List A) × (y : A) × (xs ≡ ys ++ y ∷ []))
  snoc-cases x [] = inl refl
  snoc-cases x (z ∷ xs) = inr (last z xs)
    where
      last : (z : A) (xs : List A) → (ys : List A) × (y : A) × (z ∷ xs ≡ ys ++ y ∷ [])
      last z [] = ([], z, refl)
      last z (w ∷ xs) = let (ys, y, e) = last w xs in (z ∷ ys, y, ap (λ l. z ∷ l) e)
