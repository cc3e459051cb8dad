-- ===== src/Palindrome/Laws.antt =====
-- When `is_palindrome` of Lab01/zad3/libpalindrome.c answers, and what.
use mathlib.Core.List.{append_assoc, reverse-append, reverse-reverse}
use pus.Base.{ℕ, zero, suc, ◌+◌, ◌<◌, ◌≡◌, ◌≢◌, ◌⊎◌, inl, inr, refl, ap, sym, ◌∙◌}
use pus.Base.{some, List, [], ◌∷◌, ◌++◌, reverse, arith}
use pus.Base.{
  ltb, ◌==◌, if◌then◌else◌, length, length-append, get_elem?, get_elem?-middle, append-ends,
  Bool-cases, ap₂, subst, snoc-cases,
}
use pus.Base.Int.{ℤ, pos}
use pus.Base.Program.{ok}
use pus.Palindrome.{compare_ends}

-- The result 1 for a list that is its own reverse, 0 for any other.
abbrev pub Answers : List ℕ → ℤ → Type 0
Answers l r = (r ≡ pos 1) × (l ≡ reverse l) ⊎ (r ≡ pos 0) × (l ≢ reverse l)

reverse-ends : (m : List ℕ) (x y : ℕ) → reverse (x ∷ (m ++ y ∷ [])) ≡ y ∷ (reverse m ++ x ∷ [])
reverse-ends m x y = rw (reverse-append (x ∷ []) (m ++ y ∷ []), reverse-append m (y ∷ []))

cons-injective : {a b : ℕ} {xs ys : List ℕ} → a ∷ xs ≡ b ∷ ys → (a ≡ b) × (xs ≡ ys)
cons-injective e = ground arith

snoc-injective : (xs ys : List ℕ) (a b : ℕ) → xs ++ a ∷ [] ≡ ys ++ b ∷ [] → xs ≡ ys
snoc-injective xs ys a b e =
    let flipped : a ∷ reverse xs ≡ b ∷ reverse ys =
      sym (reverse-append xs (a ∷ [])) ∙ (ap reverse e ∙ reverse-append ys (b ∷ [])) in
    sym (reverse-reverse xs) ∙ (ap reverse (cons-injective flipped).1 ∙ reverse-reverse ys)

-- Comparing the ends and then what lies between them decides whether a list is its own reverse.
Answers-ends : (m : List ℕ) (x y : ℕ) (r : ℤ) → x ≡ y → Answers m r → Answers (x ∷ (m ++ y ∷ [])) r
Answers-ends m x y r e (inl (one, same)) = inl (one, rw reverse-ends (cc (e, same)))
Answers-ends m x y r e (inr (zero_, differ)) = inr (
  zero_,
  λ same. differ (snoc-injective m (reverse m) y x (cons-injective (same ∙ reverse-ends m x y)).1),
)

Answers-differ : (m : List ℕ) (x y : ℕ) → x ≢ y → Answers (x ∷ (m ++ y ∷ [])) (pos 0)
Answers-differ m x y ne = inr (refl, λ e. ne (cons-injective (e ∙ reverse-ends m x y)).0)

compare_ends-suc :
    (size head tail x y : ℕ) (tmp : List ℕ)
    → get_elem? tmp head ≡ some x
    → get_elem? tmp tail ≡ some y
    → compare_ends size tmp head (suc tail) ≡ (
        if x == y
        then if ltb (head + 1) tail then compare_ends size tmp (head + 1) tail else ok (pos 1)
        else ok (pos 0))
unfolding compare_ends
compare_ends-suc size head tail x y tmp p q = ground arith

compare_single :
    (size tail : ℕ) (pre post : List ℕ) (x : ℕ)
    → tail ≡ length pre
    → compare_ends size (pre ++ x ∷ post) (length pre) (suc tail) ≡ ok (pos 1)
compare_single size tail pre post x e = ground (
  arith,
  compare_ends-suc size (length pre) tail x x (pre ++ x ∷ post),
  get_elem?-middle pre x post,
)

outer_step :
    (size tail : ℕ) (pre m post : List ℕ) (x y : ℕ)
    → tail ≡ length pre + suc (length m)
    → compare_ends size (pre ++ x ∷ (m ++ y ∷ post)) (length pre) (suc tail) ≡ (
        if x == y
        then if ltb (length pre + 1) tail
          then compare_ends size (pre ++ x ∷ (m ++ y ∷ post)) (length pre + 1) tail
          else ok (pos 1)
        else ok (pos 0))
outer_step size tail pre m post x y e =
    let far : tail ≡ length (pre ++ x ∷ m) = omega (arith, length-append pre (x ∷ m)) in
    compare_ends-suc size (length pre) tail x y (pre ++ x ∷ (m ++ y ∷ post))
      (get_elem?-middle pre x (m ++ y ∷ post))
      (rw (far, ← append_assoc pre (x ∷ m) (y ∷ post)) (get_elem?-middle (pre ++ x ∷ m) y post))

compare_outer :
    (size tail : ℕ) (pre m post : List ℕ) (x y : ℕ)
    → tail ≡ length pre + suc (length m)
    → (0 < length m
        → (r : ℤ) × (compare_ends size (pre ++ x ∷ (m ++ y ∷ post)) (length pre + 1) tail ≡ ok r)
          × Answers m r)
    → (r : ℤ) × (compare_ends size (pre ++ x ∷ (m ++ y ∷ post)) (length pre) (suc tail) ≡ ok r)
      × Answers (x ∷ (m ++ y ∷ [])) r
compare_outer size tail pre [] post x y e inner = elim (Bool-cases (x == y)) [
  | inl same ↦ (
    pos 1,
    ground (arith, outer_step size tail pre [] post x y e),
    Answers-ends [] x y (pos 1) (ground arith) (inl (refl, refl)),
  )
  | inr differ ↦ (
    pos 0,
    ground (arith, outer_step size tail pre [] post x y e),
    Answers-differ [] x y (ground arith),
  )
]
compare_outer size tail pre (z ∷ m) post x y e inner =
    let (r, q, a) = inner (omega arith) in
    elim (Bool-cases (x == y)) [
      | inl same ↦ (
        r,
        ground (arith, outer_step size tail pre (z ∷ m) post x y e),
        Answers-ends (z ∷ m) x y r (ground arith) a,
      )
      | inr differ ↦ (
        pos 0,
        ground (arith, outer_step size tail pre (z ∷ m) post x y e),
        Answers-differ (z ∷ m) x y (ground arith),
      )
    ]

-- The loop decides whether the block from `head` to before `tail_end` is its own reverse.
pub compare_ends-Answers :
    (size tail_end : ℕ) (pre mid post : List ℕ)
    → 0 < length mid
    → tail_end ≡ length pre + length mid
    → (r : ℤ) × (compare_ends size (pre ++ (mid ++ post)) (length pre) tail_end ≡ ok r)
      × Answers mid r
compare_ends-Answers size zero pre mid post h e = absurd (omega arith)
compare_ends-Answers size (suc tail) pre [] post h e = absurd (omega arith)
compare_ends-Answers size (suc tail) pre (x ∷ xs) post h e = elim (snoc-cases x xs) [
  | inl single ↦ rw single (
    pos 1,
    compare_single size tail pre post x (omega (arith, ap length single)),
    inl (refl, refl),
  )
  | inr (m, y, split) ↦
      let longer : length xs ≡ suc (length m) =
        ap length split ∙ (length-append m (y ∷ []) ∙ omega arith) in
      let inner = λ (pos_m : 0 < length m).
        let (r, q, a) =
          compare_ends-Answers size tail (pre ++ x ∷ []) m (y ∷ post) pos_m
            (omega (arith, length-append pre (x ∷ []))) in
        let q' : compare_ends size (pre ++ x ∷ (m ++ y ∷ post)) (length pre + 1) tail ≡ ok r =
          ap₂ (λ l h. compare_ends size l h tail) (sym (append_assoc pre (x ∷ []) (m ++ y ∷ post)))
            (omega (arith, length-append pre (x ∷ [])))
          ∙ q in
        let t : (r : ℤ) × (compare_ends size (pre ++ x ∷ (m ++ y ∷ post)) (length pre + 1) tail
              ≡ ok r)
            × Answers m r =
          (r, q', a) in
        t in
      let (r, q, a) = compare_outer size tail pre m post x y (omega arith) inner in
      (
        r,
        ap (λ l. compare_ends size l (length pre) (suc tail))
              (ap (λ l. pre ++ ((x ∷ l) ++ post)) split ∙ append-ends pre m post x y)
            ∙ q,
        subst (λ l. Answers (x ∷ l) r) (sym split) a,
      )
]
