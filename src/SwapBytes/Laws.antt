-- ===== src/SwapBytes/Laws.antt =====
-- What `swap_bytes` of Lab07/libqueue.c does to the memory.
use mathlib.Core.List.{append_assoc, reverse-append}
use pus.Base.{
  ℕ, zero, suc, ◌+◌, ◌-◌, ◌%◌, ◌^◌, ◌≤◌, ◌<◌, ◌≡◌, refl, ap, sym, ◌∙◌, List, [], ◌∷◌, ◌++◌,
}
use pus.Base.{arith, length, length-append, reverse, get_elem?, set, some, inl, inr}
use pus.Base.{append-ends, get_elem?-middle, set-middle, snoc-cases, get_elem?-none, ap₂}
use pus.Base.Program.{ok, fails, out_of_bounds}
use pus.SwapBytes.{swap_bytes, swap_loop, load, store}

-- One round, given what it loads.
swap_loop-suc :
    (fuel head tail first last : ℕ) (mem : List ℕ)
    → head < tail
    → get_elem? mem head ≡ some first
    → get_elem? mem tail ≡ some last
    → swap_loop (suc fuel) mem head tail
      ≡ swap_loop fuel (set (set mem head last) tail first) (head + 1) (tail - 1)
unfolding swap_loop load store
swap_loop-suc fuel head tail first last mem h p q = ground arith

swap_loop_end :
    (fuel head tail : ℕ) (mem : List ℕ) → tail ≤ head → swap_loop fuel mem head tail ≡ ok mem
unfolding swap_loop
swap_loop_end zero head tail mem h = refl
swap_loop_end (suc fuel) head tail mem h = ground arith

-- The memory before and after a round, seen from its two ends.
abbrev from_left : (pre m post : List ℕ) (x y : ℕ) → List ℕ
from_left pre m post x y = pre ++ x ∷ (m ++ y ∷ post)

from_right : (pre m post : List ℕ) (x y : ℕ) → from_left pre m post x y ≡ (pre ++ x ∷ m) ++ y ∷ post
from_right pre m post x y = sym (append_assoc pre (x ∷ m) (y ∷ post))

swap_ends :
    (pre m post : List ℕ) (x y : ℕ)
    → set (set (from_left pre m post x y) (length pre) y) (length (pre ++ x ∷ m)) x
      ≡ (pre ++ y ∷ []) ++ (m ++ x ∷ post)
swap_ends pre m post x y = rw (set-middle pre x y (m ++ y ∷ post)) (
    rw (← length_same) (
      ap (λ l. set l (length (pre ++ y ∷ m)) x) (from_right pre m post y y)
      ∙ (set-middle (pre ++ y ∷ m) y x post ∙ regroup)))
  where
    length_same : length (pre ++ y ∷ m) ≡ length (pre ++ x ∷ m)
    length_same = omega (arith, length-append pre (x ∷ m), length-append pre (y ∷ m))

    regroup : (pre ++ y ∷ m) ++ x ∷ post ≡ (pre ++ y ∷ []) ++ (m ++ x ∷ post)
    regroup = simp append_assoc

-- The two ends of the block and what lies between them, once swapped.
reverse-ends :
    (pre m post : List ℕ) (x y : ℕ)
    → (pre ++ y ∷ []) ++ (reverse m ++ x ∷ post) ≡ pre ++ (reverse (x ∷ (m ++ y ∷ [])) ++ post)
reverse-ends pre m post x y =
    rw (reverse-append (x ∷ []) (m ++ y ∷ []), reverse-append m (y ∷ [])) (simp append_assoc)

swap_round :
    (fuel tail : ℕ) (pre m post : List ℕ) (x y : ℕ)
    → tail + 1 ≡ length pre + length (x ∷ (m ++ y ∷ []))
    → swap_loop (suc fuel) (from_left pre m post x y) (length pre) tail
      ≡ swap_loop fuel ((pre ++ y ∷ []) ++ (m ++ x ∷ post)) (length (pre ++ y ∷ [])) (tail - 1)
swap_round fuel tail pre m post x y e =
    let at_tail : tail ≡ length (pre ++ x ∷ m) =
      omega (arith, length-append pre (x ∷ m), length-append m (y ∷ [])) in
    swap_loop-suc fuel (length pre) tail x y (from_left pre m post x y)
      (omega (arith, length-append m (y ∷ []))) (get_elem?-middle pre x (m ++ y ∷ post))
      (rw (at_tail, from_right) (get_elem?-middle (pre ++ x ∷ m) y post))
    ∙ ap₂ (λ l h. swap_loop fuel l h (tail - 1)) (rw at_tail (swap_ends pre m post x y))
        (omega (arith, length-append pre (y ∷ [])))

swap_loop-reverse :
    (fuel tail : ℕ) (pre mid post : List ℕ)
    → tail + 1 ≡ length pre + length mid
    → length mid ≤ fuel + 1
    → swap_loop fuel (pre ++ (mid ++ post)) (length pre) tail ≡ ok (pre ++ (reverse mid ++ post))
swap_loop-reverse fuel tail pre [] post e h = swap_loop_end fuel (length pre) tail _ (omega arith)
swap_loop-reverse zero tail pre (x ∷ []) post e h =
    swap_loop_end zero (length pre) tail _ (omega arith)
swap_loop-reverse zero tail pre (x ∷ z ∷ xs) post e h = absurd (omega arith)
swap_loop-reverse (suc fuel) tail pre (x ∷ xs) post e h = elim (snoc-cases x xs) [
  | inl single ↦
      rw single (swap_loop_end (suc fuel) (length pre) tail _ (omega (arith, ap length single)))
  | inr (m, y, split) ↦
      let longer : length xs ≡ suc (length m) =
        ap length split ∙ (length-append m (y ∷ []) ∙ omega arith) in
      rw split (
        ap (λ l. swap_loop (suc fuel) l (length pre) tail) (append-ends pre m post x y)
        ∙ (swap_round fuel tail pre m post x y (e ∙ ap (λ l. length pre + suc (length l)) split)
            ∙ (swap_loop-reverse fuel (tail - 1) (pre ++ y ∷ []) m (x ∷ post)
                  (omega (arith, length-append pre (y ∷ []))) (omega arith)
                ∙ ap ok (reverse-ends pre m post x y))))
]

swap_loop-wrapped :
    (fuel head tail : ℕ) (mem : List ℕ)
    → 0 < fuel
    → head < tail
    → length mem ≤ tail
    → swap_loop fuel mem head tail ≡ fails out_of_bounds
unfolding swap_loop load
swap_loop-wrapped zero head tail mem pos lt far = absurd (omega arith)
swap_loop-wrapped (suc fuel) head tail mem pos lt far = ground (arith, get_elem?-none mem tail far)

-- A block that is not empty is reversed, and the memory around it is left as it was.
pub swap_bytes-reverse :
    (pre mid post : List ℕ)
    → 0 < length mid
    → length mid < 2 ^ 32
    → swap_bytes (pre ++ (mid ++ post)) (length pre) (length mid)
      ≡ ok (pre ++ (reverse mid ++ post))
unfolding swap_bytes
swap_bytes-reverse pre mid post h k = swap_loop-reverse _ _ pre mid post (omega arith) (omega arith)

-- A block whose last byte, `data_length - 1` bytes on modulo 2 ^ 32, lies behind the memory is
-- never reversed: the first round goes out of bounds. An empty block is such, below 4 GiB.
pub swap_bytes_outside :
    (mem : List ℕ) (data_start data_length : ℕ)
    → 0 < (data_length + (2 ^ 32 - 1)) % 2 ^ 32
    → length mem ≤ data_start + (data_length + (2 ^ 32 - 1)) % 2 ^ 32
    → swap_bytes mem data_start data_length ≡ fails out_of_bounds
unfolding swap_bytes
swap_bytes_outside mem data_start data_length h k =
    swap_loop-wrapped _ data_start _ mem (omega arith) (omega arith) k
