-- ===== src/Base/Program.antt =====
-- Programs that change a state, end the process, or run into undefined behaviour.
use Prim.Native.Nat.{ℕ}
use mathlib.Core.Path.{◌≡◌, refl, ap, ◌∙◌}
use mathlib.Core.Bool.{Bool, true, false}
use mathlib.Core.Logic.{◌⊎◌, inl, inr}
use native.Mathlib.Omega.{arith}

-- What the C standard leaves undefined.
pub data Fault : Type 0 where
  -- an access outside the object that a pointer points into
  out_of_bounds : Fault
  -- a read of a value that was never written
  uninitialised : Fault
  -- a signed sum that does not fit
  int_overflow : Fault
  -- a pointer that is freed and was not handed out by the allocator, or was freed before
  bad_free : Fault

-- How a run ends: the function returns, `exit` ends the process, or the behaviour is undefined.
pub data Outcome (S : Type 0) (A : Type 0) : Type 0 where
  returns : A → S → Outcome S A
  exits : ℕ → S → Outcome S A
  faults : Fault → Outcome S A

abbrev pub Prog : Type 0 → Type 0 → Type 0
Prog S A = S → Outcome S A

infixl 5 ◌>>=◌ ◌>>◌
abbrev pub ◌>>=◌ : {S A B : Type 0} → Prog S A → (A → Prog S B) → Prog S B
◌>>=◌ m f s = elim (m s) [
  | returns a s' ↦ f a s'
  | exits code s' ↦ exits code s'
  | faults e ↦ faults e
]

abbrev pub ◌>>◌ : {S A B : Type 0} → Prog S A → Prog S B → Prog S B
m >> k = m >>= λ _. k

abbrev pub pure : {S A : Type 0} → A → Prog S A
pure a s = returns a s

abbrev pub exit : {S A : Type 0} → ℕ → Prog S A
exit code s = exits code s

abbrev pub fault : {S A : Type 0} → Fault → Prog S A
fault e s = faults e

-- EXIT_SUCCESS and EXIT_FAILURE of <stdlib.h>
abbrev pub exit_success : ℕ
exit_success = 0

abbrev pub exit_failure : ℕ
exit_failure = 1

-- What a function computes that changes no state and cannot exit.
pub data Result (A : Type 0) : Type 0 where
  ok : A → Result A
  fails : Fault → Result A

abbrev pub bind : {A B : Type 0} → Result A → (A → Result B) → Result B
bind (ok a) f = f a
bind (fails e) f = fails e

abbrev pub lift : {S A : Type 0} → Result A → Prog S A
lift (ok a) s = returns a s
lift (fails e) s = faults e

-- A run of `m >>= f` goes on where `m` returns.
pub >>=-returns :
    {S A B : Type 0} (m : Prog S A) (f : A → Prog S B) {s : S} {a : A} {t : S}
    → m s ≡ returns a t
    → (m >>= f) s ≡ f a t
>>=-returns m f e = ground arith

-- Where `m >>= f` returns, so does `m`.
split_returns :
    {S A B : Type 0} (o : Outcome S A) (f : A → Prog S B) {b : B} {t : S}
    → elim o [ returns a s ↦ f a s | exits code s ↦ exits code s | faults e ↦ faults e ]
      ≡ returns b t
    → (a : A) × (s : S) × (o ≡ returns a s) × (f a s ≡ returns b t)
split_returns (returns a s) f e = (a, s, refl, e)
split_returns (exits code s) f e = cc
split_returns (faults x) f e = cc

pub >>=-eq-returns :
    {S A B : Type 0} (m : Prog S A) (f : A → Prog S B) {s : S} {b : B} {t : S}
    → (m >>= f) s ≡ returns b t
    → (a : A) × (s' : S) × (m s ≡ returns a s') × (f a s' ≡ returns b t)
>>=-eq-returns m f {s} e = split_returns (m s) f e

-- Where `m >>= f` exits, `m` has exited, or has returned before.
split_exits :
    {S A B : Type 0} (o : Outcome S A) (f : A → Prog S B) {code : ℕ} {t : S}
    → elim o [ returns a s ↦ f a s | exits code s ↦ exits code s | faults e ↦ faults e ]
      ≡ exits code t
    → (o ≡ exits code t) ⊎ ((a : A) × (s : S) × (o ≡ returns a s) × (f a s ≡ exits code t))
split_exits (returns a s) f e = inr (a, s, refl, e)
split_exits (exits n s) f e = inl (ground arith)
split_exits (faults x) f e = cc

pub >>=-eq-exits :
    {S A B : Type 0} (m : Prog S A) (f : A → Prog S B) {s : S} {code : ℕ} {t : S}
    → (m >>= f) s ≡ exits code t
    → (m s ≡ exits code t) ⊎ ((a : A) × (s' : S) × (m s ≡ returns a s') × (f a s' ≡ exits code t))
>>=-eq-exits m f {s} e = split_exits (m s) f e

-- Runs that agree, with continuations that agree, agree.
>>=-ext :
    {S A B : Type 0} (o : Outcome S A) (f g : A → Prog S B)
    → ((a : A) (s : S) → f a s ≡ g a s)
    → ◌≡◌ {A = Outcome S B}
        (elim o [ returns a s ↦ f a s | exits code s ↦ exits code s | faults e ↦ faults e ])
        (elim o [ returns a s ↦ g a s | exits code s ↦ exits code s | faults e ↦ faults e ])
>>=-ext (returns a s) f g h = h a s
>>=-ext (exits code s) f g h = refl
>>=-ext (faults e) f g h = refl

pub >>=-cong :
    {S A B : Type 0} (m n : Prog S A) (f g : A → Prog S B) (s : S)
    → m s ≡ n s
    → ((a : A) (t : S) → f a t ≡ g a t)
    → (m >>= f) s ≡ (n >>= g) s
>>=-cong {S} {A} {B} m n f g s e h =
    ap (λ (o : Outcome S A). ◌>>=◌ {S = S} {A = A} {B = B} (λ _. o) f s) e ∙ >>=-ext (n s) f g h

-- A test of the state in which a run returns or exits; undefined behaviour passes.
unfoldable pub holds : {S A : Type 0} → (S → Bool) → Outcome S A → Bool
holds test (returns a s) = test s
holds test (exits code s) = test s
holds test (faults e) = true

-- The test of a run in two parts.
pub holds->>= :
    {S A B : Type 0} (test : S → Bool) (m : Prog S A) (f : A → Prog S B) (s : S)
    → holds test (m s) ≡ true
    → ((a : A) (t : S) → test t ≡ true → holds test (f a t) ≡ true)
    → holds test ((m >>= f) s) ≡ true
unfolding holds
holds->>= {S} {A} {B} test m f s h k = split_holds (m s) h
  where
    split_holds :
        (o : Outcome S A) → holds test o ≡ true → holds test (◌>>=◌ {B = B} (λ _. o) f s) ≡ true
    split_holds (returns a t) h = k a t h
    split_holds (exits code t) h = h
    split_holds (faults e) h = h

-- The behaviour is defined.
unfoldable pub is_defined : {S A : Type 0} → Outcome S A → Bool
is_defined (returns a s) = true
is_defined (exits code s) = true
is_defined (faults e) = false

pub is_defined->>= :
    {S A B : Type 0} (m : Prog S A) (f : A → Prog S B) (s : S)
    → is_defined (m s) ≡ true
    → ((a : A) (t : S) → is_defined (f a t) ≡ true)
    → is_defined ((m >>= f) s) ≡ true
unfolding is_defined
is_defined->>= {S} {A} {B} m f s h k = split_defined (m s) h
  where
    split_defined :
        (o : Outcome S A) → is_defined o ≡ true → is_defined (◌>>=◌ {B = B} (λ _. o) f s) ≡ true
    split_defined (returns a t) h = k a t
    split_defined (exits code t) h = h
    split_defined (faults e) h = cc
