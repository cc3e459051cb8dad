-- ===== src/Palindrome/Server/Texts.antt =====
-- The buffer of Lab01/zad3/server3.cpp, the text in it, and what it deserves.
use mathlib.Core.List.{append_assoc}
use pus.Base.{
  ℕ, ◌+◌, ◌<◌, ◌≡◌, refl, ap, ◌∙◌, inl, inr, Bool, true, ◌&&◌, ◌||◌, List, [], ◌∷◌, ◌++◌, ◌==◌, ltb,
  if◌then◌else◌, length, reverse, arith, subst, Bool-cases,
}
use pus.Base.Int.{ℤ, negsuc}
use pus.Base.Text.{Text, is_text, str_eq, str_eq_refl, str_eq→eq}
use pus.Base.Program.{returns}
use pus.Palindrome.{World, isdigit, is_palindrome, copy_digits, append_char, put_char}
use pus.Palindrome.Laws.{Answers}
use pus.Palindrome.Digits.{
  digits, significant, has_letter, is_palindrome-Answers, is_palindrome_letter,
}
use pus.Palindrome.Server.{
  replied, Trace, State, Receipt, datagram, buff_size, emit, check_digits, verdict, not_a_number,
}
use pus.Base.Buffer.{overlaid}

-- What a text deserves: a letter in it gives x, else t or n by its digits from the first that is
-- not 0 on.
unfoldable pub deserved : Text → ℕ
deserved text =
    if has_letter text
    then b'x'
    else if str_eq (significant (digits text)) (reverse (significant (digits text)))
    then b't'
    else b'n'

-- Only the bytes in front of the end count.
copy_digits_prefix :
    (size : ℕ) (text rest tmp : List ℕ) (w : World)
    → copy_digits size (length text) (text ++ rest) tmp w
      ≡ copy_digits size (length text) text tmp w
unfolding copy_digits append_char put_char
copy_digits_prefix size [] rest tmp w = refl
copy_digits_prefix size (c ∷ text) rest tmp w = ground (
  arith,
  copy_digits_prefix size text rest (tmp ++ c ∷ []) (record w { printed = c ∷ w.printed }),
  copy_digits_prefix size text rest tmp w,
)

pub is_palindrome_prefix :
    (text rest : List ℕ) (w : World)
    → is_palindrome true (text ++ rest) (length text) w ≡ is_palindrome true text (length text) w
unfolding is_palindrome
is_palindrome_prefix text rest w =
    ground (arith, copy_digits_prefix (length text) text rest [] (record w { live = w.live + 1 }))

pub verdict-Answers :
    (ds : Text) (r : ℤ) → Answers ds r → verdict r ≡ (if str_eq ds (reverse ds) then b't' else b'n')
unfolding verdict
verdict-Answers ds r (inl (one, same)) =
    ground (arith, subst (λ (l : Text). str_eq ds l ≡ true) same (str_eq_refl ds))
verdict-Answers ds r (inr (nought, differ)) = elim (Bool-cases (str_eq ds (reverse ds))) [
  | inl equal ↦ absurd (differ (str_eq→eq ds (reverse ds) equal))
  | inr other ↦ ground arith
]

-- A text with a letter, or with a digit other than 0.
unfoldable pub is_checked : Text → Bool
is_checked text = has_letter text || ltb 0 (length (significant (digits text)))

-- `is_palindrome` on the buffer gives what the text deserves.
pub is_palindrome-deserved :
    (text rest : List ℕ) (w : World)
    → is_checked text ≡ true
    → (r : ℤ) × (w' : World) × (is_palindrome true (text ++ rest) (length text) w ≡ returns r w')
      × (w'.live ≡ w.live)
      × (verdict r ≡ deserved text)
unfolding is_checked deserved verdict
is_palindrome-deserved text rest w h = elim (Bool-cases (has_letter text)) [
  | inl lettered ↦
      let (w', runs, same) = is_palindrome_letter text w lettered in
      (negsuc 0, w', is_palindrome_prefix text rest w ∙ runs, same, ground arith)
  | inr no_letter ↦
      let (r, runs, answers) = is_palindrome-Answers text w no_letter (ground arith) in
      (
        r,
        _,
        is_palindrome_prefix text rest w ∙ runs,
        refl,
        ground (arith, verdict-Answers (significant (digits text)) r answers),
      )
]

-- What the datagrams deserve, one after another, behind what the buffer holds.
unfoldable pub deserve_all : Text → List (ℕ × Text) → List (ℕ × ℕ)
unfolding overlaid deserved
deserve_all old [] = []
deserve_all old ((address, text) ∷ sent) =
    (address, deserved (overlaid text old)) ∷ deserve_all (overlaid text old) sent

-- The replies of a round and of those behind it.
pub grown :
    (before rest : List (ℕ × ℕ)) (reply : ℕ × ℕ) {after_round after : List (ℕ × ℕ)}
    → after ≡ after_round ++ rest
    → after_round ≡ before ++ reply ∷ []
    → after ≡ before ++ reply ∷ rest
grown before rest reply all round =
    all ∙ ap (λ (r : List (ℕ × ℕ)). r ++ rest) round ∙ append_assoc before (reply ∷ []) rest

-- Every datagram is a text of 1 to 255 bytes, and what is then in the buffer can be checked.
unfoldable pub are_checked : Text → List (ℕ × Text) → Bool
unfolding overlaid is_checked is_text
are_checked old [] = true
are_checked old ((address, text) ∷ sent) =
    is_text text
    && ltb 0 (length text)
    && ltb (length text) buff_size
    && is_checked (overlaid text old)
    && are_checked (overlaid text old) sent

-- The replies, from the first on.
unfoldable pub replies : Trace → List (ℕ × ℕ)
replies [] = []
replies (replied address letter ∷ trace) = replies trace ++ (address, letter) ∷ []
replies (_ ∷ trace) = replies trace

unfoldable pub receipts : List (ℕ × Text) → List Receipt
receipts [] = []
receipts ((address, text) ∷ sent) = datagram address text ∷ receipts sent

pub check_digits-quiet :
    (current_char : ℕ) (text pad : List ℕ) (s : State)
    → (t : State) × (check_digits current_char (text ++ 0 ∷ pad) s ≡ returns tt t)
      × (replies t.trace ≡ replies s.trace)
      × (t.world ≡ s.world)
unfolding check_digits isdigit replies emit
check_digits-quiet current_char [] pad s = (_, refl, refl, refl)
check_digits-quiet current_char (c ∷ text) pad s = elim (Bool-cases (isdigit c)) [
  | inr other ↦ (record s { trace = not_a_number ∷ s.trace }, ground arith, refl, refl)
  | inl digit ↦ elim (Bool-cases (current_char == 0)) [
    | inl end_ ↦ (s, ground arith, refl, refl)
    | inr more ↦
        let (t, runs, same, kept) = check_digits-quiet current_char text pad s in
        (t, ground arith, same, kept)
  ]
]

pub are_checked-next :
    (address : ℕ) (text old : Text) (sent : List (ℕ × Text))
    → are_checked old ((address, text) ∷ sent) ≡ true
    → (is_text text ≡ true)
      × (length text < buff_size)
      × (is_checked (overlaid text old) ≡ true)
      × (are_checked (overlaid text old) sent ≡ true)
unfolding are_checked
are_checked-next address text old sent h = (ground arith, ground arith, ground arith, ground arith)
