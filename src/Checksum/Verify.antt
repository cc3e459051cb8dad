-- ===== src/Checksum/Verify.antt =====
-- What a receiver's check of a checksum finds, and checksums over parts of a packet.
use pus.Base.{ℕ, ◌+◌, ◌-◌, ◌/◌, ◌%◌, ◌≤◌, ◌<◌, ◌≡◌, refl, ap, sym, ◌∙◌, List, [], ◌∷◌, ◌++◌}
use pus.Base.{arith, length, take, length-append}
use pus.Base.Program.{ok}
use pus.Checksum.{internet_checksum}
use pus.Checksum.Sum.{words, total, folded, AreBytes}
use pus.Checksum.Rfc.{internet_checksum_lem, folded-lt}

pub take-length : {A : Type 0} (xs : List A) → take (length xs) xs ≡ xs
take-length [] = refl
take-length (x ∷ xs) = ap (λ l. x ∷ l) (take-length xs)

pub append-AreBytes : (xs ys : List ℕ) → AreBytes xs → AreBytes ys → AreBytes (xs ++ ys)
append-AreBytes [] ys h k = k
append-AreBytes (x ∷ xs) ys h k = (h.0, append-AreBytes xs ys h.1 k)

-- Words do not straddle a split at an even offset.
pub total-append :
    (xs ys : List ℕ)
    → length xs % 2 ≡ 0
    → total (words (xs ++ ys)) ≡ total (words xs) + total (words ys)
unfolding total words
total-append [] ys even = omega arith
total-append (x ∷ []) ys even = absurd (omega arith)
total-append (x ∷ y ∷ xs) ys even = omega (arith, total-append xs ys (omega arith))

pub internet_checksum_whole :
    (bytes : List ℕ)
    → AreBytes bytes
    → length bytes ≤ 65536
    → internet_checksum bytes (length bytes) ≡ ok (65535 - folded (total (words bytes)))
internet_checksum_whole bytes h small =
    ground
      (arith, internet_checksum_lem bytes (length bytes) h (omega arith) small, take-length bytes)

folded-complement : (s : ℕ) → folded (s + (65535 - folded s)) ≡ 65535
unfolding folded
folded-complement s = ground arith

-- A packet whose first part sums to nothing, in one's complement, as a header does that carries
-- its own checksum, has the checksum of its second part, if that does not sum to 0.
folded-add : (h s : ℕ) → folded h ≡ 65535 → 0 < s → folded (h + s) ≡ folded s
unfolding folded
folded-add h s e pos = ground arith

-- The two bytes of a stored `unsigned short`.
abbrev pub low_byte : ℕ → ℕ
low_byte c = c % 256

abbrev pub high_byte : ℕ → ℕ
high_byte c = c / 256

pub total-field :
    (c : ℕ) (post : List ℕ)
    → total (words (low_byte c ∷ high_byte c ∷ post)) ≡ total (words (0 ∷ 0 ∷ post)) + c
unfolding total words
total-field c post = omega arith

pub ok-injective : {a b : ℕ} → ok a ≡ ok b → a ≡ b
ok-injective h = ground arith

pub internet_checksum-store :
    (pre post : List ℕ) (c : ℕ)
    → AreBytes pre
    → AreBytes post
    → length pre % 2 ≡ 0
    → length (pre ++ 0 ∷ 0 ∷ post) ≤ 65536
    → internet_checksum (pre ++ 0 ∷ 0 ∷ post) (length (pre ++ 0 ∷ 0 ∷ post)) ≡ ok c
    → internet_checksum
        (pre ++ low_byte c ∷ high_byte c ∷ post)
        (length (pre ++ low_byte c ∷ high_byte c ∷ post))
      ≡ ok 0
internet_checksum-store pre post c hpre hpost even small e =
    let s = total (words (pre ++ 0 ∷ 0 ∷ post)) in
    let zeroed : AreBytes (pre ++ 0 ∷ 0 ∷ post) =
      append-AreBytes pre (0 ∷ 0 ∷ post) hpre (omega arith, (omega arith, hpost)) in
    let value = internet_checksum_whole (pre ++ 0 ∷ 0 ∷ post) zeroed small in
    let result : c ≡ 65535 - folded s = ok-injective (sym e ∙ value) in
    let stored : AreBytes (low_byte c ∷ high_byte c ∷ post) =
      (omega arith, (omega (arith, result), hpost)) in
    ground (
      arith,
      value,
      folded-lt s,
      folded-complement s,
      total-append pre (0 ∷ 0 ∷ post) even,
      total-append pre (low_byte c ∷ high_byte c ∷ post) even,
      total-field c post,
      length-append pre (0 ∷ 0 ∷ post),
      length-append pre (low_byte c ∷ high_byte c ∷ post),
      internet_checksum_whole (pre ++ low_byte c ∷ high_byte c ∷ post)
          (append-AreBytes pre (low_byte c ∷ high_byte c ∷ post) hpre stored),
    )

-- The checksum over a header that verifies and the data behind it is that of the data alone,
-- unless the data sums to 0.
pub internet_checksum-append :
    (header body : List ℕ)
    → AreBytes header
    → AreBytes body
    → length header % 2 ≡ 0
    → length (header ++ body) ≤ 65536
    → internet_checksum header (length header) ≡ ok 0
    → 0 < total (words body)
    → internet_checksum (header ++ body) (length (header ++ body))
      ≡ internet_checksum body (length body)
internet_checksum-append header body hh hb even small verifies pos = ground (
  arith,
  length-append header body,
  internet_checksum_whole header hh (omega (arith, length-append header body)),
  internet_checksum_whole body hb (omega (arith, length-append header body)),
  internet_checksum_whole (header ++ body) (append-AreBytes header body hh hb) small,
  total-append header body even,
  folded-lt (total (words header)),
  folded-add (total (words header)) (total (words body)),
)

pub take-append : {A : Type 0} (xs ys : List A) → take (length xs) (xs ++ ys) ≡ xs
take-append [] ys = refl
take-append (x ∷ xs) ys = ap (λ l. x ∷ l) (take-append xs ys)

-- Bytes behind the checked part play no role.
pub internet_checksum-behind :
    (bytes behind : List ℕ)
    → AreBytes bytes
    → AreBytes behind
    → length bytes ≤ 65536
    → internet_checksum (bytes ++ behind) (length bytes) ≡ internet_checksum bytes (length bytes)
internet_checksum-behind bytes behind h k small = ground (
  arith,
  length-append bytes behind,
  take-append bytes behind,
  internet_checksum_whole bytes h small,
  internet_checksum_lem (bytes ++ behind) (length bytes) (append-AreBytes bytes behind h k),
)
