-- ===== src/Palindrome/Server/Laws.antt =====
-- What Lab01/zad3/server3.cpp replies.
use mathlib.Core.List.{append-nil}
use pus.Base.{
  ℕ, ◌+◌, ◌-◌, ◌<◌, ◌≡◌, refl, sym, ap, ◌∙◌, true, List, [], ◌∷◌, ◌++◌, length, length-drop, drop,
  arith,
}
use pus.Base.Text.{Text, is_text, c_string-append}
use pus.Base.Program.{returns}
use pus.Palindrome.{World}
use pus.Palindrome.Server.{
  replied, Trace, State, Kernel, datagram, buff_size, emit, store, verdict, answer, loop,
  is_listening, received_from, printed_error,
}
use pus.Palindrome.Server.Texts.{
  deserved, is_checked, is_palindrome-deserved, deserve_all, grown, are_checked, replies, receipts,
  check_digits-quiet, are_checked-next,
}
use pus.Base.Buffer.{
  zeros, overwrite-overlaid, is_blank, drop_blank, overlaid, overlaid-is_text, length-overlaid,
  blank_head,
}

module _ (kernel : Kernel) (current_char : ℕ)
    (has_memory : (t : Trace) → kernel.malloc t ≡ true) where
  answer-replies :
      (address : ℕ) (text pad : List ℕ) (s : State)
      → is_text text ≡ true
      → is_checked text ≡ true
      → (t : State) × (answer kernel current_char address (text ++ 0 ∷ pad) s ≡ returns tt t)
        × (replies t.trace ≡ replies s.trace ++ (address, deserved text) ∷ [])
        × (t.world.live ≡ s.world.live)
  unfolding answer replies emit
  answer-replies address text pad s h k =
      let (t, quiet, same, kept) =
        check_digits-quiet current_char text pad
          (record s { trace = received_from address ∷ s.trace }) in
      let (r, w, runs, live, letter) = is_palindrome-deserved text (0 ∷ pad) t.world k in
      (
        record { world = w; trace = printed_error ∷ replied address (verdict r) ∷ t.trace },
        ground (arith, has_memory t.trace, c_string-append text pad h),
        ap (λ (l : List (ℕ × ℕ)). l ++ (address, verdict r) ∷ []) same
            ∙ ap (λ (c : ℕ). replies s.trace ++ (address, c) ∷ []) letter,
        live ∙ ap (λ (v : World). v.live) kept,
      )

  store-overlaid :
      (text old pad : List ℕ)
      → length text < buff_size
      → store text (old ++ pad) ≡ overlaid text old ++ drop (length text - length old) pad
  unfolding store
  store-overlaid text old pad h = overwrite-overlaid buff_size text old pad h

  loop_step :
      (address : ℕ) (text old pad : List ℕ) (sent : List (ℕ × Text)) (s t u : State)
      → {rest : List ℕ} → length text < buff_size
      → 0 < length text
      → drop (length text - length old) pad ≡ 0 ∷ rest
      → answer kernel current_char address
          (overlaid text old ++ 0 ∷ rest)
          (record s { trace = is_listening ∷ s.trace })
        ≡ returns tt t
      → loop kernel current_char
          (overlaid text old ++ drop (length text - length old) pad)
          (receipts sent)
          t
        ≡ returns tt u
      → loop kernel current_char (old ++ pad) (datagram address text ∷ receipts sent) s
        ≡ returns tt u
  unfolding loop emit
  loop_step address [] old pad sent s t u short some_ blank answered runs =
      absurd (omega (arith, some_))
  loop_step address (c ∷ text) old pad sent s t u short some_ blank answered runs =
      ground (arith, store-overlaid (c ∷ text) old pad short)

  loop-replies :
      (sent : List (ℕ × Text)) (old pad : List ℕ) (s : State)
      → is_text old ≡ true
      → is_blank pad ≡ true
      → length old + length pad ≡ buff_size
      → length old < buff_size
      → are_checked old sent ≡ true
      → (t : State) × (loop kernel current_char (old ++ pad) (receipts sent) s ≡ returns tt t)
        × (replies t.trace ≡ replies s.trace ++ deserve_all old sent)
        × (t.world.live ≡ s.world.live)
  unfolding loop receipts replies deserve_all are_checked emit
  loop-replies [] old pad s h b l m c = (_, refl, sym (append-nil (replies s.trace)), refl)
  loop-replies ((address, []) ∷ sent) old pad s h b l m c = absurd (ground arith)
  loop-replies ((address, x ∷ text) ∷ sent) old pad s h b l m c =
      let d = x ∷ text in
      let pad' = drop (length d - length old) pad in
      let (is_d, short, checked, later) = are_checked-next address d old sent c in
      let seen = overlaid-is_text d old h is_d in
      let sizes : length d + (length old - length d) + (length pad - (length d - length old))
          ≡ buff_size =
        omega (arith, l, short) in
      let b' = drop_blank (length d - length old) pad b in
      let padded = length-drop (length d - length old) pad in
      let long = length-overlaid d old in
      let (rest, blank) = blank_head pad' b' (omega (arith, l, m, short, padded)) in
      let (t, answered, replied_, live) =
        answer-replies address (overlaid d old) rest (record s { trace = is_listening ∷ s.trace })
          seen checked in
      let (u, runs, all, live') =
        loop-replies sent (overlaid d old) pad' t seen b' (omega (arith, sizes, padded, long))
          (omega (arith, long, short, m)) later in
      (
        u,
        loop_step address (x ∷ text) old pad sent s t u short (omega arith) blank answered runs,
        grown (replies s.trace) (deserve_all (overlaid d old) sent)
            (address, deserved (overlaid d old)) all replied_,
        live' ∙ live,
      )

  -- For datagrams that are texts of 1 to 255 bytes, if `malloc` does not fail and what is in the
  -- buffer after each has a letter or a digit other than 0, the server that starts with a buffer
  -- of zeros answers each at its address, in order. The text in the buffer is the datagram with
  -- the end of a longer text that was there before. The answer is x if there is a letter in it, and
  -- else t or n by its digits from the first that is not 0 on; other characters are skipped,
  -- although the comments in the code ask for x where the text is no string of digits. No
  -- memory is lost, and whatever the variable that is never written holds.
  pub server3_answers :
      (sent : List (ℕ × Text)) (s : State)
      → are_checked [] sent ≡ true
      → (t : State) × (loop kernel current_char (zeros buff_size) (receipts sent) s ≡ returns tt t)
        × (replies t.trace ≡ replies s.trace ++ deserve_all [] sent)
        × (t.world.live ≡ s.world.live)
  unfolding is_text is_blank
  server3_answers sent s c = loop-replies sent [] (zeros buff_size) s refl refl refl (omega arith) c
