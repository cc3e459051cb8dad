-- ===== src/ImageServer/Thread/Laws.antt =====
-- What a thread of Lab01/zad5/server5.cpp answers.
use mathlib.Core.List.{append_assoc}
use pus.Base.{
  ℕ, suc, ◌-◌, ◌<◌, ◌≡◌, ◌∙◌, refl, ap, true, false, some, List, [], ◌∷◌, ◌++◌, length, take, drop,
  length-append, length-drop, ltb, if◌then◌else◌, Bool-cases, inl, inr, arith,
}
use pus.Base.Text.{Text, codes, str_eq, isspace, is_text, c_string, c_string-append}
use pus.Base.Buffer.{zeros, length-zeros, take_all}
use pus.Base.Program.{
  Prog, Outcome, Result, ok, fails, lift, returns, faults, ◌>>=◌, ◌>>◌, >>=-returns, out_of_bounds,
}
use pus.Base.Strings.{scan_word, skip_spaces, is_word, scan_word-append, put_bytes_fits, filled}
use pus.ImageServer.{Kernel, Trace, dir_closed, sent, emit}
use pus.ImageServer.Page.{fill_page, max_buffor_size}
use pus.ImageServer.Page.Laws.{page, are_texts, fill_page-filled, page-is_text}
use pus.ImageServer.Thread.{
  bytes, max_client_message, word_size, message, read_word, request, fill_block, path_of, open_dir,
  write_page, answer, connection_handler,
}

read_word-append :
    (d : ℕ) (text rest : Text) (c : ℕ)
    → is_word (d ∷ text) ≡ true
    → isspace c ≡ true
    → length (d ∷ text) < word_size
    → read_word (d ∷ text ++ c ∷ rest) ≡ ok (d ∷ text, c ∷ rest)
unfolding read_word
read_word-append d text rest c h k small = ground (arith, scan_word-append d text rest c h k)

read_word_space : (text : Text) → read_word (32 ∷ text) ≡ read_word text
unfolding read_word scan_word skip_spaces
read_word_space text = refl

-- A request line: the method, a path behind a slash, and the protocol with what follows it.
abbrev pub request_line : Text → Text → Text → Text → Text
request_line method path protocol more = method ++ 32 ∷ 47 ∷ (path ++ 32 ∷ (protocol ++ 13 ∷ more))

request-eq :
    (m : ℕ) (method path : Text) (q : ℕ) (protocol more : Text)
    → is_word (m ∷ method) ≡ true
    → length (m ∷ method) < word_size
    → is_word (47 ∷ path) ≡ true
    → length (47 ∷ path) < word_size
    → is_word (q ∷ protocol) ≡ true
    → length (q ∷ protocol) < word_size
    → request (request_line (m ∷ method) path (q ∷ protocol) more) ≡ ok (47 ∷ path, q ∷ protocol)
unfolding request
request-eq m method path q protocol more wm sm wp sp wq sq =
    rw (read_word-append m method (47 ∷ (path ++ 32 ∷ (q ∷ protocol ++ 13 ∷ more))) 32 wm refl sm) (
      rw (read_word_space (47 ∷ (path ++ 32 ∷ (q ∷ protocol ++ 13 ∷ more)))) (
        rw (read_word-append 47 path (q ∷ protocol ++ 13 ∷ more) 32 wp refl sp) (
          rw (read_word_space (q ∷ protocol ++ 13 ∷ more))
            (rw (read_word-append q protocol more 13 wq refl sq) refl))))

message-eq :
    (text : Text)
    → is_text text ≡ true
    → length text < max_client_message
    → message (take max_client_message text) ≡ ok text
unfolding message
message-eq text h small =
    ap message (take_all max_client_message text (omega arith))
    ∙ ground (arith, c_string-append text [] h)

fill_block-eq :
    (path : Text) (block old : List ℕ)
    → c_string block ≡ ok old
    → length path < length block
    → is_text path ≡ true
    → fill_block (47 ∷ path) block ≡ ok path
unfolding fill_block
fill_block-eq path block old h room is_path =
    let cleared = zeros (length old) ++ drop (length old) block in
    let total = length-append (zeros (length old)) (drop (length old) block) in
    let zeroed = length-zeros (length old) in
    let kept = length-drop (length old) block in
    let long = length-append path (0 ∷ []) in
    let fits = put_bytes_fits (path ++ 0 ∷ []) cleared (omega (arith, total, zeroed, kept, long)) in
    let behind = drop (length (path ++ 0 ∷ [])) cleared in
    rw h (
      rw fits
        (ap c_string (append_assoc path (0 ∷ []) behind) ∙ c_string-append path behind is_path))

filled-c_string :
    (size : ℕ) (text : Text)
    → is_text text ≡ true
    → ltb (length text) size ≡ true
    → (buff : List ℕ) × (filled size text ≡ ok buff) × (c_string buff ≡ ok text)
unfolding filled
filled-c_string size text h fits =
    let k = size - length text - 1 in
    let room : size - length text ≡ suc k = ground arith in
    (
      text ++ zeros (size - length text),
      rw fits refl,
      ap (λ (n : ℕ). c_string (text ++ zeros n)) room ∙ c_string-append text (zeros k) h,
    )

filled_outside :
    (size : ℕ) (text : Text)
    → ltb (length text) size ≡ false
    → filled size text ≡ fails out_of_bounds
unfolding filled
filled_outside size text h = rw h refl

module _ (kernel : Kernel) (sock : ℕ) where
  write_page-eq :
      (buff : List ℕ) (text : Text) (trace : Trace)
      → c_string buff ≡ ok text
      → kernel.write trace ≡ true
      → write_page kernel sock buff trace ≡ returns tt (sent sock text ∷ trace)
  unfolding write_page emit
  write_page-eq buff text trace h k = rw h (rw k refl)

  path_of-eq :
      (path : Text) (block old : List ℕ) (trace : Trace)
      → kernel.malloc (length (47 ∷ path) - 1) ≡ some block
      → c_string block ≡ ok old
      → length path < length block
      → is_text path ≡ true
      → path_of kernel (47 ∷ path) trace ≡ returns path trace
  unfolding path_of
  path_of-eq path block old trace given h room is_path =
      ground (arith, fill_block-eq path block old h room is_path)

  open_dir-eq :
      (names : List Text) (trace : Trace)
      → kernel.opendir ≡ some names
      → open_dir kernel trace ≡ returns names trace
  unfolding open_dir
  open_dir-eq names trace h = rw h refl

  -- What is done with the page.
  send_filled : Result (List ℕ) → Prog Trace (Unit {0})
  unfolding emit
  send_filled r = do buff ← lift r; emit dir_closed; write_page kernel sock buff

  -- How the thread ends.
  abbrev pub answered : Text → Trace → Outcome Trace (Unit {0})
  answered text trace =
      if ltb (length text) max_buffor_size
      then returns tt (sent sock text ∷ dir_closed ∷ trace)
      else faults out_of_bounds

  send_filled-answered :
      (text : Text) (trace : Trace)
      → is_text text ≡ true
      → kernel.write (dir_closed ∷ trace) ≡ true
      → send_filled (filled max_buffor_size text) trace ≡ answered text trace
  unfolding send_filled emit
  send_filled-answered text trace h k = elim (Bool-cases (ltb (length text) max_buffor_size)) [
    | inl fits ↦
        let (buff, value, read) = filled-c_string max_buffor_size text h fits in
        rw value (rw fits (write_page-eq buff text (dir_closed ∷ trace) read k))
    | inr long ↦ rw (filled_outside max_buffor_size text long) (rw long refl)
  ]

  answer-answered :
      (path : Text) (block old : List ℕ) (names : List Text) (trace : Trace)
      → kernel.malloc (length (47 ∷ path) - 1) ≡ some block
      → c_string block ≡ ok old
      → length path < length block
      → is_text path ≡ true
      → kernel.opendir ≡ some names
      → are_texts names ≡ true
      → kernel.write (dir_closed ∷ trace) ≡ true
      → answer kernel sock (47 ∷ path) trace ≡ answered (page path names) trace
  unfolding answer send_filled
  answer-answered path block old names trace given h room is_path found are_names works =
      >>=-returns (path_of kernel (47 ∷ path))
        (λ p. open_dir kernel >>= λ found_. send_filled (fill_page p found_))
        (path_of-eq path block old trace given h room is_path)
      ∙ >>=-returns (open_dir kernel) (λ found_. send_filled (fill_page path found_))
          (open_dir-eq names trace found)
      ∙ ap (λ (r : Result (List ℕ)). send_filled r trace) (fill_page-filled path names are_names)
      ∙ send_filled-answered (page path names) trace (page-is_text path names are_names) works

  -- To a request for a path under HTTP/1.1 the thread sends the page for the path, or overruns the
  -- buffer if the page does not fit. The request is a text of less than 2000 bytes, its words fit
  -- theirs, and the block that `malloc` gives happens to have a byte more than was asked for, and a
  -- NUL in it.
  pub server5_answers :
      (m : ℕ) (method path more : Text) (block old : List ℕ) (names : List Text) (trace : Trace)
      → is_text (request_line (m ∷ method) path (codes "HTTP/1.1") more) ≡ true
      → length (request_line (m ∷ method) path (codes "HTTP/1.1") more) < max_client_message
      → is_word (m ∷ method) ≡ true
      → length (m ∷ method) < word_size
      → is_word path ≡ true
      → length (47 ∷ path) < word_size
      → is_text path ≡ true
      → kernel.malloc (length (47 ∷ path) - 1) ≡ some block
      → c_string block ≡ ok old
      → length path < length block
      → kernel.opendir ≡ some names
      → are_texts names ≡ true
      → kernel.write (dir_closed ∷ trace) ≡ true
      → connection_handler kernel sock
          (bytes (request_line (m ∷ method) path (codes "HTTP/1.1") more))
          trace
        ≡ answered (page path names) trace
  unfolding connection_handler is_word str_eq
  server5_answers m method path more block old names trace is_t small wm sm wp sp is_path given h
        room found are_names works =
      rw (message-eq (request_line (m ∷ method) path (codes "HTTP/1.1") more) is_t small) (
        rw (request-eq m method path b'H' (codes "TTP/1.1") more wm sm wp sp refl (omega arith))
          (answer-answered path block old names trace given h room is_path found are_names works))
