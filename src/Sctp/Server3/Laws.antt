-- ===== src/Sctp/Server3/Laws.antt =====
-- What Lab04/zad3/server3.c sends back.
use mathlib.Core.List.{reverse_aux}
use pus.Base.{
  ℕ, zero, suc, ◌≡◌, refl, Bool, true, false, Option, none, some, List, [], ◌∷◌, map, reverse,
  arith, length, ◌<◌, ◌%◌, ◌^◌,
}
use pus.Base.Int.{ℤ, pos, to_unsigned}
use pus.Base.Text.{Text, atoi, is_text}
use pus.Base.Program.{ok, returns, holds, holds->>=, lift}
use pus.Sctp.{
  Trace, Receipt, error, got, Kernel, bound, initmsg, listening, events_set, status_read, opened,
  received, printed, sent, contents, stream_number,
}
use pus.Sctp.Steps.{
  emit, give_up, check, bytes_of, info_of, open_socket, bind_port, set_initmsg, start_listening,
  set_events, send_message, buff_size,
}
use pus.Sctp.Traces.{Message, sent_messages, streams_below, Succeeds, c_string-filled}
use pus.Sctp.Server3.{
  ostreams, Choice, same, next, next_stream, reply_stream, cliaddr_of, use_address, round, loop,
  serve, choose_mode, main,
}

-- Whether a message was received.
abbrev pub is_got : Receipt → Bool
is_got error = false
is_got (got bytes info) = true

-- A message with no NUL that leaves room for one in the buffer.
abbrev pub IsReadable : Receipt → Type 0
IsReadable receipt =
    (is_got receipt ≡ true)
    × (is_text (bytes_of receipt) ≡ true)
    × (length (bytes_of receipt) < buff_size)

abbrev pub AreReadable : List Receipt → Type 0
AreReadable [] = Unit
AreReadable (receipt ∷ receipts) = IsReadable receipt × AreReadable receipts

-- The stream of the answer to a message on a stream: the same, or the next of the five.
unfoldable pub stream_for : Choice → ℕ → ℕ
stream_for same stream = stream
stream_for next zero = 1
stream_for next (suc zero) = 2
stream_for next (suc (suc zero)) = 3
stream_for next (suc (suc (suc zero))) = 4
stream_for next (suc (suc (suc (suc n)))) = 0

reply_stream-stream_for :
    (choice : Choice) (stream : ℕ) → reply_stream choice stream ≡ stream_for choice stream
unfolding reply_stream next_stream stream_for
reply_stream-stream_for same stream = refl
reply_stream-stream_for next zero = refl
reply_stream-stream_for next (suc zero) = refl
reply_stream-stream_for next (suc (suc zero)) = refl
reply_stream-stream_for next (suc (suc (suc zero))) = refl
reply_stream-stream_for next (suc (suc (suc (suc n)))) = ground arith

-- The same bytes, to the sender.
unfoldable pub reply : ℕ → Choice → Receipt → Message
reply fd choice receipt = record {
  socket = fd;
  to = some (info_of receipt).sender;
  text = bytes_of receipt;
  stream = stream_for choice (info_of receipt).stream;
}

unfoldable pub mode_number : Choice → ℕ
mode_number same = 0
mode_number next = 1

module _ (kernel : Kernel) where
  module _ (v : Succeeds kernel) where
    round_returns :
        (fd : ℕ) (choice : Choice) (cliaddr : Option ℕ) (receipt : Receipt) (s : Trace)
        → IsReadable receipt
        → (t : Trace) × (round kernel fd choice cliaddr receipt s ≡ returns tt t)
          × (sent_messages t ≡ reply fd choice receipt ∷ sent_messages s)
    unfolding round emit send_message check sent_messages reply cliaddr_of use_address bytes_of
        info_of
    round_returns fd choice cliaddr error s (is, text, room) = cc
    round_returns fd choice cliaddr (got text info) s (is, readable, room) =
        let stream = stream_for choice info.stream in
        let s' : Trace = printed (stream_number stream) ∷ printed (contents text) ∷ received ∷ s in
        (
          sent fd (some info.sender) text stream ∷ s',
          ground (
            arith,
            reply_stream-stream_for choice info.stream,
            c_string-filled text,
            v.sends fd (some info.sender) text stream s',
          ),
          refl,
        )

    loop_returns :
        (fd : ℕ) (choice : Choice) (cliaddr : Option ℕ) (receipts : List Receipt) (s : Trace)
        → AreReadable receipts
        → (t : Trace) × (loop kernel fd choice cliaddr receipts s ≡ returns tt t)
          × (sent_messages t ≡ reverse_aux (map (reply fd choice) receipts) (sent_messages s))
    unfolding loop
    loop_returns fd choice cliaddr [] s readable = (s, refl, refl)
    loop_returns fd choice cliaddr (receipt ∷ receipts) s readable =
        let (t1, e1, m1) = round_returns fd choice cliaddr receipt s readable.0 in
        let (t2, e2, m2) =
          loop_returns fd choice (cliaddr_of cliaddr receipt) receipts t1 readable.1 in
        (t2, ground arith, ground arith)

    serve_returns :
        (port : Text) (choice : Choice) (receipts : List Receipt) {n : ℤ}
        → atoi port ≡ ok n
        → AreReadable receipts
        → (t : Trace) × (serve kernel port choice receipts [] ≡ returns tt t)
          × (sent_messages t ≡ reverse (map (reply v.fd choice) receipts))
    unfolding serve open_socket bind_port set_initmsg start_listening set_events emit check
        sent_messages
    serve_returns port choice receipts {n} e readable =
        let s1 : Trace = opened v.fd ∷ [] in
        let p = to_unsigned n % 2 ^ 16 in
        let s2 : Trace = bound p ∷ s1 in
        let s3 : Trace = initmsg ostreams 5 ∷ s2 in
        let s4 : Trace = status_read ∷ events_set ∷ listening 5 ∷ s3 in
        let (t, run, replied) = loop_returns v.fd choice none receipts s4 readable in
        (t, ground (arith, v.opens [], v.binds p s1, v.sets s2, v.listens s3), replied)

    -- Where every call succeeds, `atoi` is defined for the port, the second argument stands for a
    -- choice, and the messages have no NUL and leave room for one, the server answers each message
    -- with its bytes, to the address that it came from, in the order in which they came, and waits
    -- for the next: on the stream that the message came from, or from 0, 1, 2 and 3 on 1, 2, 3 and 4,
    -- and from any other on 0.
    pub server3_replies :
        (name port wybor : Text) (choice : Choice) (receipts : List Receipt) {n : ℤ}
        → atoi port ≡ ok n
        → atoi wybor ≡ ok (pos (mode_number choice))
        → AreReadable receipts
        → (t : Trace) × (main kernel (name ∷ port ∷ wybor ∷ []) receipts [] ≡ returns tt t)
          × (sent_messages t ≡ reverse (map (reply v.fd choice) receipts))
    unfolding main choose_mode mode_number
    server3_replies name port wybor same receipts e c readable =
        let (t, run, replied) = serve_returns port same receipts e readable in
        (t, ground (arith, run), replied)
    server3_replies name port wybor next receipts e c readable =
        let (t, run, replied) = serve_returns port next receipts e readable in
        (t, ground (arith, run), replied)

  -- What the server does in front of the loop, and the rounds, with any answers of the system.
  round_below :
      (fd : ℕ) (cliaddr : Option ℕ) (receipt : Receipt) (s : Trace)
      → streams_below 5 s ≡ true
      → holds (streams_below 5) (round kernel fd next cliaddr receipt s) ≡ true
  unfolding round emit send_message check give_up holds streams_below reply_stream next_stream
      use_address
  round_below fd cliaddr receipt s h = ground arith

  loop_below :
      (fd : ℕ) (cliaddr : Option ℕ) (receipts : List Receipt) (s : Trace)
      → streams_below 5 s ≡ true
      → holds (streams_below 5) (loop kernel fd next cliaddr receipts s) ≡ true
  unfolding loop holds
  loop_below fd cliaddr [] s h = h
  loop_below fd cliaddr (receipt ∷ receipts) s h =
      holds->>= (streams_below 5) (round kernel fd next cliaddr receipt) _ s
        (round_below fd cliaddr receipt s h)
        λ u t below. loop_below fd (cliaddr_of cliaddr receipt) receipts t below

  serve_below :
      (port : Text) (receipts : List Receipt)
      → holds (streams_below 5) (serve kernel port next receipts []) ≡ true
  unfolding serve open_socket bind_port set_initmsg start_listening set_events emit check give_up
      holds streams_below
  serve_below port receipts =
      holds->>= (streams_below 5) (open_socket kernel) _ [] (ground arith) λ fd t1 b1.
        holds->>= (streams_below 5) (lift (atoi port)) _ t1 (ground arith) λ n t2 b2.
          holds->>= (streams_below 5) (bind_port kernel n) _ t2 (ground arith) λ _ t3 b3.
            holds->>= (streams_below 5) (set_initmsg kernel ostreams 5) _ t3 (ground arith)
              λ _ t4 b4.
                holds->>= (streams_below 5) (start_listening kernel) _ t4 (ground arith)
                  λ _ t5 b5. loop_below fd none receipts (status_read ∷ events_set ∷ t5) b5

  -- With the second choice no message is ever sent to a stream from 5 on, the number of streams
  -- that the server has asked for, whatever is received and whatever the system answers.
  pub server3_streams :
      (name port wybor : Text) (receipts : List Receipt)
      → atoi wybor ≡ ok (pos 1)
      → holds (streams_below ostreams) (main kernel (name ∷ port ∷ wybor ∷ []) receipts []) ≡ true
  unfolding main choose_mode
  server3_streams name port wybor receipts e = ground (arith, serve_below port receipts)
