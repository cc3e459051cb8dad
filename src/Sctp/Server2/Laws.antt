-- ===== src/Sctp/Server2/Laws.antt =====
-- What Lab04/zad2/server2.c sends to each client.
use pus.Base.{
  ℕ, zero, suc, ◌+◌, ◌≡◌, ◌∙◌, refl, true, [], ◌∷◌, ◌++◌, ◌≤◌, ◌%◌, ◌^◌, length, length-append,
  none, ap, ◌<◌, arith, some,
}
use pus.Base.Int.{ℤ, to_unsigned}
use pus.Base.Text.{Text, codes, atoi, decimal, decimal-length}
use pus.Base.Program.{
  Prog, ◌>>=◌, ◌>>◌, bind, ok, returns, is_defined, >>=-returns, is_defined->>=, lift,
}
use pus.Sctp.{
  Trace, Kernel, Tm, bound, initmsg, listening, opened, printed, sent, accepted, server_accept,
}
use pus.Sctp.Steps.{
  emit, give_up, check, open_socket, bind_port, set_initmsg, start_listening, send_message,
}
use pus.Sctp.Traces.{Succeeds}
use pus.Sctp.Server2.{
  joined, int_sum, read_tm, date_text, time_text, sprintf, accept_client, localtime, round, loop,
  serve, main,
}

joined_short : (sep a b c : ℕ) → length (joined sep a b c) ≤ 35
unfolding joined
joined_short sep a b c = omega (
  arith,
  length-append (decimal a) (sep ∷ (decimal b ++ sep ∷ decimal c)),
  length-append (decimal b) (sep ∷ decimal c),
  decimal-length a,
  decimal-length b,
  decimal-length c,
)

-- A month and a year as `localtime` gives them, where the year fits an `int`.
abbrev pub IsTime : Tm → Type 0
IsTime tm = (tm.month < 12) × (tm.year + 1900 < 2 ^ 31)

abbrev pub expected_date : Tm → Text
expected_date tm =
    codes "Aktualna data: "
    ++ (decimal tm.day ++ b'.' ∷ (decimal (tm.month + 1) ++ b'.' ∷ decimal (tm.year + 1900)))

abbrev pub expected_time : Tm → Text
expected_time tm =
    codes "Aktualny czas: "
    ++ (decimal tm.hour ++ b':' ∷ (decimal tm.minute ++ b':' ∷ decimal tm.second))

-- The two texts, which fit the buffer.
sprintf-date : (tm : Tm) → IsTime tm → bind (date_text tm) sprintf ≡ ok (expected_date tm)
unfolding sprintf date_text int_sum joined
sprintf-date tm (month, year) =
    ground (arith, joined_short b'.' tm.day (tm.month + 1) (tm.year + 1900))

sprintf-time : (tm : Tm) → sprintf (time_text tm) ≡ ok (expected_time tm)
unfolding sprintf time_text joined
sprintf-time tm = ground (arith, joined_short b':' tm.hour tm.minute tm.second)

-- What the server has done behind a round, and behind some rounds, where `accept` and the clock answer as
-- given.
module _ (connfd : Trace → ℕ) (times : Trace → Tm) where
  abbrev greeted : Trace → Trace
  greeted s = printed server_accept ∷ accepted (connfd s) ∷ s

  abbrev answered : Trace → Trace
  answered s =
      sent (connfd s) none (expected_time (times (greeted s))) 1
      ∷ sent (connfd s) none (expected_date (times (greeted s))) 0
      ∷ greeted s

  abbrev pub served : ℕ → Trace → Trace
  served zero s = s
  served (suc rounds) s = served rounds (answered s)

module _ (kernel : Kernel) (times : Trace → Tm)
    (clock : (t : Trace) → kernel.clock t ≡ some (times t))
    (valid : (t : Trace) → IsTime (times t)) where
  localtime-eq : (t : Trace) → localtime kernel t ≡ returns (times t) t
  unfolding localtime read_tm
  localtime-eq t = ground (arith, clock t)

  localtime_defined : (t : Trace) → is_defined (localtime kernel t) ≡ true
  unfolding is_defined
  localtime_defined t = ap is_defined (localtime-eq t)

  -- What follows the clock.
  send_texts : ℕ → Tm → Prog Trace (Unit {0})
  send_texts connfd tm = do
    date ← lift (bind (date_text tm) sprintf)
    send_message kernel connfd none date 0
    time ← lift (sprintf (time_text tm))
    send_message kernel connfd none time 1

  send_message_defined :
      (fd : ℕ) (text : Text) (stream : ℕ) (s : Trace)
      → is_defined (send_message kernel fd none text stream s) ≡ true
  unfolding emit send_message check give_up is_defined
  send_message_defined fd text stream s = ground arith

  sprintf_defined : (tm : Tm) (s : Trace) → is_defined (lift (sprintf (time_text tm)) s) ≡ true
  unfolding is_defined
  sprintf_defined tm s = rw (sprintf-time tm) refl

  date_defined :
      (tm : Tm) (s : Trace) → IsTime tm → is_defined (lift (bind (date_text tm) sprintf) s) ≡ true
  unfolding is_defined
  date_defined tm s h = rw (sprintf-date tm h) refl

  send_texts_defined :
      (connfd : ℕ) (tm : Tm) (s : Trace) → IsTime tm → is_defined (send_texts connfd tm s) ≡ true
  unfolding send_texts
  send_texts_defined connfd tm s h =
      is_defined->>= (lift (bind (date_text tm) sprintf)) _ s (date_defined tm s h) λ date t1.
        is_defined->>= (send_message kernel connfd none date 0) _ t1
          (send_message_defined connfd date 0 t1)
          λ _ t2.
            is_defined->>= (lift (sprintf (time_text tm))) _ t2 (sprintf_defined tm t2)
              λ time t3. send_message_defined connfd time 1 t3

  localtime_texts_defined :
      (connfd : ℕ) (s : Trace) → is_defined ((localtime kernel >>= send_texts connfd) s) ≡ true
  unfolding is_defined
  localtime_texts_defined connfd s =
      ap is_defined (>>=-returns (localtime kernel) (send_texts connfd) (localtime-eq s))
      ∙ send_texts_defined connfd (times s) s (valid s)

  round_defined : (s : Trace) → is_defined (round kernel s) ≡ true
  unfolding round accept_client emit give_up send_texts is_defined
  round_defined s =
      is_defined->>= (accept_client kernel) _ s (ground arith)
        λ connfd t1. localtime_texts_defined connfd (printed server_accept ∷ t1)

  loop_defined : (rounds : ℕ) (s : Trace) → is_defined (loop kernel rounds s) ≡ true
  unfolding loop is_defined
  loop_defined zero s = refl
  loop_defined (suc rounds) s =
      is_defined->>= (round kernel) _ s (round_defined s) λ _ t. loop_defined rounds t

  -- Where `atoi` is defined for the port, and the clock always gives a time with a month below 12 and
  -- a year that fits an `int`, no answer of the system makes the behaviour of the server
  -- undefined: the two texts always fit the buffer.
  pub server2_defined :
      (name port : Text) (rounds : ℕ) {n : ℤ}
      → atoi port ≡ ok n
      → is_defined (main kernel (name ∷ port ∷ []) rounds []) ≡ true
  unfolding main serve open_socket bind_port set_initmsg start_listening check give_up emit
      is_defined
  server2_defined name port rounds {n} e =
      is_defined->>= (open_socket kernel) _ [] (ground arith) λ fd t1.
        is_defined->>= (lift (atoi port)) _ t1 (ground arith) λ m t2.
          is_defined->>= (bind_port kernel m) _ t2 (ground arith) λ _ t3.
            is_defined->>= (set_initmsg kernel 3 50) _ t3 (ground arith) λ _ t4.
              is_defined->>= (start_listening kernel) _ t4 (ground arith)
                λ _ t5. loop_defined rounds t5

  module _ (v : Succeeds kernel) (connfd : Trace → ℕ)
      (accepts : (t : Trace) → kernel.accept t ≡ some (connfd t)) where
    round_sends : (s : Trace) → round kernel s ≡ returns tt (answered connfd times s)
    unfolding round accept_client emit send_message check
    round_sends s =
        let fd = connfd s in
        let s1 = greeted connfd times s in
        let now = times s1 in
        let s2 : Trace = sent fd none (expected_date now) 0 ∷ s1 in
        ground (
          arith,
          accepts s,
          localtime-eq s1,
          sprintf-date now (valid s1),
          sprintf-time now,
          v.sends fd none (expected_date now) 0 s1,
          v.sends fd none (expected_time now) 1 s2,
        )

    loop_sends :
        (rounds : ℕ) (s : Trace) → loop kernel rounds s ≡ returns tt (served connfd times rounds s)
    unfolding loop
    loop_sends zero s = refl
    loop_sends (suc rounds) s =
        >>=-returns (round kernel) (λ _. loop kernel rounds) (round_sends s)
        ∙ loop_sends rounds (answered connfd times s)

    -- Where `atoi` is defined for the port, every call succeeds, and the clock always gives a time with a
    -- month below 12 and a year that fits an `int`, each client is sent, on the socket that `accept`
    -- gave for it, the date as day, month from 1 on and year, on stream 0, and then the time of the
    -- same moment as hour, minute and second, on stream 1, one client behind the other; the moment
    -- is that behind the `accept`, and nothing else is done behind `listen`.
    pub server2_sends :
        (name port : Text) (rounds : ℕ) {n : ℤ}
        → atoi port ≡ ok n
        → main kernel (name ∷ port ∷ []) rounds []
          ≡ returns tt (
              served connfd times rounds
                (listening 5 ∷ initmsg 3 50 ∷ bound (to_unsigned n % 2 ^ 16) ∷ opened v.fd ∷ []))
    unfolding main serve open_socket bind_port set_initmsg start_listening check emit
    server2_sends name port rounds {n} e =
        let s1 : Trace = opened v.fd ∷ [] in
        let p = to_unsigned n % 2 ^ 16 in
        let s2 : Trace = bound p ∷ s1 in
        let s3 : Trace = initmsg 3 50 ∷ s2 in
        ground (
          arith,
          v.opens [],
          v.binds p s1,
          v.sets s2,
          v.listens s3,
          loop_sends rounds (listening 5 ∷ s3),
        )
