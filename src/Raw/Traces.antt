-- ===== src/Raw/Traces.antt =====
-- What the steps that the programs of Lab03 share leave in the trace.
use pus.Base.{
  ℕ, zero, suc, ◌≡◌, refl, ap, ◌∙◌, Bool, true, false, ◌&&◌, none, some, List, [], ◌∷◌, ◌++◌,
  Bool-cases, inl, inr, arith,
}
use pus.Base.Program.{returns, >>=-returns}
use pus.Raw.{socket_call, failed, socket_created, sent_to, packet_sent, sendto_call, Trace, Kernel}
use pus.Raw.Steps.{emit, first_socket, send_once, send_rounds}

-- The packets that were given to `sendto`, with their addresses, the latest first.
unfoldable pub sends : Trace → List (List ℕ × List ℕ)
sends [] = []
sends (sent_to packet address ∷ trace) = (packet, address) ∷ sends trace
sends (_ ∷ trace) = sends trace

unfoldable pub repeated : ℕ → List ℕ × List ℕ → List (List ℕ × List ℕ)
repeated zero send = []
repeated (suc n) send = send ∷ repeated n send

repeated-snoc :
    (n : ℕ) (send : List ℕ × List ℕ) (rest : List (List ℕ × List ℕ))
    → repeated n send ++ send ∷ rest ≡ send ∷ (repeated n send ++ rest)
unfolding repeated
repeated-snoc zero send rest = refl
repeated-snoc (suc n) send rest =
    ap (λ (l : List (List ℕ × List ℕ)). send ∷ l) (repeated-snoc n send rest)

-- None of the addresses gives a socket.
unfoldable pub are_skipped : Kernel → List (List ℕ) → Bool
are_skipped kernel [] = true
are_skipped kernel (address ∷ addresses) =
    elim (kernel.socket address) [ none ↦ true | some fd ↦ false ] && are_skipped kernel addresses

pub first_socket-finds :
    (kernel : Kernel) (skipped rest : List (List ℕ)) (address : List ℕ) (sockfd : ℕ) (trace : Trace)
    → are_skipped kernel skipped ≡ true
    → kernel.socket address ≡ some sockfd
    → kernel.setsockopt sockfd ≡ true
    → (t : Trace) × (first_socket kernel (skipped ++ address ∷ rest) trace
        ≡ returns (sockfd, address) t)
      × (sends t ≡ sends trace)
unfolding first_socket are_skipped sends emit
first_socket-finds kernel [] rest address sockfd trace h opened set_ =
    (socket_created sockfd ∷ trace, ground arith, refl)
first_socket-finds kernel (a ∷ skipped) rest address sockfd trace h opened set_ =
    let (t, runs, same) =
      first_socket-finds kernel skipped rest address sockfd (failed socket_call ∷ trace)
        (ground arith) opened set_ in
    (t, ground arith, same)

send_once-sends :
    (kernel : Kernel) (packet address : List ℕ) (trace : Trace)
    → (t : Trace) × (send_once kernel packet address trace ≡ returns tt t)
      × (sends t ≡ (packet, address) ∷ sends trace)
unfolding send_once sends emit
send_once-sends kernel packet address trace =
    elim (Bool-cases (kernel.sendto (sent_to packet address ∷ trace))) [
      | inl ok_ ↦ (packet_sent ∷ sent_to packet address ∷ trace, ground arith, refl)
      | inr not_ ↦ (failed sendto_call ∷ sent_to packet address ∷ trace, ground arith, refl)
    ]

pub send_rounds-sends :
    (kernel : Kernel) (rounds : ℕ) (packet address : List ℕ) (trace : Trace)
    → (t : Trace) × (send_rounds kernel rounds packet address trace ≡ returns tt t)
      × (sends t ≡ repeated rounds (packet, address) ++ sends trace)
unfolding send_rounds repeated
send_rounds-sends kernel zero packet address trace = (trace, refl, refl)
send_rounds-sends kernel (suc n) packet address trace =
    let (t, once, one) = send_once-sends kernel packet address trace in
    let (u, runs, all) = send_rounds-sends kernel n packet address t in
    (
      u,
      >>=-returns (send_once kernel packet address) (λ _. send_rounds kernel n packet address) once
          ∙ runs,
      all
          ∙ ap (λ (l : List (List ℕ × List ℕ)). repeated n (packet, address) ++ l) one
          ∙ repeated-snoc n (packet, address) (sends trace),
    )
