-- ===== src/PacketQueue/Main/Laws.antt =====
-- Which packets get a verdict in a whole run of Lab07/queuemod.c.
use mathlib.Core.List.{reverse_aux}
use pus.Base.{
  ℕ, suc, ◌≡◌, refl, Bool, true, false, not, ◌&&◌, Option, some, none, List, [], ◌∷◌, reverse,
  arith,
}
use pus.Base.Int.{ℤ, is_negative}
use pus.Base.Program.{ok, returns, exits, >>=-eq-returns, exit_failure, exit_success}
use pus.PacketQueue.Packet.{
  NfqData, Trace, left_callback, verdict_set, message_received, mode_set, queue_created, bound,
  unbound, opened, closed, queue_destroyed,
}
use pus.PacketQueue.Print.{print_packet}
use pus.PacketQueue.Print.Laws.{packet_id_of, IsPrintable, print_packet_returns}
use pus.PacketQueue.Print.Verdicts.{verdict_ids, print_packet_quiet}
use pus.PacketQueue.Callback.{callback, nf_accept, rewrite_packet}
use pus.PacketQueue.Main.{queue_num, Netfilter, main, set_up, receive_loop, handle_packet}

-- All five calls before the loop succeed.
abbrev pub is_set_up : Netfilter → Bool
is_set_up lib =
    lib.nfq_open
    && (not (is_negative lib.nfq_unbind_pf)
        && (not (is_negative lib.nfq_bind_pf)
            && (lib.nfq_create_queue && not (is_negative lib.nfq_set_mode))))

-- The IDs of the packets in a list of messages, in order.
abbrev pub message_ids : List (Option NfqData) → List ℕ
message_ids [] = []
message_ids (none ∷ messages) = message_ids messages
message_ids (some nfa ∷ messages) = packet_id_of nfa.msg_packet_hdr ∷ message_ids messages

-- How many messages were received.
unfoldable pub received : Trace → ℕ
received [] = 0
received (message_received ∷ trace) = suc (received trace)
received (_ ∷ trace) = received trace

set_up_trace : Trace
set_up_trace = mode_set 0xffff ∷ queue_created queue_num ∷ bound ∷ unbound ∷ opened ∷ []

set_up_returns :
    (a b c d e : Bool)
    → (a && (b && (c && (d && e)))) ≡ true
    → set_up a b c d e [] ≡ returns tt set_up_trace
unfolding set_up set_up_trace
set_up_returns true true true true true h = refl
set_up_returns false b c d e h = cc
set_up_returns true false c d e h = cc
set_up_returns true true false d e h = cc
set_up_returns true true true false e h = cc
set_up_returns true true true true false h = cc

set_up_exits :
    (a b c d e : Bool)
    → (a && (b && (c && (d && e)))) ≡ false
    → (t : Trace) × (set_up a b c d e [] ≡ exits exit_failure t)
      × (verdict_ids t ≡ [])
      × (received t ≡ 0)
unfolding set_up verdict_ids received
set_up_exits false b c d e h = ([], refl, refl, refl)
set_up_exits true false c d e h = (_, refl, refl, refl)
set_up_exits true true false d e h = (_, refl, refl, refl)
set_up_exits true true true false e h = (_, refl, refl, refl)
set_up_exits true true true true false h = (_, refl, refl, refl)
set_up_exits true true true true true h = cc

module _ (lib : Netfilter) where
  callback-verdict :
      (nfa : NfqData) (s : Trace) {r : ℤ} {t : Trace}
      → callback lib.if_indextoname lib.nfq_set_verdict nfa s ≡ returns r t
      → verdict_ids t ≡ packet_id_of nfa.msg_packet_hdr ∷ verdict_ids s
  unfolding callback verdict_ids
  callback-verdict nfa s e =
      let (id, t1, e1, r1) = >>=-eq-returns (print_packet lib.if_indextoname nfa) _ e in
      ground (arith, print_packet_quiet lib.if_indextoname nfa s e1)

  receive_loop-verdicts :
      (messages : List (Option NfqData)) (s : Trace) {u : Unit {0}} {t : Trace}
      → receive_loop lib messages s ≡ returns u t
      → verdict_ids t ≡ reverse_aux (message_ids messages) (verdict_ids s)
  unfolding receive_loop handle_packet verdict_ids
  receive_loop-verdicts [] s e = ground arith
  receive_loop-verdicts (none ∷ messages) s e =
      receive_loop-verdicts messages (message_received ∷ s) e
  receive_loop-verdicts (some nfa ∷ messages) s e =
      let (_, t1, e1, r1) = >>=-eq-returns (handle_packet lib (some nfa)) _ e in
      let (_, t2, e2, r2) =
        >>=-eq-returns (callback lib.if_indextoname lib.nfq_set_verdict nfa) _ e1 in
      ground (
        arith,
        callback-verdict nfa (message_received ∷ s) e2,
        receive_loop-verdicts messages t1 r1,
      )

  -- A packet that can be printed, and whose bytes can be rewritten.
  pub record IsHandled (nfa : NfqData) : Type 0 where
    pub printable : IsPrintable lib.if_indextoname nfa
    pub size : ℕ
    pub mem : List ℕ
    pub has_payload : nfa.payload ≡ some (record { size = size; mem = mem })
    pub packet : List ℕ
    pub rewritten : rewrite_packet size mem ≡ ok packet

  abbrev pub AreHandled : List (Option NfqData) → Type 0
  AreHandled [] = Unit
  AreHandled (none ∷ messages) = AreHandled messages
  AreHandled (some nfa ∷ messages) = IsHandled nfa × AreHandled messages

  callback_returns :
      (nfa : NfqData) (s : Trace)
      → IsHandled nfa
      → (r : ℤ) × (t : Trace) × (callback lib.if_indextoname lib.nfq_set_verdict nfa s
          ≡ returns r t)
  unfolding callback
  callback_returns nfa s v =
      let (t, e) = print_packet_returns lib.if_indextoname nfa s v.printable in
      let done : Trace =
        verdict_set (packet_id_of nfa.msg_packet_hdr) nf_accept v.size v.packet
        ∷ left_callback
        ∷ t in
      (lib.nfq_set_verdict done, done, ground (arith, v.has_payload, v.rewritten))

  receive_loop_returns :
      (messages : List (Option NfqData)) (s : Trace)
      → AreHandled messages
      → (t : Trace) × (receive_loop lib messages s ≡ returns tt t)
  unfolding receive_loop handle_packet
  receive_loop_returns [] s v = (s, refl)
  receive_loop_returns (none ∷ messages) s v =
      receive_loop_returns messages (message_received ∷ s) v
  receive_loop_returns (some nfa ∷ messages) s v =
      let (r, t, e) = callback_returns nfa (message_received ∷ s) v.0 in
      let (t', e') = receive_loop_returns messages t v.1 in (t', ground arith)

  -- If the calls before the loop succeed and every packet can be handled, the program ends with
  -- success once `recv` fails, and has given one verdict for each packet, in order of arrival.
  pub main-verdicts :
      is_set_up lib ≡ true
      → AreHandled lib.messages
      → (t : Trace) × (main lib [] ≡ exits exit_success t)
        × (verdict_ids t ≡ reverse (message_ids lib.messages))
  unfolding main verdict_ids set_up_trace
  main-verdicts h v =
      let e1 =
        set_up_returns lib.nfq_open (not (is_negative lib.nfq_unbind_pf))
          (not (is_negative lib.nfq_bind_pf)) lib.nfq_create_queue
          (not (is_negative lib.nfq_set_mode)) h in
      let (t2, e2) = receive_loop_returns lib.messages set_up_trace v in
      (
        closed ∷ queue_destroyed ∷ t2,
        ground arith,
        receive_loop-verdicts lib.messages set_up_trace e2,
      )

  -- If one of the five calls before the loop fails, the program ends with failure, and has neither
  -- received a message nor given a verdict.
  pub main_not_set_up :
      is_set_up lib ≡ false
      → (t : Trace) × (main lib [] ≡ exits exit_failure t) × (verdict_ids t ≡ []) × (received t ≡ 0)
  unfolding main
  main_not_set_up h =
      let (t, e, q, r) =
        set_up_exits lib.nfq_open (not (is_negative lib.nfq_unbind_pf))
          (not (is_negative lib.nfq_bind_pf)) lib.nfq_create_queue
          (not (is_negative lib.nfq_set_mode)) h in
      (t, ground arith, q, r)
