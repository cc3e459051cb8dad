-- ===== src/PacketQueue/Main.antt =====
-- `main` of Lab07/queuemod.c. The answers of libnetfilter_queue and of `recv` are parameters.
pub mod Laws
use Prim.Native.String.{String}
use pus.Base.{ℕ, Bool, true, false, Option, none, some, List, [], ◌∷◌, not, ◌&&◌, if◌then◌else◌}
use pus.Base.Int.{ℤ, is_negative}
use pus.Base.Program.{Prog, ◌>>=◌, ◌>>◌, pure, exit, exit_success, exit_failure}
use pus.PacketQueue.Packet.{
  NfqData, Event, Trace, opened, unbound, bound, queue_created, mode_set, message_received,
  queue_destroyed, closed,
}
use pus.PacketQueue.Print.{emit}
use pus.PacketQueue.Callback.{callback}

-- What the calls answer. `nfq_open` and `nfq_create_queue` give a handle or NULL. `messages` are
-- what `recv` gives before its first error, each with the packet that `nfq_handle_packet` passes
-- to the callback, if it holds one.
pub record Netfilter : Type 0 where
  pub nfq_open : Bool
  pub nfq_unbind_pf : ℤ
  pub nfq_bind_pf : ℤ
  pub nfq_create_queue : Bool
  pub nfq_set_mode : ℤ
  pub if_indextoname : ℕ → Option String
  pub nfq_set_verdict : Trace → ℤ
  pub messages : List (Option NfqData)

abbrev pub queue_num : ℕ
queue_num = 5

-- `if (failed) exit(EXIT_FAILURE);` behind a call
check : Bool → Event → Prog Trace (Unit {0})
check ok_ event = if ok_ then emit event else exit exit_failure

-- The five calls before the loop, by whether each succeeds.
set_up : Bool → Bool → Bool → Bool → Bool → Prog Trace (Unit {0})
unfolding check
set_up has_handle can_unbind can_bind has_queue can_set_mode = do
  check has_handle opened
  check can_unbind unbound
  check can_bind bound
  check has_queue (queue_created queue_num)
  check can_set_mode (mode_set 0xffff)

module _ (lib : Netfilter) where
  -- The result of the callback goes to the library, not to `main`.
  handle_packet : Option NfqData → Prog Trace (Unit {0})
  handle_packet none = pure tt
  handle_packet (some nfa) = do _ ← callback lib.if_indextoname lib.nfq_set_verdict nfa; pure tt

  -- `while ((rv = recv(...)) >= 0)`
  receive_loop : List (Option NfqData) → Prog Trace (Unit {0})
  receive_loop [] = pure tt
  receive_loop (message ∷ messages) = do
    emit message_received
    handle_packet message
    receive_loop messages

  pub main : Prog Trace (Unit {0})
  main = do
    set_up lib.nfq_open (not (is_negative lib.nfq_unbind_pf)) (not (is_negative lib.nfq_bind_pf))
        lib.nfq_create_queue (not (is_negative lib.nfq_set_mode))
    receive_loop lib.messages
    emit queue_destroyed
    emit closed
    exit exit_success
