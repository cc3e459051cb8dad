-- ===== src/Raw/Steps.antt =====
-- The steps that the programs of Lab03 share.
use pus.Base.{ℕ, zero, suc, ◌+◌, ◌*◌, ◌/◌, ◌%◌, none, some, List, [], ◌∷◌, if◌then◌else◌}
use pus.Base.Program.{
  Prog, Result, ok, fails, out_of_bounds, returns, ◌>>◌, pure, exit, exit_failure,
}
use pus.Raw.{
  socket_call, setsockopt_call, sendto_call, Event, failed, no_socket, socket_created, sent_to,
  packet_sent, Trace, Kernel, InAddr,
}

unfoldable pub emit : Event → Prog Trace (Unit {0})
emit event trace = returns tt (event ∷ trace)

unfoldable pub give_up : {A : Type 0} → Event → Prog Trace A
unfolding emit
give_up event = do emit event; exit exit_failure

-- The bytes of an `unsigned short`, and of one that `htons` was applied to.
abbrev pub short_bytes : ℕ → List ℕ
short_bytes n = n % 256 ∷ n / 256 % 256 ∷ []

-- `htons`
abbrev pub htons : ℕ → ℕ
htons n = n % 256 * 256 + n / 256 % 256

abbrev pub addr_bytes : InAddr → List ℕ
addr_bytes i = i.a ∷ i.b ∷ i.c ∷ i.d ∷ []

-- `((struct sockaddr_in *) ai_addr)->sin_addr`, behind the family and the port
unfoldable pub sin_addr : List ℕ → Result InAddr
sin_addr (f0 ∷ f1 ∷ p0 ∷ p1 ∷ a ∷ b ∷ c ∷ d ∷ rest) = ok (record { a = a; b = b; c = c; d = d })
sin_addr bytes = fails out_of_bounds

module _ (kernel : Kernel) where
  -- The loop over the addresses: those that give no socket are reported and skipped. That there is one
  -- is printed by udpv6.c, and only noted in the trace of the others.
  unfoldable pub first_socket : List (List ℕ) → Prog Trace (ℕ × List ℕ)
  unfolding emit give_up
  first_socket [] = give_up no_socket
  first_socket (address ∷ addresses) = elim (kernel.socket address) [
    | none ↦ emit (failed socket_call) >> first_socket addresses
    | some sockfd ↦
        if kernel.setsockopt sockfd
        then (do emit (socket_created sockfd); pure (sockfd, address))
        else give_up (failed setsockopt_call)
  ]

  -- One round of a loop that sends the same packet for ever; a failure is only reported.
  unfoldable pub send_once : List ℕ → List ℕ → Prog Trace (Unit {0})
  unfolding emit
  send_once packet address trace =
      if kernel.sendto (sent_to packet address ∷ trace)
      then (do emit (sent_to packet address); emit packet_sent) trace
      else (do emit (sent_to packet address); emit (failed sendto_call)) trace

  -- The first rounds of the loop.
  unfoldable pub send_rounds : ℕ → List ℕ → List ℕ → Prog Trace (Unit {0})
  unfolding send_once
  send_rounds zero packet address = pure tt
  send_rounds (suc n) packet address = do send_once packet address; send_rounds n packet address
