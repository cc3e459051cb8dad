-- ===== src/Sctp/Steps.antt =====
-- The steps that the programs of Lab04 share.
use pus.Base.{ℕ, ◌-◌, ◌%◌, ◌^◌, Bool, true, false, Option, none, some, List, [], ◌∷◌, ◌++◌, length}
use pus.Base.Int.{ℤ, to_unsigned}
use pus.Base.Text.{Text}
use pus.Base.Buffer.{zeros}
use pus.Base.Program.{Prog, returns, ◌>>=◌, ◌>>◌, pure, exit, exit_failure}
use pus.Sctp.{
  Call, socket_call, bind_call, setsockopt_call, listen_call, connect_call, sendmsg_call,
  getaddrinfo_call, could_not_connect, Event, printed, failed, opened, bound, initmsg, events_set,
  status_read, listening, connected, sent, Trace, Receipt, error, got, lookup_failed, no_result,
  found, Kernel, Info,
}

unfoldable pub emit : Event → Prog Trace (Unit {0})
emit event trace = returns tt (event ∷ trace)

-- Prints a message and ends the program.
unfoldable pub give_up : {A : Type 0} → Event → Prog Trace A
unfolding emit
give_up event = do emit event; exit exit_failure

-- The test behind a call, and what the call did if it succeeded.
unfoldable pub check : Bool → Call → Event → Prog Trace (Unit {0})
unfolding give_up emit
check true call event = emit event
check false call event = give_up (failed call)

-- `BUFF_SIZE`
abbrev pub buff_size : ℕ
buff_size = 256

-- The cleared buffer with a message in front.
unfoldable pub filled : List ℕ → List ℕ
filled bytes = bytes ++ zeros (buff_size - length bytes)

-- The buffer behind `sctp_recvmsg`, the length of the message (-1 is left out, like 0), and the
-- information, which was cleared.
unfoldable pub bytes_of : Receipt → List ℕ
bytes_of error = []
bytes_of (got bytes info) = bytes

unfoldable pub info_of : Receipt → Info
info_of error = record { stream = 0; assoc_id = 0; ssn = 0; sender = 0 }
info_of (got bytes info) = info

module _ (kernel : Kernel) where
  unfoldable pub open_socket : Prog Trace ℕ
  unfolding give_up
  open_socket trace = elim (kernel.socket trace) [
    | none ↦ give_up (failed socket_call) trace
    | some fd ↦ returns fd (opened fd ∷ trace)
  ]

  unfoldable pub set_initmsg : ℕ → ℕ → Prog Trace (Unit {0})
  unfolding check
  set_initmsg ostreams instreams trace =
      check (kernel.setsockopt trace) setsockopt_call (initmsg ostreams instreams) trace

  -- `htons` takes the port modulo 2^16.
  unfoldable pub bind_port : ℤ → Prog Trace (Unit {0})
  unfolding check
  bind_port port trace =
      check (kernel.bind_socket (to_unsigned port % 2 ^ 16) trace) bind_call
        (bound (to_unsigned port % 2 ^ 16)) trace

  unfoldable pub start_listening : Prog Trace (Unit {0})
  unfolding check
  start_listening trace = check (kernel.listen trace) listen_call (listening 5) trace

  -- The results of the two calls behind `connect` and in front of the loop are not looked at.
  unfoldable pub set_events : Prog Trace (Unit {0})
  unfolding emit
  set_events = do emit events_set; emit status_read

  unfoldable pub send_message : ℕ → Option ℕ → Text → ℕ → Prog Trace (Unit {0})
  unfolding check
  send_message fd to text stream trace =
      check (kernel.sendmsg fd to text stream trace) sendmsg_call (sent fd to text stream) trace

  unfoldable pub resolve : Text → Text → Prog Trace ℕ
  unfolding give_up
  resolve host port = elim (kernel.getaddrinfo host port) [
    | lookup_failed ↦ give_up (failed getaddrinfo_call)
    | no_result ↦ give_up (printed could_not_connect)
    | found address ↦ pure address
  ]

  -- From `getaddrinfo` to the loop of a client.
  unfoldable pub connect_client : ℕ → Text → Text → Prog Trace ℕ
  unfolding resolve open_socket set_initmsg set_events check
  connect_client streams host port = do
    address ← resolve host port
    fd ← open_socket
    set_initmsg streams streams
    λ trace. check (kernel.connect address trace) connect_call connected trace
    set_events
    pure fd
