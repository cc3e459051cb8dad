-- ===== src/Sctp/Client2/Laws.antt =====
-- What Lab04/zad2/client2.c prints.
use pus.Base.{ℕ, ◌≡◌, refl, true, List, [], ◌∷◌, ◌<◌, length, arith}
use pus.Base.Text.{Text, is_text}
use pus.Base.Program.{returns, exits, faults, exit_success, out_of_bounds}
use pus.Sctp.{
  Info, Trace, Receipt, got, Kernel, status, numbered, printed, received, opened, initmsg,
  connected, events_set, status_read, closed,
}
use pus.Sctp.Steps.{
  emit, check, open_socket, set_initmsg, set_events, resolve, connect_client, buff_size,
}
use pus.Sctp.Traces.{printed_lines, Succeeds, c_string-filled}
use pus.Sctp.Client2.{terminated, show, next_receipt, rest, loop, run, main}

-- A message that is not empty, has no NUL and leaves room for one.
abbrev pub IsShown : List ℕ → Type 0
IsShown bytes = (0 < length bytes) × (is_text bytes ≡ true) × (length bytes < buff_size)

pub show_lem :
    (bytes : List ℕ) (info : Info) (s : Trace)
    → IsShown bytes
    → show (got bytes info) s ≡ returns tt (printed (numbered info.stream bytes) ∷ s)
unfolding show terminated emit
show_lem [] info s shown = absurd (omega (arith, shown.0))
show_lem (c ∷ bytes) info s shown = ground (arith, c_string-filled (c ∷ bytes))

module _ (kernel : Kernel) (v : Succeeds kernel) where
  abbrev pub connected_trace : ℕ → Trace
  connected_trace streams =
      status_read ∷ events_set ∷ connected ∷ initmsg streams streams ∷ opened v.fd ∷ []

  pub connect_client_lem :
      (streams : ℕ) (host port : Text)
      → connect_client kernel streams host port [] ≡ returns v.fd (connected_trace streams)
  unfolding connect_client resolve open_socket set_initmsg set_events check emit
  connect_client_lem streams host port = ground (
    arith,
    v.resolves host port,
    v.opens [],
    v.sets (opened v.fd ∷ []),
    v.connects (initmsg streams streams ∷ opened v.fd ∷ []),
  )

  -- Where every call succeeds and two messages come that are not empty, have no NUL and leave room
  -- for one, the client prints the status and the two messages, each with its stream and in order,
  -- and ends with success.
  pub client2_shows :
      (name host port b1 b2 : Text) (i1 i2 : Info) (more : List Receipt)
      → IsShown b1
      → IsShown b2
      → (t : Trace) × (main kernel (name ∷ host ∷ port ∷ []) (got b1 i1 ∷ got b2 i2 ∷ more) []
          ≡ exits exit_success t)
        × (printed_lines t ≡ numbered i2.stream b2 ∷ numbered i1.stream b1 ∷ status ∷ [])
  unfolding main run loop emit next_receipt rest printed_lines
  client2_shows name host port b1 b2 i1 i2 more h1 h2 =
      let s1 : Trace = received ∷ printed status ∷ connected_trace 3 in
      let s2 : Trace = received ∷ printed (numbered i1.stream b1) ∷ s1 in
      (
        closed v.fd ∷ printed (numbered i2.stream b2) ∷ s2,
        ground (arith, connect_client_lem 3 host port, show_lem b1 i1 s1 h1, show_lem b2 i2 s2 h2),
        refl,
      )

  -- Where every call succeeds, a first message that fills the buffer makes the client write its NUL
  -- behind the buffer.
  pub client2_overflow :
      (name host port bytes : Text) (info : Info) (more : List Receipt)
      → length bytes ≡ buff_size
      → main kernel (name ∷ host ∷ port ∷ []) (got bytes info ∷ more) [] ≡ faults out_of_bounds
  unfolding main run loop emit next_receipt rest show terminated
  client2_overflow name host port [] info more h = absurd (omega (arith, h))
  client2_overflow name host port (c ∷ bytes) info more h =
      ground (arith, connect_client_lem 3 host port)
