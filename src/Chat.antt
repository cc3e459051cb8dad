-- ===== src/Chat.antt =====
-- Lab01/zad4/server4.cpp, a chat server on `select`. What the system answers in a round of the loop is
-- a record; a run that waits for another round `returns`. The text of a message is what is sent, and
-- what is printed stands as an event.
pub mod Laws
use pus.Base.{
  ℕ, zero, suc, ◌%◌, ◌^◌, Bool, true, false, ◌&&◌, ◌||◌, Option, none, some, List, [], ◌∷◌, ◌++◌,
  ◌==◌, if◌then◌else◌,
}
use pus.Base.Int.{to_unsigned}
use pus.Base.Text.{Text, codes, atoi, c_string, decimal}
use pus.Base.Buffer.{overwrite, zeros}
use pus.Base.Program.{
  Prog, returns, ◌>>=◌, ◌>>◌, pure, lift, exit, exit_failure, fault, out_of_bounds,
}

pub data Call : Type 0 where
  socket_call bind_call listen_call select_call accept_call send_call : Call

pub data Event : Type 0 where
  usage : Event
  failed : Call → Event
  bound : ℕ → Event
  is_listening : Event
  client_connected : ℕ → Event
  greeted : ℕ → Event
  client_left : ℕ → Event
  socket_closed : ℕ → Event
  heard : ℕ → Text → Event
  sent_to : ℕ → Text → Event

-- The latest event is first.
abbrev pub Trace : Type 0
Trace = List Event

-- The vector of the clients' descriptors, and the events.
pub record State : Type 0 where
  pub clients : List ℕ
  pub trace : Trace

-- What `read` gives; no bytes stand for a client that has left.
pub data Reading : Type 0 where
  read_error : Reading
  bytes : List ℕ → Reading

-- What the system answers in a round: whether `select` fails for another reason than a signal, which
-- of the watched descriptors are ready, what `accept` gives, whether the whole greeting is sent, and
-- what is read from each client.
pub record Round : Type 0 where
  pub select_failed : Bool
  pub ready : ℕ → Bool
  pub accepted : Option ℕ
  pub is_greeted : Bool
  pub reads : ℕ → Reading

pub record Kernel : Type 0 where
  pub socket : Option ℕ
  pub bind_socket : ℕ → Bool
  pub listen : Bool

abbrev pub buffer_size : ℕ
buffer_size = 256

unfoldable pub emit : Event → Prog State (Unit {0})
emit event s = returns tt (record s { trace = event ∷ s.trace })

unfoldable pub give_up : Event → Prog State (Unit {0})
unfolding emit
give_up event = do emit event; exit exit_failure

unfoldable pub is_member : ℕ → List ℕ → Bool
is_member fd [] = false
is_member fd (a ∷ fds) = a == fd || is_member fd fds

-- `FD_ISSET` behind `select`
unfoldable pub is_set : Round → List ℕ → ℕ → Bool
unfolding is_member
is_set r watched fd = is_member fd watched && r.ready fd

unfoldable pub push_back : ℕ → Prog State (Unit {0})
push_back fd s = returns tt (record s { clients = s.clients ++ fd ∷ [] })

unfoldable pub greet : Round → Option ℕ → Prog State (Unit {0})
unfolding emit give_up push_back
greet r none = give_up (failed accept_call)
greet r (some fd) = do
  emit (client_connected fd)
  if r.is_greeted then (do emit (greeted fd); push_back fd) else give_up (failed send_call)

unfoldable pub check_for_new_connection : Round → List ℕ → ℕ → Prog State (Unit {0})
unfolding is_set greet
check_for_new_connection r watched listener =
    if is_set r watched listener then greet r r.accepted else pure tt

unfoldable pub message : ℕ → Text → Text
message fd text = codes "<client " ++ decimal fd ++ codes ">: " ++ text

unfoldable pub broadcast : List ℕ → ℕ → Text → Prog State (Unit {0})
unfolding emit
broadcast [] fd text = pure tt
broadcast (client ∷ clients) fd text = do
  if client == fd then pure tt else emit (sent_to client text)
  broadcast clients fd text

-- Prints the text in the buffer and sends it to the other clients.
unfoldable pub speak : ℕ → List ℕ → Prog State (Unit {0})
unfolding emit broadcast message
speak fd buffer = do
  text ← lift (c_string buffer)
  emit (heard fd text)
  λ s. broadcast s.clients fd (message fd text) s

-- A client that left is erased from the vector that the loop runs over, whose iterator may not be
-- used any more.
unfoldable pub leave : ℕ → Prog State (Unit {0})
unfolding emit
leave fd = do emit (client_left fd); emit (socket_closed fd); fault out_of_bounds

-- What is read from one client, and the buffer that it leaves for the next.
unfoldable pub hear : ℕ → Reading → List ℕ → Prog State (List ℕ)
unfolding speak leave overwrite
hear fd read_error buffer = do speak fd buffer; pure buffer
hear fd (bytes []) buffer = do leave fd; pure buffer
hear fd (bytes (c ∷ text)) buffer = do
  speak fd (overwrite buffer_size (c ∷ text) buffer)
  pure (overwrite buffer_size (c ∷ text) buffer)

-- The loop over the clients.
unfoldable pub check_clients : Round → List ℕ → List ℕ → List ℕ → Prog State (Unit {0})
unfolding is_set hear
check_clients r watched [] buffer = pure tt
check_clients r watched (fd ∷ fds) buffer = elim (is_set r watched fd) [
  | false ↦ check_clients r watched fds buffer
  | true ↦ hear fd (r.reads fd) buffer >>= λ left. check_clients r watched fds left
]

unfoldable pub check_connected_clients : Round → List ℕ → Prog State (Unit {0})
unfolding check_clients
check_connected_clients r watched s = check_clients r watched s.clients (zeros buffer_size) s

unfoldable pub round : ℕ → Round → Prog State (Unit {0})
unfolding give_up check_for_new_connection check_connected_clients
round listener r s =
    if r.select_failed
    then give_up (failed select_call) s
    else (do
      check_for_new_connection r (listener ∷ s.clients) listener
      check_connected_clients r (listener ∷ s.clients))
        s

unfoldable pub loop : ℕ → List Round → Prog State (Unit {0})
unfolding round
loop listener [] = pure tt
loop listener (r ∷ rounds) = do round listener r; loop listener rounds

module _ (kernel : Kernel) where
  open kernel use {socket, bind_socket, listen}

  unfoldable pub serve : ℕ → Text → List Round → Prog State (Unit {0})
  unfolding emit give_up loop
  serve listener arg rounds = do
    port ← lift (atoi arg)
    if bind_socket (to_unsigned port % 2 ^ 16)
        then emit (bound (to_unsigned port % 2 ^ 16))
        else give_up (failed bind_call)
    if listen then emit is_listening else give_up (failed listen_call)
    loop listener rounds

  unfoldable pub main : List Text → List Round → Prog State (Unit {0})
  unfolding give_up serve
  main (program ∷ arg ∷ []) rounds = elim socket [
    | none ↦ give_up (failed socket_call)
    | some listener ↦ serve listener arg rounds
  ]
  main argv rounds = give_up usage
