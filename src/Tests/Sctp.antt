-- ===== src/Tests/Sctp.antt =====
-- Runs of the SCTP programs of Lab04, in a system in which every call succeeds.
use pus.Base.{
  ℕ, ◌≡◌, refl, true, some, List, [], ◌∷◌, ◌++◌, map, reverse, length, arith, ◌<◌, if◌then◌else◌,
}
use pus.Base.Int.{pos, to_unsigned}
use pus.Base.Text.{codes, atoi, is_text, decimal, str_eq}
use pus.Base.Program.{
  ok, returns, exits, faults, exit_success, out_of_bounds, uninitialised, holds, is_defined,
}
use pus.Base.Buffer.{zeros}
use pus.Sctp.{
  listening, initmsg, bound, opened, Info, Trace, Receipt, error, got, Kernel, Tm, found, status,
  numbered, closed,
}
use pus.Sctp.Steps.{buff_size, bytes_of, info_of}
use pus.Sctp.Traces.{Message, Succeeds, sent_messages, streams_below, printed_lines}
use pus.Sctp.Server2
use pus.Sctp.Server2.{date_text, int_sum, joined}
use pus.Sctp.Server2.Laws.{served, server2_sends, server2_defined}
use pus.Sctp.Server3
use pus.Sctp.Server3.{next, ostreams}
use pus.Sctp.Server3.Laws.{is_got, stream_for, reply, mode_number, server3_replies, server3_streams}
use pus.Sctp.Client2
use pus.Sctp.Client2.Laws.{client2_shows, client2_overflow, connected_trace}
use pus.Sctp.Client3
use pus.Sctp.Client3.Laws.{client3_first_line}

abbrev noon : Tm
noon = record { day = 9; month = 10; year = 117; hour = 12; minute = 0; second = 5 }

abbrev kernel : Kernel
kernel = record {
  getaddrinfo = λ host port. found 7;
  socket = λ trace. some 3;
  bind_socket = λ port trace. true;
  setsockopt = λ trace. true;
  listen = λ trace. true;
  connect = λ address trace. true;
  accept = λ trace. some 4;
  sendmsg = λ fd to text stream trace. true;
  clock = λ trace. some noon;
}

abbrev succeeds : Succeeds kernel
succeeds = record {
  fd = 3;
  address = 7;
  resolves = λ host port. refl;
  opens = λ trace. refl;
  binds = λ port trace. refl;
  sets = λ trace. refl;
  listens = λ trace. refl;
  connects = λ trace. refl;
  sends = λ socket to text stream trace. refl;
}

port_number : atoi (codes "80") ≡ ok (pos 80)
unfolding atoi
port_number = refl

second_choice : atoi (codes "1") ≡ ok (pos 1)
unfolding atoi
second_choice = refl

date_at_noon : date_text noon ≡ ok (codes "Aktualna data: 9.11.2017")
unfolding date_text int_sum joined decimal
date_at_noon = refl

abbrev on_stream : ℕ → Info
on_stream stream = record { stream = stream; assoc_id = 1; ssn = 0; sender = 9 }

abbrev hello : List Receipt
hello = got (codes "ala") (on_stream 3) ∷ got (codes "ma") (on_stream 4) ∷ []

ala_text : (is_text (codes "ala") ≡ true) × (is_text (codes "ma") ≡ true)
unfolding is_text
ala_text = (refl, refl)

readable :
    (is_got (got (codes "ala") (on_stream 3)) ≡ true)
    × (is_text (bytes_of (got (codes "ala") (on_stream 3))) ≡ true)
    × (length (bytes_of (got (codes "ala") (on_stream 3))) < buff_size)
unfolding is_text bytes_of
readable = (refl, refl, omega arith)

readable_too :
    (is_got (got (codes "ma") (on_stream 4)) ≡ true)
    × (is_text (bytes_of (got (codes "ma") (on_stream 4))) ≡ true)
    × (length (bytes_of (got (codes "ma") (on_stream 4))) < buff_size)
unfolding is_text bytes_of
readable_too = (refl, refl, omega arith)

server3_replies_example :
    (t : Trace) × (Server3.main kernel (codes "server3" ∷ codes "80" ∷ codes "1" ∷ []) hello []
      ≡ returns tt t)
    × (sent_messages t ≡ reverse (map (reply 3 next) hello))
unfolding mode_number
server3_replies_example =
    server3_replies kernel succeeds (codes "server3") (codes "80") (codes "1") next hello
      port_number second_choice (readable, (readable_too, tt))

server3_streams_example :
    holds
      (streams_below ostreams)
      (Server3.main kernel (codes "server3" ∷ codes "80" ∷ codes "1" ∷ []) (hello ++ error ∷ []) [])
    ≡ true
server3_streams_example =
    server3_streams kernel (codes "server3") (codes "80") (codes "1") (hello ++ error ∷ [])
      second_choice

-- The reply to a message on the last stream goes to the first.
abbrev wrapped : List Message
wrapped =
    record { socket = 3; to = some 9; text = codes "ala"; stream = 4 }
    ∷ record { socket = 3; to = some 9; text = codes "ma"; stream = 0 }
    ∷ []

replies_wrap : map (reply 3 next) hello ≡ wrapped
unfolding reply stream_for bytes_of info_of
replies_wrap = refl

-- The sockets of two clients.
abbrev two_clients : Kernel
two_clients = record kernel { accept = λ trace. some (length trace) }

abbrev all_succeed : Succeeds two_clients
all_succeed = record {
  fd = 3;
  address = 7;
  resolves = λ host port. refl;
  opens = λ trace. refl;
  binds = λ port trace. refl;
  sets = λ trace. refl;
  listens = λ trace. refl;
  connects = λ trace. refl;
  sends = λ socket to text stream trace. refl;
}

server2_sends_example :
    Server2.main two_clients (codes "server2" ∷ codes "80" ∷ []) 2 []
    ≡ returns tt (
        served
          (λ t. length t)
          (λ t. noon)
          2
          (listening 5 ∷ initmsg 3 50 ∷ bound 80 ∷ opened 3 ∷ []))
unfolding to_unsigned
server2_sends_example =
    server2_sends two_clients (λ t. noon) (λ t. refl) (λ t. (omega arith, omega arith)) all_succeed
      (λ t. length t) (λ t. refl) (codes "server2") (codes "80") 2 port_number

server2_defined_example :
    is_defined (Server2.main kernel (codes "server2" ∷ codes "80" ∷ []) 2 []) ≡ true
server2_defined_example =
    server2_defined kernel (λ t. noon) (λ t. refl) (λ t. (omega arith, omega arith))
      (codes "server2") (codes "80") 2 port_number

client2_shows_example :
    (t : Trace) × (Client2.main kernel
        (codes "client2" ∷ codes "host" ∷ codes "80" ∷ [])
        (got (codes "ala") (on_stream 0) ∷ got (codes "ma") (on_stream 1) ∷ [])
        []
      ≡ exits exit_success t)
    × (printed_lines t ≡ numbered 1 (codes "ma") ∷ numbered 0 (codes "ala") ∷ status ∷ [])
client2_shows_example =
    client2_shows kernel succeeds (codes "client2") (codes "host") (codes "80") (codes "ala")
      (codes "ma") (on_stream 0) (on_stream 1) [] (omega arith, ala_text.0, omega arith)
      (omega arith, ala_text.1, omega arith)

client2_overflow_run :
    Client2.main kernel
      (codes "client2" ∷ codes "host" ∷ codes "80" ∷ [])
      (got (zeros 256) (on_stream 0) ∷ [])
      []
    ≡ faults out_of_bounds
client2_overflow_run =
    client2_overflow kernel succeeds (codes "client2") (codes "host") (codes "80") (zeros 256)
      (on_stream 0) [] (omega arith)

client3_first_line_run :
    Client3.main kernel (codes "client3" ∷ codes "host" ∷ codes "80" ∷ []) (codes "ala" ∷ []) [] []
    ≡ (if str_eq (codes "ala") (b'\n' ∷ [])
        then exits exit_success (closed 3 ∷ connected_trace kernel succeeds 5)
        else faults uninitialised)
client3_first_line_run =
    client3_first_line kernel succeeds (codes "client3") (codes "host") (codes "80") (codes "ala")
      [] []
