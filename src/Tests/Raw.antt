-- ===== src/Tests/Raw.antt =====
-- Runs of the programs of Lab03.
use pus.Base.{
  ℕ, ◌%◌, ◌^◌, ◌≡◌, ◌≢◌, refl, true, none, some, List, [], ◌∷◌, ◌++◌, take, drop, ◌==◌,
  if◌then◌else◌, length, arith,
}
use pus.Base.Int.{pos, to_unsigned}
use pus.Base.Text.{codes, atoi}
use pus.Base.Program.{ok, returns, exits, faults, uninitialised}
use pus.Checksum.{internet_checksum}
use pus.Raw.{Kernel, InAddr, Trace, started, printed}
use pus.Raw.Steps.{sin_addr}
use pus.Raw.Traces.{sends, repeated, are_skipped}
use pus.Raw.Tcp
use pus.Raw.Tcp.Laws as TcpLaws
use pus.Raw.Tcp.Laws.{tcp_sends}
use pus.Raw.Udp6
use pus.Raw.Udp6.Laws as UdpLaws
use pus.Raw.Udp6.Laws.{udp_sends, sockaddr_in6}
use pus.Raw.Ping.{main_process, receive_loop, child_process}
use pus.Raw.Ping.Laws.{
  AreEchoes, requests, ping_sends, IpFront, Reply, receipts, shown_of, ping_shows,
}

-- 127.0.0.1 as a `struct sockaddr_in`.
abbrev localhost : List ℕ
localhost = 2 ∷ 0 ∷ 0 ∷ 0 ∷ 127 ∷ 0 ∷ 0 ∷ 1 ∷ []

abbrev loopback : InAddr
loopback = record { a = 127; b = 0; c = 0; d = 1 }

-- A `struct sockaddr_in6` with the flow information 0 1 2 3.
abbrev flow : InAddr
flow = record { a = 0; b = 1; c = 2; d = 3 }

abbrev host6 : List ℕ
host6 = 32 ∷ 1 ∷ 13 ∷ 184 ∷ []

-- An address of one byte gives no socket.
abbrev kernel : Kernel
kernel = record {
  getaddrinfo = λ host. some (
      if length host == 3
      then (1 ∷ []) ∷ sockaddr_in6 10 0 0 0 flow host6 ∷ []
      else (1 ∷ []) ∷ localhost ∷ []);
  socket = λ address. if length address == 1 then none else some 3;
  setsockopt = λ sockfd. true;
  sendto = λ trace. true;
}

-- The packet to port 80 of 127.0.0.1.
packet_run :
    Tcp.packet loopback 80
    ≡ ok (
        69 ∷ 0 ∷ 40 ∷ 0 ∷ 0 ∷ 0 ∷ 0 ∷ 0 ∷ 255 ∷ 6 ∷ 82 ∷ 76 ∷ 192 ∷ 168 ∷ 2 ∷ 2 ∷ 127 ∷ 0 ∷ 0 ∷ 1
        ∷ 26 ∷ 10 ∷ 0 ∷ 80 ∷ 0 ∷ 0 ∷ 0 ∷ 0 ∷ 0 ∷ 0 ∷ 0 ∷ 0 ∷ 80 ∷ 2 ∷ 22 ∷ 208 ∷ 61 ∷ 13 ∷ 0 ∷ 0
        ∷ [])
unfolding Tcp.packet internet_checksum
packet_run = refl

skips : are_skipped kernel ((1 ∷ []) ∷ []) ≡ true
unfolding are_skipped
skips = refl

port_80 : atoi (codes "80") ≡ ok (pos 80)
unfolding atoi
port_80 = refl

tcp_sends_example :
    (bytes : List ℕ) × (t : Trace) × (Tcp.packet loopback (to_unsigned (pos 80) % 2 ^ 16)
      ≡ ok bytes)
    × (length bytes ≡ 40)
    × (take 8 (drop 12 bytes) ≡ 192 ∷ 168 ∷ 2 ∷ 2 ∷ 127 ∷ 0 ∷ 0 ∷ 1 ∷ [])
    × (take 4 (drop 20 bytes) ≡ 26 ∷ 10 ∷ 0 ∷ 80 ∷ [])
    × (take 1 (drop 33 bytes) ≡ 2 ∷ [])
    × TcpLaws.Verifies bytes
    × (Tcp.main kernel 2 (codes "tcp" ∷ codes "host" ∷ codes "80" ∷ []) [] ≡ returns tt t)
    × (sends t ≡ repeated 2 (bytes, localhost) ++ sends [])
unfolding sin_addr to_unsigned
tcp_sends_example =
    tcp_sends kernel (codes "tcp") (codes "host") (codes "80") ((1 ∷ []) ∷ []) [] localhost 3 2
      loopback (pos 80) [] refl skips refl refl refl (omega arith) port_80

udp_sends_example :
    (sum : ℕ) × (t : Trace) × (sum ≢ 0)
    × UdpLaws.Verifies flow (UdpLaws.sent_bytes (to_unsigned (pos 80) % 2 ^ 16) sum)
    × (Udp6.main kernel 2 (codes "udp" ∷ codes "ip6" ∷ codes "80" ∷ []) [] ≡ returns tt t)
    × (sends t
        ≡ repeated 2 (
          UdpLaws.sent_bytes (to_unsigned (pos 80) % 2 ^ 16) sum,
          sockaddr_in6 10 0 0 0 flow host6,
        )
          ++ sends [])
udp_sends_example =
    udp_sends kernel (codes "udp") (codes "ip6") (codes "80") ((1 ∷ []) ∷ []) [] 10 0 0 0 flow host6
      3 2 (pos 80) [] refl skips refl refl (omega arith) port_80

abbrev letter : ℕ → ℕ → ℕ
letter k j = 65

ping_sends_example :
    (sent : List (List ℕ × List ℕ)) × (t : Trace) × (main_process kernel letter 300 localhost []
      ≡ exits 0 t)
    × (requests t ≡ requests [] ++ sent)
    × (length sent ≡ 4)
    × AreEchoes kernel letter 300 localhost 1 sent
ping_sends_example = ping_sends kernel letter 300 localhost [] (λ t. refl) (λ k j. omega arith)

abbrev front : IpFront
front = record {
  version_length = 69;
  tos = 0;
  len0 = 0;
  len1 = 60;
  id0 = 0;
  id1 = 0;
  off0 = 0;
  off1 = 0;
  ttl = 64;
  protocol = 1;
  sum0 = 0;
  sum1 = 0;
}

abbrev reply : ℕ → Reply
reply number = record {
  front = front;
  source = loopback;
  destination = loopback;
  checksum = 0;
  pid = 300;
  number = number;
  letter = letter 1;
}

abbrev replies : List Reply
replies = reply 1 ∷ reply 2 ∷ reply 3 ∷ reply 4 ∷ []

ping_shows_example :
    child_process (receipts replies) []
    ≡ exits 0 (
        printed (shown_of (reply 4))
        ∷ printed (shown_of (reply 3))
        ∷ printed (shown_of (reply 2))
        ∷ printed (shown_of (reply 1))
        ∷ started
        ∷ [])
ping_shows_example = ping_shows replies [] refl

-- Packet 1 is shown as packet 256.
shown_256 : (shown_of (reply 1)).sequence ≡ 256
shown_256 = refl

-- A first `recvfrom` that fails.
nothing_received : receive_loop 4 (none ∷ []) [] [] ≡ faults uninitialised
unfolding receive_loop
nothing_received = refl
