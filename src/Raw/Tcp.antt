-- ===== src/Raw/Tcp.antt =====
-- Lab03/zad3/tcp.c, which sends a TCP segment with SYN in an IP packet of its own. The checksum.h
-- that it includes is not beside it: the function is taken to be that of Lab03/zad4/checksum.h.
pub mod Laws
use pus.Base.{ℕ, zero, suc, ◌+◌, ◌*◌, ◌/◌, ◌%◌, ◌^◌, none, some, Option, List, [], ◌∷◌, ◌++◌, take}
use pus.Base.Int.{ℤ, to_unsigned}
use pus.Base.Text.{Text, atoi}
use pus.Base.Buffer.{zeros}
use pus.Base.Program.{Prog, Result, ok, bind, ◌>>=◌, ◌>>◌, pure, lift}
use pus.Checksum.{internet_checksum}
use pus.Raw.{getaddrinfo_call, usage, failed, started, Trace, Kernel, InAddr}
use pus.Raw.Steps.{
  emit, give_up, short_bytes, htons, addr_bytes, sin_addr, first_socket, send_rounds,
}

-- `struct ip`; `ip_len`, `ip_id`, `ip_off` and `ip_sum` as they are stored
pub record IpHeader : Type 0 where
  pub ip_hl : ℕ
  pub ip_v : ℕ
  pub ip_tos : ℕ
  pub ip_len : ℕ
  pub ip_id : ℕ
  pub ip_off : ℕ
  pub ip_ttl : ℕ
  pub ip_p : ℕ
  pub ip_sum : ℕ
  pub ip_src : InAddr
  pub ip_dst : InAddr

-- `struct tcphdr`; the numbers of two bytes as they are stored
pub record TcpHeader : Type 0 where
  pub source : ℕ
  pub dest : ℕ
  pub seq : ℕ
  pub ack_seq : ℕ
  pub doff : ℕ
  pub fin : ℕ
  pub syn : ℕ
  pub rst : ℕ
  pub psh : ℕ
  pub ack : ℕ
  pub urg : ℕ
  pub window : ℕ
  pub check : ℕ
  pub urg_ptr : ℕ

-- `struct phdr`
pub record PseudoHeader : Type 0 where
  pub ip_src : InAddr
  pub ip_dst : InAddr
  pub unused : ℕ
  pub protocol : ℕ
  pub length : ℕ
  pub tcp : TcpHeader

unfoldable pub ip_bytes : IpHeader → List ℕ
ip_bytes h =
    (h.ip_hl + 16 * h.ip_v)
    ∷ h.ip_tos
    ∷ (short_bytes h.ip_len
        ++ (short_bytes h.ip_id
            ++ (short_bytes h.ip_off
                ++ (h.ip_ttl
                    ∷ h.ip_p
                    ∷ (short_bytes h.ip_sum ++ (addr_bytes h.ip_src ++ addr_bytes h.ip_dst))))))

unfoldable pub word_bytes : ℕ → List ℕ
word_bytes n = short_bytes (n % 2 ^ 16) ++ short_bytes (n / 2 ^ 16)

-- The bits that are not named are 0, like all the rest of `datagram` at first.
unfoldable pub tcp_bytes : TcpHeader → List ℕ
unfolding word_bytes
tcp_bytes t =
    short_bytes t.source
    ++ (short_bytes t.dest
        ++ (word_bytes t.seq
            ++ (word_bytes t.ack_seq
                ++ (16 * t.doff
                    ∷ (t.fin + 2 * t.syn + 4 * t.rst + 8 * t.psh + 16 * t.ack + 32 * t.urg)
                    ∷ (short_bytes t.window ++ (short_bytes t.check ++ short_bytes t.urg_ptr))))))

unfoldable pub pseudo_bytes : PseudoHeader → List ℕ
unfolding tcp_bytes
pseudo_bytes p =
    addr_bytes p.ip_src
    ++ (addr_bytes p.ip_dst ++ (p.unused ∷ p.protocol ∷ (short_bytes p.length ++ tcp_bytes p.tcp)))

-- `inet_addr("192.168.2.2")`
abbrev pub source_address : InAddr
source_address = record { a = 192; b = 168; c = 2; d = 2 }

abbrev pub source_port : ℕ
source_port = 6666

-- The checksum is taken over the header with the sum that is in the datagram before, which is 0.
unfoldable pub ip_create : InAddr → Result IpHeader
unfolding ip_bytes
ip_create destination =
    let header : IpHeader = record {
      ip_hl = 5;
      ip_v = 4;
      ip_tos = 0;
      ip_len = 40;
      ip_id = 0;
      ip_off = 0;
      ip_ttl = 255;
      ip_p = 6;
      ip_sum = 0;
      ip_src = source_address;
      ip_dst = destination;
    } in
    bind (internet_checksum (ip_bytes header) 20) λ sum. ok (record header { ip_sum = sum })

unfoldable pub tcp_create : ℕ → TcpHeader
tcp_create port = record {
  source = htons source_port;
  dest = htons port;
  seq = 0;
  ack_seq = 0;
  doff = 5;
  fin = 0;
  syn = 1;
  rst = 0;
  psh = 0;
  ack = 0;
  urg = 0;
  window = htons 5840;
  check = 0;
  urg_ptr = 0;
}

-- With the copy of the TCP header.
unfoldable pub pseudo_create : IpHeader → TcpHeader → PseudoHeader
pseudo_create header tcp = record {
  ip_src = header.ip_src;
  ip_dst = header.ip_dst;
  unused = 0;
  protocol = 6;
  length = htons 20;
  tcp = tcp;
}

-- The 72 bytes of `datagram`.
unfoldable pub datagram : IpHeader → TcpHeader → List ℕ
unfolding ip_bytes tcp_bytes
datagram header tcp = ip_bytes header ++ (tcp_bytes tcp ++ zeros 32)

-- From `ip_create` to the checksum, for a port as `htons` takes it.
unfoldable pub packet : InAddr → ℕ → Result (List ℕ)
unfolding ip_create tcp_create pseudo_create pseudo_bytes datagram
packet destination port = bind (ip_create destination) λ header.
    bind (internet_checksum (pseudo_bytes (pseudo_create header (tcp_create port))) 32) λ check.
      ok (take header.ip_len (datagram header (record (tcp_create port) { check = check })))

module _ (kernel : Kernel) where
  unfoldable pub send_all : ℕ → Text → ℕ × List ℕ → Prog Trace (Unit {0})
  unfolding emit sin_addr packet send_rounds
  send_all rounds arg (sockfd, address) = do
    destination ← lift (sin_addr address)
    port ← lift (atoi arg)
    bytes ← lift (packet destination (to_unsigned port % 2 ^ 16))
    emit started
    send_rounds kernel rounds bytes address

  unfoldable pub with_addresses : ℕ → Text → Option (List (List ℕ)) → Prog Trace (Unit {0})
  unfolding give_up first_socket send_all
  with_addresses rounds arg none = give_up (failed getaddrinfo_call)
  with_addresses rounds arg (some addresses) = do
    opened ← first_socket kernel addresses
    send_all rounds arg opened

  -- The loop that sends is followed for a number of rounds.
  unfoldable pub main : ℕ → List Text → Prog Trace (Unit {0})
  unfolding give_up with_addresses
  main rounds (program ∷ host ∷ port ∷ []) = with_addresses rounds port (kernel.getaddrinfo host)
  main rounds argv = give_up usage
