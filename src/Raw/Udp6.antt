-- ===== src/Raw/Udp6.antt =====
-- Lab03/zad4/udpv6.c, which sends an empty UDP datagram over IPv6.
pub mod Laws
use pus.Base.{ℕ, ◌%◌, ◌^◌, ◌==◌, if◌then◌else◌, none, some, Option, List, [], ◌∷◌, ◌++◌, take}
use pus.Base.Int.{to_unsigned}
use pus.Base.Text.{Text, atoi}
use pus.Base.Program.{Prog, Result, ok, bind, ◌>>=◌, ◌>>◌, lift}
use pus.Checksum.{internet_checksum}
use pus.Raw.{getaddrinfo_call, usage, failed, started, Trace, Kernel, InAddr}
use pus.Raw.Steps.{
  emit, give_up, short_bytes, htons, addr_bytes, sin_addr, first_socket, send_rounds,
}

-- `struct udphdr`, the numbers as they are stored
pub record UdpHeader : Type 0 where
  pub uh_sport : ℕ
  pub uh_dport : ℕ
  pub uh_ulen : ℕ
  pub uh_sum : ℕ

-- `struct phdr`, which has no source address
pub record PseudoHeader : Type 0 where
  pub ip_dst : InAddr
  pub unused : ℕ
  pub protocol : ℕ
  pub length : ℕ

unfoldable pub udp_bytes : UdpHeader → List ℕ
udp_bytes u =
    short_bytes u.uh_sport
    ++ (short_bytes u.uh_dport ++ (short_bytes u.uh_ulen ++ short_bytes u.uh_sum))

unfoldable pub pseudo_bytes : PseudoHeader → List ℕ
pseudo_bytes p = addr_bytes p.ip_dst ++ (p.unused ∷ p.protocol ∷ short_bytes p.length)

-- The 16 bytes of `datagram`, which hold both headers.
unfoldable pub datagram : UdpHeader → PseudoHeader → List ℕ
unfolding udp_bytes pseudo_bytes
datagram u p = udp_bytes u ++ pseudo_bytes p

-- A sum of 0 is sent as 0xffff.
unfoldable pub stored_sum : ℕ → ℕ
stored_sum checksum = if checksum == 0 then 65535 else checksum

-- The 8 bytes that are sent, for a port as `htons` takes it.
unfoldable pub packet : InAddr → ℕ → Result (List ℕ)
unfolding datagram stored_sum
packet destination port =
    let udp : UdpHeader = record {
      uh_sport = 0;
      uh_dport = htons port;
      uh_ulen = htons 8;
      uh_sum = 0;
    } in
    let pseudo : PseudoHeader = record {
      ip_dst = destination;
      unused = 0;
      protocol = 17;
      length = udp.uh_ulen;
    } in
    bind (internet_checksum (datagram udp pseudo) 16)
      λ checksum. ok (take 8 (datagram (record udp { uh_sum = stored_sum checksum }) pseudo))

module _ (kernel : Kernel) where
  unfoldable pub creating_and_setting_socket : List (List ℕ) → Prog Trace (ℕ × List ℕ)
  unfolding first_socket
  creating_and_setting_socket addresses = first_socket kernel addresses

  -- The loop is followed for a number of rounds.
  unfoldable pub sending_empty_datagram : ℕ → List ℕ → List ℕ → Prog Trace (Unit {0})
  unfolding emit send_rounds
  sending_empty_datagram rounds bytes address = do
    emit started
    send_rounds kernel rounds bytes address

  -- The address is a `struct sockaddr_in6`, and is read as a `struct sockaddr_in`.
  unfoldable pub send_all : ℕ → Text → ℕ × List ℕ → Prog Trace (Unit {0})
  unfolding sin_addr packet sending_empty_datagram
  send_all rounds arg (sockfd, address) = do
    port ← lift (atoi arg)
    destination ← lift (sin_addr address)
    bytes ← lift (packet destination (to_unsigned port % 2 ^ 16))
    sending_empty_datagram rounds bytes address

  unfoldable pub with_addresses : ℕ → Text → Option (List (List ℕ)) → Prog Trace (Unit {0})
  unfolding give_up creating_and_setting_socket send_all
  with_addresses rounds arg none = give_up (failed getaddrinfo_call)
  with_addresses rounds arg (some addresses) = do
    opened ← creating_and_setting_socket addresses
    send_all rounds arg opened

  unfoldable pub main : ℕ → List Text → Prog Trace (Unit {0})
  unfolding give_up with_addresses
  main rounds (program ∷ host ∷ port ∷ []) = with_addresses rounds port (kernel.getaddrinfo host)
  main rounds argv = give_up usage
