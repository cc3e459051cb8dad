-- ===== src/Raw/Ping.antt =====
-- Lab03/zad5/ping.cpp. The two processes of `fork` are two runs; that which sends is the child. The
-- letters of the random generator are a parameter, by packet and position. What comes in is a list;
-- the process that receives waits where it ends.
pub mod Laws
use pus.Base.{
  ℕ, zero, suc, ◌+◌, ◌*◌, ◌/◌, ◌%◌, ◌^◌, if◌then◌else◌, Option, none, some, List, [], ◌∷◌, ◌++◌,
  length, get_elem?,
}
use pus.Base.Int.{ℤ, pos, negsuc, to_unsigned}
use pus.Base.Text.{Text}
use pus.Base.Buffer.{overwrite}
use pus.Base.Program.{
  Prog, Result, ok, fails, uninitialised, bind, ◌>>=◌, ◌>>◌, pure, lift, exit, exit_success,
  exit_failure,
}
use pus.Checksum.{internet_checksum}
use pus.Raw.{
  getaddrinfo_call, sendto_call, fork_call, usage, failed, started, sent_to, packet_sent, printed,
  Trace, Kernel, InAddr, Details,
}
use pus.Raw.Steps.{emit, give_up, short_bytes, htons, first_socket}

-- `icmphdr` of an echo, the numbers of two bytes as they are stored
pub record IcmpHeader : Type 0 where
  pub icmp_type : ℕ
  pub code : ℕ
  pub checksum : ℕ
  pub id : ℕ
  pub sequence : ℕ

unfoldable pub icmp_bytes : IcmpHeader → List ℕ
icmp_bytes h =
    h.icmp_type ∷ h.code ∷ (short_bytes h.checksum ++ (short_bytes h.id ++ short_bytes h.sequence))

abbrev pub data_size : ℕ
data_size = 32

-- The size of both datagrams.
abbrev pub datagram_size : ℕ
datagram_size = 40

-- The loop that fills in the data, from position `j` on.
unfoldable pub letters : (ℕ → ℕ) → ℕ → ℕ → List ℕ
letters letter zero j = []
letters letter (suc n) j = letter j ∷ letters letter n (suc j)

-- The data stands behind as many bytes as a pointer has, 8, which is also the size of the header.
unfoldable pub datagram : IcmpHeader → (ℕ → ℕ) → List ℕ
unfolding icmp_bytes letters
datagram h letter = icmp_bytes h ++ (letters letter 31 0 ++ 0 ∷ [])

-- The packet with a sequence number, for a process as `htons` takes it.
unfoldable pub echo : (ℕ → ℕ) → ℕ → ℕ → Result (List ℕ)
unfolding datagram
echo letter pid i =
    let h : IcmpHeader = record {
      icmp_type = 8;
      code = 0;
      checksum = 0;
      id = htons pid;
      sequence = htons i;
    } in
    bind (internet_checksum (datagram h letter) datagram_size)
      λ checksum. ok (datagram (record h { checksum = checksum }) letter)

-- A byte of the datagram, of which only the front was written.
unfoldable pub read : List ℕ → ℕ → Result ℕ
read buffer i = elim (get_elem? buffer i) [ none ↦ fails uninitialised | some c ↦ ok c ]

unfoldable pub read_addr : List ℕ → ℕ → Result InAddr
unfolding read
read_addr buffer i = bind (read buffer i) λ a. bind (read buffer (i + 1)) λ b.
    bind (read buffer (i + 2))
      λ c. bind (read buffer (i + 3)) λ d. ok (record { a = a; b = b; c = c; d = d })

unfoldable pub read_short : List ℕ → ℕ → Result ℕ
unfolding read
read_short buffer i =
    bind (read buffer i) λ low. bind (read buffer (i + 1)) λ high. ok (low + 256 * high)

-- The ICMP header is taken to follow 20 bytes of the IP header.
unfoldable pub details : List ℕ → Result Details
unfolding read_addr read_short read
details buffer = bind (read_addr buffer 12) λ source. bind (read buffer 8) λ ttl.
    bind (read buffer 0) λ first. bind (read_addr buffer 16) λ destination.
      bind (read buffer 20) λ icmp_type. bind (read buffer 21) λ code.
        bind (read_short buffer 24) λ id. bind (read_short buffer 26) λ sequence. ok (record {
          source = source;
          ttl = ttl;
          header_length = first % 16;
          destination = destination;
          icmp_type = icmp_type;
          code = code;
          id = id;
          sequence = sequence;
        })

-- `recvfrom`, whose result is not looked at.
unfoldable pub receive : Option (List ℕ) → List ℕ → List ℕ
unfolding overwrite
receive none buffer = buffer
receive (some bytes) buffer = overwrite datagram_size bytes buffer

-- The loop, with `n` rounds left. What is behind the end of the list is waited for.
unfoldable pub receive_loop : ℕ → List (Option (List ℕ)) → List ℕ → Prog Trace (Unit {0})
unfolding emit receive details
receive_loop zero receipts buffer = exit exit_success
receive_loop (suc n) [] buffer = pure tt
receive_loop (suc n) (receipt ∷ receipts) buffer = do
  shown ← lift (details (receive receipt buffer))
  emit (printed shown)
  receive_loop n receipts (receive receipt buffer)

unfoldable pub child_process : List (Option (List ℕ)) → Prog Trace (Unit {0})
unfolding emit receive_loop
child_process receipts = do emit started; receive_loop 4 receipts []

module _ (kernel : Kernel) (letter : ℕ → ℕ → ℕ) where
  unfoldable pub send : List ℕ → List ℕ → Prog Trace (Unit {0})
  unfolding emit give_up
  send packet address trace =
      if kernel.sendto (sent_to packet address ∷ trace)
      then (do emit (sent_to packet address); emit packet_sent) trace
      else (do emit (sent_to packet address); give_up (failed sendto_call)) trace

  -- The loop over the packets from `i` on, `n` of which are left.
  unfoldable pub send_loop : ℕ → ℕ → ℕ → List ℕ → Prog Trace (Unit {0})
  unfolding echo send
  send_loop zero i pid address = exit exit_success
  send_loop (suc n) i pid address = do
    packet ← lift (echo (letter i) pid i)
    send packet address
    send_loop n (i + 1) pid address

  unfoldable pub main_process : ℕ → List ℕ → Prog Trace (Unit {0})
  unfolding emit send_loop
  main_process pid address = do emit started; send_loop 4 1 pid address

  -- `getpid` in the child gives `pid`.
  unfoldable pub after_fork : ℕ → ℤ → List (Option (List ℕ)) → ℕ × List ℕ → Prog Trace (Unit {0})
  unfolding give_up main_process child_process
  after_fork pid (pos zero) receipts (sockfd, address) = main_process (pid % 2 ^ 16) address
  after_fork pid (pos (suc n)) receipts opened = child_process receipts
  after_fork pid (negsuc n) receipts opened = give_up (failed fork_call)

  unfoldable pub with_addresses :
      ℕ → ℤ → List (Option (List ℕ)) → Option (List (List ℕ)) → Prog Trace (Unit {0})
  unfolding give_up first_socket after_fork
  with_addresses pid forked receipts none = give_up (failed getaddrinfo_call)
  with_addresses pid forked receipts (some addresses) = do
    opened ← first_socket kernel addresses
    after_fork pid forked receipts opened

  unfoldable pub main : ℕ → ℤ → List (Option (List ℕ)) → List Text → Prog Trace (Unit {0})
  unfolding give_up with_addresses
  main pid forked receipts (program ∷ host ∷ []) =
      with_addresses pid forked receipts (kernel.getaddrinfo host)
  main pid forked receipts argv = give_up usage
