-- ===== src/Lib.antt =====
-- A model of the C and C++ programs of a course on network services, one module for each part.
--
-- SwapBytes and Checksum are Lab07/libqueue.c: reversing a block of memory in place, and the
-- checksum of the Internet protocols (Lab03/zad4/checksum.h and Lab03/zad5/checksum.h hold the
-- same function). PacketQueue is Lab07/queuemod.c, which uses both: Packet has the data that
-- the library hands over, Print is `print_packet`, Callback is `callback`, and Main is `main`.
-- Iptables is Lab07/iptcmod.c: Rule has `struct rule` and the memory functions, Parse is
-- `parse`, and Main has the operations and `main`; Iptables/Basic is its first form,
-- Lab07/iptc.c, which has no policies. Palindrome is `is_palindrome` of
-- Lab01/zad3/libpalindrome.c, and Palindrome/Server is Lab01/zad3/server3.cpp, which answers
-- datagrams by it. Palindrome/Client (client3.cpp) sends them. Chat is the chat server
-- Lab01/zad4/server4.cpp. ImageServer is Lab01/zad5/server5.cpp: Page is the page that is sent,
-- Thread is `connection_handler`, and Threads has the steps of its threads. PortServer has the
-- servers of Lab08 (Zad2/rootserver.c, Zad4/fserver.c, Zad5/capserver.c), Steps what they
-- share, and Guards what their traces must look like. Ssh/Connection is `parse_connection_data`
-- and `free_connection_data` of Lab12/libcommon.c, Ssh/Password its `get_password`, and
-- Ssh/Session the rest of it, with the steps that Ssh/Exec (Lab12/exec_rsa.c) and Ssh/Sftp
-- (Lab12/sftp_get.c) share. Sctp has the programs of Lab04: Server2 and Client2
-- (zad2/server2.c, zad2/client2.c), Server3 and Client3 (zad3/server3.c, zad3/client3.c), and
-- Steps what they share. Greeting has those of Lab02: Server4 (server4.c), Server6
-- (server6.cpp), Client6 (client6.c), Client4 (client4.cpp) and Client (client.cpp), and Steps
-- what they share. Raw has those of Lab03, which put packets together by themselves: Tcp
-- (zad3/tcp.c), Udp6 (zad4/udpv6.c) and Ping (zad5/ping.cpp), Steps what they share, and Traces
-- what it leaves in a trace. The checksum.h that tcp.c includes is not beside it, and is taken
-- to be that of zad4. Base holds what these share: tests, lists, C strings, buffers, signed
-- numbers, and Base/Program a state monad with an early end by `exit` and with faults. Tests
-- runs the model on inputs.
--
-- Numbers. A machine integer is a natural number with its wrap-around written out; a signed sum
-- that does not fit is a fault. Results of calls that may be negative are integers. Words are
-- loaded as on a little-endian machine.
--
-- Memory. A buffer is the list of the bytes that may be accessed, and a pointer is an offset.
-- What the C standard leaves undefined (an access outside, a value that was never written) ends
-- the run in a fault. Three values that are never written are parameters instead, so that what
-- follows can be looked at: `currentChar` of server3.cpp, the bytes that `malloc` gives in
-- server5.cpp, with those behind the block, and what the buffers for passwords of Lab12 hold at
-- first. Blocks of `malloc` are counted, so that a block that is lost or freed twice shows.
--
-- Libraries. libnetfilter_queue, libiptc, libcap, libsctp, libssh2, the system calls of the
-- servers, `getaddrinfo`, `recv` and the failures of `malloc` are parameters: records of their
-- answers, or functions of what was done so far. Output is a trace, the latest event first.
--
-- Loops run over a list or count down, but three: the second loop of `internet_checksum` takes
-- the sum as its fuel, since each round makes the sum smaller, the loop of `swap_bytes` takes the
-- offset of the last byte, since each round lowers it, and the loop of exec_rsa.c takes one more
-- than the bytes of its buffer, since each round but the last fills one. A loop that a program
-- never leaves is followed through the list of what comes in.
--
-- Not modelled: what is printed is an event and not a text, except where a text is what the
-- program sends, and error texts of libraries are left out. The calls of the system are not looked
-- into. Of server6.cpp what stands behind the write through its pointer, which was never set, is
-- left out.
pub mod Base
pub mod Checksum
pub mod SwapBytes
pub mod PacketQueue
pub mod Chat
pub mod ImageServer
pub mod Greeting
pub mod Raw
pub mod Palindrome
pub mod Iptables
pub mod PortServer
pub mod Ssh
pub mod Sctp
mod Tests
