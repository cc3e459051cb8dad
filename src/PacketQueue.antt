-- ===== src/PacketQueue.antt =====
-- Lab07/queuemod.c: a queue of packets that the kernel hands to the program, which reverses the
-- body of each ICMP packet, writes its checksum anew and lets it pass.
pub mod Packet
pub mod Print
pub mod Callback
pub mod Main
