-- ===== src/Tests.antt =====
-- Runs of the model on concrete inputs, and an instance of each theorem that has hypotheses.
mod Checksum
mod PacketQueue
mod Palindrome
mod PortServer
mod Ssh
mod Sctp
mod Iptables
mod Sessions
mod Chat
mod Raw
mod ImageServer
mod Greeting
