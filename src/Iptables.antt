-- ===== src/Iptables.antt =====
-- Lab07/iptcmod.c: a command that deletes a rule, creates a chain or sets the policy of a chain
-- of the packet filter. Basic is Lab07/iptc.c, its earlier form, which sets no policies.
pub mod Rule
pub mod Parse
pub mod Main
pub mod Basic
