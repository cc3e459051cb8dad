-- ===== src/Ssh.antt =====
-- The SSH programs of Lab12.
pub mod Connection
pub mod Password
pub mod Session
pub mod Exec
pub mod Sftp
