-- ===== src/Ssh/Sftp/Order.antt =====
-- The order of the events of Lab12/sftp_get.c.
use pus.Base.Text.{Text}
