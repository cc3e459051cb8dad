-- ===== src/Ssh/Exec/Order.antt =====
-- The order of the events of Lab12/exec_rsa.c.
use pus.Base.Text.{Text}
