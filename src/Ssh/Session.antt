-- ===== src/Ssh/Session.antt =====
-- What the sessions of Lab12/exec_rsa.c and Lab12/sftp_get.c do, and what the system, libssh2 and
-- the user answer. The answers are a parameter: each may depend on the calls that were made before.
pub mod Guards
pub mod Login
pub mod LoginOrder
pub mod StartOrder
pub mod Steps
use pus.Base.{ℕ, Bool, Option, List}
use pus.Base.Text.{Text}
use pus.Base.Program.{Prog, Outcome, returns, exits, faults}
use pus.Ssh.Connection.{World}
use pus.Ssh.Password.{Tty, Input}
use pus.Ssh.Password

-- The calls that can fail.
pub data Call : Type 0 where
  socket_call connect_call session_init_call session_startup_call hostkey_hash_call : Call
  userauth_list_call get_password_call : Call
  channel_open_call channel_exec_call channel_read_call channel_close_call channel_free_call : Call
  sftp_init_call opendir_call readdir_call closedir_call sftp_open_call sftp_shutdown_call : Call
  session_disconnect_call session_free_call : Call

-- What `libssh2_sftp_last_error` gives, for an error of the protocol of SFTP.
pub data SftpError : Type 0 where
  fx_ok fx_eof fx_no_such_file fx_permission_denied fx_failure fx_bad_message : SftpError
  fx_no_connection fx_connection_lost fx_op_unsupported fx_invalid_handle fx_no_such_path :
      SftpError
  fx_file_already_exists fx_write_protect fx_no_media fx_no_space_on_filesystem : SftpError
  fx_quota_exceeded fx_unknown_principal fx_lock_conflict fx_dir_not_empty : SftpError
  fx_not_a_directory fx_invalid_filename fx_link_loop fx_other : SftpError

pub data Event : Type 0 where
  failed : Call → Event
  sftp_error : Call → Text → Event
  connected : ℕ → ℕ → Event
  session_started : Event
  fingerprint : List ℕ → Event
  server_accepted : Event
  methods_asked login_tried : Event
  no_auth_needed auth_unsupported auth_failed : Event
  -- a method of authentication succeeded
  user_authenticated : Event
  password_wiped : Event
  channel_opened : Event
  executed : Text → Event
  printed_output : List ℕ → Event
  exit_status : Event
  channel_closed channel_freed : Event
  sftp_started : Event
  dir_opened : Text → Event
  printed_entry : Text → Event
  dir_closed : Event
  remote_opened : Text → Event
  local_opened : Text → Event
  wrote : List ℕ → Event
  local_closed : Event
  sftp_stopped : Event
  disconnected session_freed : Event
  socket_closed : ℕ → Event

-- The latest event is first.
abbrev pub Trace : Type 0
Trace = List Event

-- The memory and messages of the parser, what was done to the terminal, and the events.
pub record State : Type 0 where
  pub world : World
  pub terminal : Password.Trace
  pub trace : Trace

-- An entry of a directory: its name and its line.
pub record Entry : Type 0 where
  pub filename : Text
  pub longentry : Text

-- What the calls of `libssh2_sftp_readdir_ex` give: the entries, then the end or a failure.
pub record Listing : Type 0 where
  pub entries : List Entry
  pub ended : Bool

-- `none` and `false` stand for failure, and for the end of the input.
pub record Libssh2 : Type 0 where
  pub socket : Trace → Option ℕ
  pub connect : ℕ → ℕ → Trace → Bool
  pub session_init : Trace → Bool
  pub session_startup : Trace → Bool
  pub hostkey_hash : Trace → Option (List ℕ)
  pub fgets : Trace → Option Text
  pub userauth_list : Text → Trace → Option Text
  pub userauth_authenticated : Trace → Bool
  pub userauth_publickey : Text → Text → Trace → Bool
  pub userauth_password : Text → Text → Trace → Bool
  pub channel_open : Trace → Bool
  pub channel_exec : Trace → Bool
  pub channel_read : ℕ → Trace → Option (List ℕ)
  pub channel_close : Trace → Bool
  pub channel_free : Trace → Bool
  pub sftp_init : Trace → Bool
  pub opendir : Text → Trace → Bool
  pub listing : Text → Trace → Listing
  pub closedir : Trace → Bool
  pub malloc : Trace → Bool
  pub scanf : Trace → Option Text
  -- the address of the handle, 0 for NULL
  pub sftp_open : Text → Trace → ℕ
  -- what the calls of `libssh2_sftp_read` give, `none` for a failure; behind the last, nothing
  pub reads : Text → Trace → List (Option (List ℕ))
  pub close_local : Trace → Bool
  pub sftp_shutdown : Trace → Bool
  pub session_disconnect : Trace → Bool
  pub session_free : Trace → Bool
  -- for `print_sftp_error`: none if the last error is none of the protocol
  pub sftp_last_error : Trace → Option SftpError
  pub tty : Trace → Option Tty

-- Runs what touches only the parser's state.
abbrev run_in : {A : Type 0} → State → Outcome World A → Outcome State A
run_in s (returns a w) = returns a (record s { world = w })
run_in s (exits code w) = exits code (record s { world = w })
run_in s (faults e) = faults e

abbrev pub own : {A : Type 0} → Prog World A → Prog State A
own m s = run_in s (m s.world)

abbrev run_terminal : {A : Type 0} → State → Outcome Password.Trace A → Outcome State A
run_terminal s (returns a t) = returns a (record s { terminal = t })
run_terminal s (exits code t) = exits code (record s { terminal = t })
run_terminal s (faults e) = faults e

abbrev pub at_terminal : {A : Type 0} → Prog Password.Trace A → Prog State A
at_terminal m s = run_terminal s (m s.terminal)
