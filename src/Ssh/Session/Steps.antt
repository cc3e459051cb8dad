-- ===== src/Ssh/Session/Steps.antt =====
-- `print_sftp_error`, `establish_tcp_connection` and `authenticate_server` of Lab12/libcommon.c, and
-- the steps that Lab12/exec_rsa.c and Lab12/sftp_get.c share.
use pus.Base.{
  ℕ, Bool, true, false, ◌||◌, Option, none, some, List, [], ◌∷◌, ◌==◌, leb, if◌then◌else◌, length,
  take,
}
use pus.Base.Text.{Text, codes}
use pus.Base.Program.{
  Prog, faults, returns, ◌>>=◌, ◌>>◌, pure, exit, exit_success, exit_failure, fault, uninitialised,
  out_of_bounds,
}
use pus.Ssh.Connection.{ConnectionData, free_connection_data}
use pus.Ssh.Session.{
  Call, socket_call, connect_call, session_init_call, session_startup_call, hostkey_hash_call,
  session_disconnect_call, session_free_call, SftpError, fx_ok, fx_eof, fx_no_such_file,
  fx_permission_denied, fx_failure, fx_bad_message, fx_no_connection, fx_connection_lost,
  fx_op_unsupported, fx_invalid_handle, fx_no_such_path, fx_file_already_exists, fx_write_protect,
  fx_no_media, fx_no_space_on_filesystem, fx_quota_exceeded, fx_unknown_principal, fx_lock_conflict,
  fx_dir_not_empty, fx_not_a_directory, fx_invalid_filename, fx_link_loop, fx_other, Event, failed,
  sftp_error, connected, session_started, fingerprint, server_accepted, disconnected, session_freed,
  socket_closed, Trace, State, Libssh2, own,
}

unfoldable pub emit : Event → Prog State (Unit {0})
emit event s = returns tt (record s { trace = event ∷ s.trace })

-- Reports a failed call and ends the program.
unfoldable pub give_up : {A : Type 0} → Event → Prog State A
unfolding emit
give_up event = do emit event; exit exit_failure

-- The test behind a call, and what it did if it succeeded.
unfoldable pub check : (Trace → Bool) → Call → Event → Prog State (Unit {0})
unfolding emit give_up
check test call event s = if test s.trace then emit event s else give_up (failed call) s

-- The text that `print_sftp_error` chooses.
pub errmsg : SftpError → Text
errmsg fx_ok = codes "LIBSSH2_FX_OK"
errmsg fx_eof = codes "LIBSSH2_FX_EOF"
errmsg fx_no_such_file = codes "LIBSSH2_FX_NO_SUCH_FILE"
errmsg fx_permission_denied = codes "LIBSSH2_FX_PERMISSION_DENIED"
errmsg fx_failure = codes "LIBSSH2_FX_FAILURE"
errmsg fx_bad_message = codes "LIBSSH2_FX_BAD_MESSAGE"
errmsg fx_no_connection = codes "LIBSSH2_FX_NO_CONNECTION"
errmsg fx_connection_lost = codes "LIBSSH2_FX_CONNECTION_LOST"
errmsg fx_op_unsupported = codes "LIBSSH2_FX_OP_UNSUPPORTED"
errmsg fx_invalid_handle = codes "LIBSSH2_FX_INVALID_HANDLE"
errmsg fx_no_such_path = codes "LIBSSH2_FX_NO_SUCH_PATH"
errmsg fx_file_already_exists = codes "LIBSSH2_FX_FILE_ALREADY_EXISTS"
errmsg fx_write_protect = codes "LIBSSH2_FX_WRITE_PROTECT"
errmsg fx_no_media = codes "LIBSSH2_FX_NO_MEDIA"
errmsg fx_no_space_on_filesystem = codes "LIBSSH2_FX_NO_SPACE_ON_FILESYSTEM"
errmsg fx_quota_exceeded = codes "LIBSSH2_FX_QUOTA_EXCEEDED"
errmsg fx_unknown_principal = codes "LIBSSH2_FX_UNKNOWN_PRINCIPAL"
errmsg fx_lock_conflict = codes "LIBSSH2_FX_LOCK_CONFLICT"
errmsg fx_dir_not_empty = codes "LIBSSH2_FX_DIR_NOT_EMPTY"
errmsg fx_not_a_directory = codes "LIBSSH2_FX_NOT_A_DIRECTORY"
errmsg fx_invalid_filename = codes "LIBSSH2_FX_INVALID_FILENAME"
errmsg fx_link_loop = codes "LIBSSH2_FX_LINK_LOOP"
errmsg fx_other = codes "OTHER"

-- A field of the connection data that must be set.
unfoldable pub field : {A : Type 0} → Option A → Prog State A
field none = fault uninitialised
field (some a) = pure a

module _ (lib : Libssh2) where
  open lib use {
    socket, connect, session_init, session_startup, hostkey_hash, fgets, sftp_last_error,
    session_disconnect, session_free,
  }

  -- Prints nothing if the error is none of the protocol.
  unfoldable pub print_sftp_error : Call → Prog State (Unit {0})
  unfolding emit
  print_sftp_error call s = elim (sftp_last_error s.trace) [
    | none ↦ returns tt s
    | some e ↦ emit (sftp_error call (errmsg e)) s
  ]

  -- The test behind a call of the SFTP subsystem.
  unfoldable pub check_sftp : (Trace → Bool) → Call → Event → Prog State (Unit {0})
  unfolding emit print_sftp_error
  check_sftp test call event s =
      if test s.trace then emit event s else (do print_sftp_error call; exit exit_failure) s

  -- `none` stands for -1, which ends both programs.
  unfoldable pub open_socket : Prog State (Option ℕ)
  unfolding emit
  open_socket s = elim (socket s.trace) [
    | none ↦ (do emit (failed socket_call); pure none) s
    | some sockfd ↦ returns (some sockfd) s
  ]

  unfoldable pub connect_socket : ℕ → ConnectionData → Prog State (Option ℕ)
  unfolding emit field
  connect_socket sockfd cd = do
    address ← field cd.address
    λ s.
        if connect address cd.port s.trace
        then (do emit (connected address cd.port); pure (some sockfd)) s
        else (do emit (failed connect_call); pure none) s

  unfoldable pub connect_opened : ConnectionData → Option ℕ → Prog State (Option ℕ)
  unfolding connect_socket
  connect_opened cd none = pure none
  connect_opened cd (some sockfd) = connect_socket sockfd cd

  unfoldable pub establish_tcp_connection : ConnectionData → Prog State (Option ℕ)
  unfolding open_socket connect_opened
  establish_tcp_connection cd = do opened ← open_socket; connect_opened cd opened

  -- `fprintf` of the sixteen bytes of the hash
  unfoldable pub print_fingerprint : List ℕ → Prog State (Unit {0})
  unfolding emit
  print_fingerprint hash =
      if leb 16 (length hash) then emit (fingerprint (take 16 hash)) else fault out_of_bounds

  -- The first byte decides; at the end of the input the buffer was not written.
  unfoldable pub is_yes : Text → Bool
  is_yes [] = false
  is_yes (c ∷ line) = c == b'y' || c == b'Y'

  unfoldable pub read_answer : Prog State Bool
  unfolding is_yes
  read_answer s = elim (fgets s.trace) [
    | none ↦ faults uninitialised
    | some line ↦ returns (is_yes line) s
  ]

  unfoldable pub authenticate_server : Prog State Bool
  unfolding emit print_fingerprint read_answer
  authenticate_server s = elim (hostkey_hash s.trace) [
    | none ↦ (do emit (failed hostkey_hash_call); pure false) s
    | some hash ↦ (do print_fingerprint hash; read_answer) s
  ]

  unfoldable pub require_server : Bool → Prog State (Unit {0})
  unfolding emit
  require_server true = emit server_accepted
  require_server false = exit exit_failure

  unfoldable pub init_session : Prog State (Unit {0})
  unfolding give_up
  init_session s =
      if session_init s.trace then returns tt s else give_up (failed session_init_call) s

  unfoldable pub start_session : Prog State (Unit {0})
  unfolding check init_session authenticate_server require_server
  start_session = do
    init_session
    check session_startup session_startup_call session_started
    accepted ← authenticate_server
    require_server accepted

  -- From `libssh2_session_disconnect` to the end.
  unfoldable pub end_session : ℕ → ConnectionData → Prog State (Unit {0})
  unfolding emit check
  end_session sockfd cd = do
    check session_disconnect session_disconnect_call disconnected
    check session_free session_free_call session_freed
    emit (socket_closed sockfd)
    own (free_connection_data (some cd))
    exit exit_success
