-- ===== src/Ssh/Sftp.antt =====
-- Lab12/sftp_get.c. What the user types for each password is a list of inputs; a run that waits for
-- more passwords `returns`.
pub mod Laws
pub mod Order
pub mod WorkOrder
use pus.Base.{
  ℕ, ◌%◌, ◌^◌, Bool, true, false, ◌&&◌, Option, none, some, List, [], ◌∷◌, ◌++◌, ◌==◌, ltb, leb,
  if◌then◌else◌, length,
}
use pus.Base.Int.{is_negative}
use pus.Base.Text.{Text, codes, c_string, contains}
use pus.Base.Program.{
  Prog, Result, ok, fails, returns, ◌>>=◌, ◌>>◌, pure, lift, exit, exit_failure, fault,
  uninitialised, out_of_bounds,
}
use pus.Ssh.Connection.{Lookup, ConnectionData, parse_connection_data}
use pus.Ssh.Password.{Input, get_password}
use pus.Ssh.Session.{
  userauth_list_call, get_password_call, sftp_init_call, opendir_call, readdir_call, closedir_call,
  sftp_open_call, sftp_shutdown_call, failed, methods_asked, login_tried, no_auth_needed,
  auth_unsupported, auth_failed, user_authenticated, password_wiped, sftp_started, dir_opened,
  printed_entry, dir_closed, remote_opened, local_opened, wrote, local_closed, sftp_stopped, Entry,
  Listing, State, Libssh2, own, at_terminal,
}
use pus.Ssh.Session.Login.{try_round, if_asked, ask, no_list}
use pus.Ssh.Session.Steps.{
  emit, check, check_sftp, print_sftp_error, field, establish_tcp_connection, start_session,
  end_session,
}

abbrev pub buf_size : ℕ
buf_size = 1024

-- `dir`: `strcpy` and `strcat` into 1024 bytes
unfoldable pub home_dir : Text → Result Text
home_dir username =
    if ltb (length (codes "/home/" ++ username)) buf_size
    then ok (codes "/home/" ++ username)
    else fails out_of_bounds

-- `scanf` of `%s` into 1024 bytes; at the end of the input they stay as they are.
unfoldable pub file_name : Option Text → Text → Result Text
file_name none filename = ok filename
file_name (some typed) filename =
    if ltb (length typed) buf_size then ok typed else fails out_of_bounds

-- `totalPathToFile`, of 2048 bytes
unfoldable pub total_path : Text → Text → Result Text
total_path dir filename =
    if ltb (length (dir ++ codes "/" ++ filename)) 2048
    then ok (dir ++ codes "/" ++ filename)
    else fails out_of_bounds

-- The line that is printed for what the two buffers hold.
unfoldable pub line : Entry → Text
line e = elim e.longentry [ [] ↦ e.filename | c ∷ text ↦ c ∷ text ]

-- Prints the buffers, which hold nothing before the first entry.
unfoldable pub print_line : Option Entry → Prog State (Unit {0})
unfolding emit line
print_line none = fault uninitialised
print_line (some e) = emit (printed_entry (line e))

-- The `do` loop, which also prints after the call that gives no entry. It leaves the last entry.
unfoldable pub list_loop : List Entry → Option Entry → Prog State (Option Entry)
unfolding print_line
list_loop [] buffers = do print_line buffers; pure buffers
list_loop (e ∷ entries) buffers = do print_line (some e); list_loop entries (some e)

-- The loop that copies the file. A failed read ends it as the end of the file does.
unfoldable pub copy_loop : List (Option (List ℕ)) → Prog State (Unit {0})
unfolding emit
copy_loop [] = pure tt
copy_loop (none ∷ reads) = pure tt
copy_loop (some [] ∷ reads) = pure tt
copy_loop (some (c ∷ chunk) ∷ reads) =
    if leb (length (c ∷ chunk)) buf_size
    then (do emit (wrote (c ∷ chunk)); copy_loop reads)
    else fault out_of_bounds

-- The address of the handle is kept in an `int`, and is lost if it does not fit.
unfoldable pub as_int : ℕ → ℕ
as_int address = address % 2 ^ 32

unfoldable pub use_handle : ℕ → Prog State (Unit {0})
use_handle address = if ltb address (2 ^ 31) then pure tt else fault out_of_bounds

module _ (lib : Libssh2) where
  open lib use {
    userauth_list, userauth_authenticated, userauth_publickey, userauth_password, tty, sftp_init,
    opendir, listing, closedir, malloc, scanf, sftp_open, reads, close_local, sftp_shutdown,
  }

  -- The `for` loop. `none` waits, `some false` is -1.
  unfoldable pub passwords : Text → List (List Input) → List ℕ → Prog State (Option Bool)
  unfolding ask if_asked try_round
  passwords user [] password = pure none
  passwords user (inputs ∷ typed) password = do
    asked ← ask lib inputs password
    if_asked asked λ mem. try_round (userauth_password user) mem (passwords user typed mem)

  unfoldable pub with_passwords :
      Text → Text → List (List Input) → List ℕ → Prog State (Option Bool)
  unfolding emit passwords
  with_passwords user auth_list typed password =
      if contains auth_list (codes "password")
      then passwords user typed password
      else (do emit auth_unsupported; pure (some false))

  unfoldable pub try_key : Text → List (List Input) → Text → List ℕ → Prog State (Option Bool)
  unfolding emit with_passwords
  try_key user typed auth_list password s =
      if userauth_publickey user (codes "passphrase") s.trace
      then (do emit user_authenticated; pure (some true)) s
      else with_passwords user auth_list typed password s

  -- The key is tried first, with the fixed password.
  unfoldable pub with_list :
      Text → List (List Input) → List ℕ → Option Text → Prog State (Option Bool)
  unfolding emit no_list with_passwords try_key
  with_list user typed password none s = no_list lib s
  with_list user typed password (some auth_list) s =
      if contains auth_list (codes "publickey")
      then (do emit login_tried; try_key user typed auth_list password) s
      else with_passwords user auth_list typed password s

  unfoldable pub authenticate_user :
      ConnectionData → List (List Input) → List ℕ → Prog State (Option Bool)
  unfolding emit field with_list
  authenticate_user cd typed password = do
    user ← field cd.username
    emit methods_asked
    λ s. with_list user typed password (userauth_list user s.trace) s

  -- Leaves the buffer of the file name.
  unfoldable pub end_listing : Bool → Option Entry → Prog State Text
  unfolding print_sftp_error field
  end_listing false last = do print_sftp_error lib readdir_call; exit exit_failure
  end_listing true last = do e ← field last; pure e.filename

  unfoldable pub list_dir : Text → Prog State Text
  unfolding check_sftp list_loop end_listing
  list_dir dir = do
    check_sftp lib (opendir dir) opendir_call (dir_opened dir)
    λ s.
        (do
          last ← list_loop (listing dir s.trace).entries none
          end_listing (listing dir s.trace).ended last)
          s

  -- The prompt, and the path of the file.
  unfoldable pub ask_path : Text → Text → Prog State (Text × Text)
  unfolding file_name total_path
  ask_path dir filename s =
      if malloc s.trace
      then (do
        name ← lift (file_name (scanf s.trace) filename)
        path ← lift (total_path dir name)
        pure (name, path))
          s
      else fault out_of_bounds s

  unfoldable pub open_remote : Text → Prog State ℕ
  unfolding emit print_sftp_error as_int
  open_remote path s =
      if as_int (sftp_open path s.trace) == 0
      then (do print_sftp_error lib sftp_open_call; exit exit_failure) s
      else (do emit (remote_opened path); pure (sftp_open path s.trace)) s

  unfoldable pub close_file : Prog State (Unit {0})
  unfolding emit
  close_file s = if close_local s.trace then emit local_closed s else returns tt s

  -- The results of `open` and `write` are not tested.
  unfoldable pub download : Text → Text → Prog State (Unit {0})
  unfolding emit open_remote use_handle copy_loop close_file
  download filename path = do
    handle ← open_remote path
    emit (local_opened filename)
    use_handle handle
    λ s. copy_loop (reads path s.trace) s
    close_file

  unfoldable pub get_file : ℕ → ConnectionData → Prog State (Unit {0})
  unfolding check field home_dir list_dir check_sftp ask_path download end_session
  get_file sockfd cd = do
    check sftp_init sftp_init_call sftp_started
    user ← field cd.username
    dir ← lift (home_dir user)
    last ← list_dir dir
    check_sftp lib closedir closedir_call dir_closed
    (filename, path) ← ask_path dir last
    download filename path
    check_sftp lib sftp_shutdown sftp_shutdown_call sftp_stopped
    end_session lib sockfd cd

  unfoldable pub authenticated : ℕ → ConnectionData → Option Bool → Prog State (Unit {0})
  unfolding get_file
  authenticated sockfd cd none = pure tt
  authenticated sockfd cd (some false) = exit exit_failure
  authenticated sockfd cd (some true) = get_file sockfd cd

  unfoldable pub with_socket :
      ConnectionData → List (List Input) → List ℕ → Option ℕ → Prog State (Unit {0})
  unfolding start_session authenticate_user authenticated
  with_socket cd typed password none = exit exit_failure
  with_socket cd typed password (some sockfd) = do
    start_session lib
    result ← authenticate_user cd typed password
    authenticated sockfd cd result

  unfoldable pub with_data :
      List (List Input) → List ℕ → Option ConnectionData → Prog State (Unit {0})
  unfolding establish_tcp_connection with_socket
  with_data typed password none = exit exit_failure
  with_data typed password (some cd) = do
    opened ← establish_tcp_connection lib cd
    with_socket cd typed password opened

  -- `password` is what the buffer of `authenticate_user` holds at first.
  unfoldable pub main :
      (ℕ → Bool)
      → (ℕ → Text → Lookup)
      → List Text
      → List (List Input)
      → List ℕ
      → Prog State (Unit {0})
  unfolding with_data
  main malloc_ok getaddrinfo argv typed password = do
    parsed ← own (parse_connection_data malloc_ok getaddrinfo argv 5)
    with_data typed password parsed
