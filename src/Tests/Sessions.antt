-- ===== src/Tests/Sessions.antt =====
-- Runs of Lab12/exec_rsa.c and Lab12/sftp_get.c.
use pus.Base.{
  ℕ, ◌+◌, ◌≡◌, refl, Bool, true, false, Option, none, some, List, [], ◌∷◌, ◌++◌, ◌==◌,
  if◌then◌else◌, arith,
}
use pus.Base.Text.{Text, codes, c_string, contains}
use pus.Base.Program.{Outcome, returns, exits, faults}
use pus.Ssh.Connection.{Lookup, ConnectionData, found, free_connection_data}
use pus.Ssh.Session.{executed, Entry, Trace, State, Libssh2}
use pus.Ssh.Session.Steps.{
  emit, give_up, check, field, open_socket, connect_socket, connect_opened,
  establish_tcp_connection, print_fingerprint, is_yes, read_answer, authenticate_server,
  require_server, init_session, start_session, end_session, check_sftp, print_sftp_error,
}
use pus.Ssh.Session.Login.{try_method, try_round, if_asked, ask, no_list}
use pus.Ssh.Exec
use pus.Ssh.Exec.{Answer, other, with_password, no_password}
use pus.Ssh.Exec.Laws.{fits_buffer, ReadsFit, read_loop_ends}
use pus.Ssh.Sftp
use pus.Ssh.Sftp.{copy_loop, list_loop, total_path, home_dir, file_name}
use pus.Ssh.Sftp.Laws.{
  content, written, reads_fit, copy_loop-content, printed, listed, list_loop-listed,
}

-- Three bytes, then the end.
abbrev chunk_of : ℕ → Option (List ℕ)
chunk_of room = some (if room == 4096 then 1 ∷ 2 ∷ 3 ∷ [] else [])

abbrev notes : Entry
notes = record { filename = codes "notes"; longentry = [] }

abbrev server : Libssh2
server = record {
  socket = λ t. some 3;
  connect = λ address port t. true;
  session_init = λ t. true;
  session_startup = λ t. true;
  hostkey_hash =
      λ t. some (1 ∷ 2 ∷ 3 ∷ 4 ∷ 5 ∷ 6 ∷ 7 ∷ 8 ∷ 9 ∷ 10 ∷ 11 ∷ 12 ∷ 13 ∷ 14 ∷ 15 ∷ 16 ∷ []);
  fgets = λ t. some (codes "y");
  userauth_list = λ user t. some (codes "publickey");
  userauth_authenticated = λ t. false;
  userauth_publickey = λ user passphrase t. true;
  userauth_password = λ user password t. false;
  channel_open = λ t. true;
  channel_exec = λ t. true;
  channel_read = λ room t. chunk_of room;
  channel_close = λ t. true;
  channel_free = λ t. true;
  sftp_init = λ t. true;
  opendir = λ path t. true;
  listing = λ path t. record { entries = notes ∷ []; ended = true };
  closedir = λ t. true;
  malloc = λ t. true;
  scanf = λ t. some (codes "notes");
  sftp_open = λ path t. 4096;
  reads = λ path t. some (7 ∷ 8 ∷ []) ∷ some (9 ∷ []) ∷ none ∷ [];
  close_local = λ t. true;
  sftp_shutdown = λ t. true;
  session_disconnect = λ t. true;
  session_free = λ t. true;
  sftp_last_error = λ t. none;
  tty = λ t. none;
}

abbrev resolver : ℕ → Text → Lookup
resolver n host = found 2130706433

abbrev memory : ℕ → Bool
memory n = true

abbrev ann : ConnectionData
ann = record { username = some (codes "ann"); address = some 2130706433; port = 22 }

abbrev start : State
start = record {
  world = record { live = 2; mallocs = 2; lookups = 1; printed = [] };
  terminal = [];
  trace = [];
}

-- Whether a run ended with status 0, and ran a command.
abbrev was_run : Trace → Bool
was_run [] = false
was_run (executed command ∷ trace) = true
was_run (_ ∷ trace) = was_run trace

abbrev ran : Outcome State (Unit {0}) → Bool
ran (returns a s) = false
ran (exits code s) = if code == 0 then was_run s.trace else false
ran (faults e) = false

exec_run :
    ran (Exec.with_data server (other 10 ∷ no_password ∷ []) (0 ∷ []) (some ann) start) ≡ true
unfolding Exec.with_data Exec.with_socket Exec.authenticated Exec.run_command Exec.finish
    Exec.read_loop Exec.receive Exec.authenticate_user Exec.with_list Exec.authenticate_with
    Exec.attempts emit give_up check field open_socket connect_socket connect_opened
    establish_tcp_connection print_fingerprint is_yes read_answer authenticate_server require_server
    init_session start_session end_session try_method try_round if_asked ask no_list c_string
    contains free_connection_data
exec_run = refl

abbrev copied : Outcome State (Unit {0}) → List ℕ
copied (returns a s) = []
copied (exits code s) = written s.trace
copied (faults e) = []

sftp_run : copied (Sftp.with_data server [] (0 ∷ []) (some ann) start) ≡ 7 ∷ 8 ∷ 9 ∷ []
unfolding Sftp.with_data Sftp.with_socket Sftp.authenticated Sftp.get_file Sftp.download
    Sftp.close_file Sftp.open_remote Sftp.ask_path Sftp.list_dir Sftp.end_listing
    Sftp.authenticate_user Sftp.with_list Sftp.with_passwords Sftp.passwords Sftp.use_handle
    Sftp.as_int Sftp.copy_loop Sftp.list_loop Sftp.print_line Sftp.line Sftp.total_path
    Sftp.file_name Sftp.home_dir emit give_up check check_sftp print_sftp_error field open_socket
    connect_socket connect_opened establish_tcp_connection print_fingerprint is_yes read_answer
    authenticate_server require_server init_session start_session end_session no_list contains
    free_connection_data written
sftp_run = refl

chunk_of-fits : ReadsFit server
chunk_of-fits room trace chunk h = ground arith

read_loop_ends_example :
    (output : Option (List ℕ)) × ((extra : ℕ)
      → Exec.read_loop server (4097 + extra) [] start ≡ returns output start)
    × (fits_buffer output ≡ true)
read_loop_ends_example = read_loop_ends server chunk_of-fits start

copy_loop-content_example :
    (t : State) × (copy_loop (some (7 ∷ 8 ∷ []) ∷ none ∷ []) start ≡ returns tt t)
    × (written t.trace ≡ written [] ++ content (some (7 ∷ 8 ∷ []) ∷ none ∷ []))
unfolding reads_fit
copy_loop-content_example = copy_loop-content (some (7 ∷ 8 ∷ []) ∷ none ∷ []) start refl

list_loop-listed_example :
    (last : Entry) × (t : State) × (list_loop (notes ∷ []) none start ≡ returns (some last) t)
    × (printed t.trace ≡ printed [] ++ listed notes [])
list_loop-listed_example = list_loop-listed notes [] none start
