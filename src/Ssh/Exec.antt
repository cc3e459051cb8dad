-- ===== src/Ssh/Exec.antt =====
-- Lab12/exec_rsa.c. What is typed is a list of answers to the question whether the key has a
-- password; a run that waits for more of them `returns`. `fflush(stdin)` is taken to do nothing.
pub mod Laws
pub mod Order
use pus.Base.{
  ℕ, zero, suc, ◌-◌, Bool, true, false, Option, none, some, List, [], ◌∷◌, ◌++◌, ltb, leb,
  if◌then◌else◌, length, set,
}
use pus.Base.Int.{ℤ, is_negative}
use pus.Base.Text.{Text, codes, c_string, contains}
use pus.Base.Program.{
  Prog, Result, ok, fails, returns, ◌>>=◌, ◌>>◌, pure, lift, exit, exit_failure, out_of_bounds,
}
use pus.Ssh.Connection.{Lookup, ConnectionData, parse_connection_data}
use pus.Ssh.Password.{Input, get_password}
use pus.Ssh.Session.{
  userauth_list_call, get_password_call, channel_open_call, channel_exec_call, channel_read_call,
  channel_close_call, channel_free_call, failed, methods_asked, login_tried, no_auth_needed,
  auth_unsupported, auth_failed, user_authenticated, password_wiped, channel_opened, executed,
  printed_output, exit_status, channel_closed, channel_freed, State, Libssh2, own, at_terminal,
}
use pus.Ssh.Session.Login.{try_round, if_asked, ask, no_list}
use pus.Ssh.Session.Steps.{
  emit, give_up, check, field, establish_tcp_connection, start_session, end_session,
}

abbrev pub buf_size : ℕ
buf_size = 4096

-- What is typed: another character, `t` with what `get_password` then reads, or `n`.
pub data Answer : Type 0 where
  other : ℕ → Answer
  with_password : List Input → Answer
  no_password : Answer

module _ (lib : Libssh2) where
  open lib use {
    userauth_list, userauth_authenticated, userauth_publickey, tty, channel_open, channel_exec,
    channel_read, channel_close, channel_free,
  }

  -- The two loops. `none` waits, `some false` is -1.
  unfoldable pub attempts : Text → List Answer → List ℕ → Prog State (Option Bool)
  unfolding ask if_asked try_round
  attempts user [] password = pure none
  attempts user (other c ∷ answers) password = attempts user answers password
  attempts user (with_password inputs ∷ answers) password = do
    asked ← ask lib inputs password
    if_asked asked λ mem. try_round (userauth_publickey user) mem (attempts user answers mem)
  attempts user (no_password ∷ answers) password =
      try_round (userauth_publickey user) (set password 0 0)
        (attempts user answers (set password 0 0))

  unfoldable pub authenticate_with : Text → Text → List Answer → List ℕ → Prog State (Option Bool)
  unfolding emit attempts
  authenticate_with user auth_list answers password =
      if contains auth_list (codes "publickey")
      then attempts user answers password
      else (do emit auth_unsupported; pure (some false))

  unfoldable pub with_list : Text → List Answer → List ℕ → Option Text → Prog State (Option Bool)
  unfolding no_list authenticate_with
  with_list user answers password none = no_list lib
  with_list user answers password (some auth_list) =
      authenticate_with user auth_list answers password

  unfoldable pub authenticate_user :
      ConnectionData → List Answer → List ℕ → Prog State (Option Bool)
  unfolding emit field with_list
  authenticate_user cd answers password = do
    user ← field cd.username
    emit methods_asked
    λ s. with_list user answers password (userauth_list user s.trace) s

  -- Stores what was read behind `got`.
  unfoldable pub receive : List ℕ → List ℕ → Result (List ℕ)
  receive got chunk =
      if leb (length chunk) (buf_size - length got) then ok (got ++ chunk) else fails out_of_bounds

  -- The `do` loop; each round but the last adds a byte, so `buf_size` rounds are enough. `none`
  -- stands for a failed read.
  unfoldable pub read_loop : ℕ → List ℕ → Prog State (Option (List ℕ))
  unfolding receive
  read_loop zero got s = returns (some got) s
  read_loop (suc fuel) got s = elim (channel_read (buf_size - length got) s.trace) [
    | none ↦ returns none s
    | some chunk ↦
        (lift (receive got chunk) >>= λ got'. elim (ltb 0 (length chunk)) [
          | false ↦ pure (some got')
          | true ↦ elim (ltb (length got') buf_size) [
            | true ↦ read_loop fuel got'
            | false ↦ pure (some got')
          ]
        ])
          s
  ]

  -- What follows the loop.
  unfoldable pub finish : ℕ → ConnectionData → Option (List ℕ) → Prog State (Unit {0})
  unfolding emit give_up check end_session
  finish sockfd cd none = give_up (failed channel_read_call)
  finish sockfd cd (some output) = do
    emit (printed_output output)
    emit exit_status
    check channel_close channel_close_call channel_closed
    check channel_free channel_free_call channel_freed
    end_session lib sockfd cd

  unfoldable pub run_command : ℕ → ConnectionData → Prog State (Unit {0})
  unfolding check finish read_loop
  run_command sockfd cd = do
    check channel_open channel_open_call channel_opened
    check channel_exec channel_exec_call (executed (codes "date"))
    output ← read_loop (suc buf_size) []
    finish sockfd cd output

  unfoldable pub authenticated : ℕ → ConnectionData → Option Bool → Prog State (Unit {0})
  unfolding run_command
  authenticated sockfd cd none = pure tt
  authenticated sockfd cd (some false) = exit exit_failure
  authenticated sockfd cd (some true) = run_command sockfd cd

  unfoldable pub with_socket :
      ConnectionData → List Answer → List ℕ → Option ℕ → Prog State (Unit {0})
  unfolding start_session authenticate_user authenticated
  with_socket cd answers password none = exit exit_failure
  with_socket cd answers password (some sockfd) = do
    start_session lib
    result ← authenticate_user cd answers password
    authenticated sockfd cd result

  unfoldable pub with_data : List Answer → List ℕ → Option ConnectionData → Prog State (Unit {0})
  unfolding establish_tcp_connection with_socket
  with_data answers password none = exit exit_failure
  with_data answers password (some cd) = do
    opened ← establish_tcp_connection lib cd
    with_socket cd answers password opened

  -- `password` is what the buffer of `authenticate_user` holds at first.
  unfoldable pub main :
      (ℕ → Bool) → (ℕ → Text → Lookup) → List Text → List Answer → List ℕ → Prog State (Unit {0})
  unfolding with_data
  main malloc_ok getaddrinfo argv answers password = do
    parsed ← own (parse_connection_data malloc_ok getaddrinfo argv 5)
    with_data answers password parsed
