-- ===== src/Ssh/Session/StartOrder.antt =====
-- What the steps that Lab12/exec_rsa.c and Lab12/sftp_get.c share keep of the order of events.
use pus.Base.{ℕ, ◌≡◌, refl, Bool, true, false, Option, none, some, List, arith, take}
use pus.Base.Program.{pure, exit_success, ◌>>◌}
use pus.Ssh.Connection.{ConnectionData, free_connection_data}
use pus.Ssh.Session.{
  socket_call, connect_call, connected, fingerprint, hostkey_hash_call, session_init_call,
  session_startup_call, session_started, session_disconnect_call, session_free_call, disconnected,
  session_freed, socket_closed, failed, State, Libssh2, own,
}
use pus.Ssh.Session.Steps.{
  emit, check, field, open_socket, connect_socket, connect_opened, init_session,
  establish_tcp_connection, print_fingerprint, read_answer, authenticate_server, require_server,
  start_session, end_session,
}
use pus.Ssh.Session.Guards.{
  begun, met, at_acceptance, Stage, at, reaches, keeps, at_emit, keeps-emit, keeps->>=,
  keeps-give_up, keeps-check, keeps-own, keeps-pure, keeps-exit, keeps-field,
}

module _ (lib : Libssh2) where
  keeps-open_socket :
      (stage : Stage) (s : State) → at stage s ≡ true → keeps stage (open_socket lib s) ≡ true
  unfolding reaches open_socket emit
  keeps-open_socket stage s h = ground (arith, at_emit stage (failed socket_call) s refl h)

  pub keeps-connect_socket :
      (stage : Stage) (sockfd : ℕ) (cd : ConnectionData) (s : State)
      → at stage s ≡ true
      → keeps stage (connect_socket lib sockfd cd s) ≡ true
  unfolding reaches connect_socket emit
  keeps-connect_socket stage sockfd cd s h =
      keeps->>= stage stage (field cd.address) _ s (keeps-field stage cd.address s h) λ address t k.
        ground (
          arith,
          at_emit stage (failed connect_call) t refl k,
          at_emit stage (connected address cd.port) t refl k,
        )

  keeps-connect_opened :
      (stage : Stage) (cd : ConnectionData) (opened : Option ℕ) (s : State)
      → at stage s ≡ true
      → keeps stage (connect_opened lib cd opened s) ≡ true
  unfolding connect_opened
  keeps-connect_opened stage cd none s h = keeps-pure stage none s h
  keeps-connect_opened stage cd (some sockfd) s h = keeps-connect_socket stage sockfd cd s h

  pub keeps-establish_tcp_connection :
      (stage : Stage) (cd : ConnectionData) (s : State)
      → at stage s ≡ true
      → keeps stage (establish_tcp_connection lib cd s) ≡ true
  unfolding establish_tcp_connection
  keeps-establish_tcp_connection stage cd s h =
      keeps->>= stage stage (open_socket lib) _ s (keeps-open_socket stage s h)
        λ opened t k. keeps-connect_opened stage cd opened t k

  keeps-print_fingerprint :
      (stage : Stage) (hash : List ℕ) (s : State)
      → at stage s ≡ true
      → keeps stage (print_fingerprint lib hash s) ≡ true
  unfolding reaches print_fingerprint emit
  keeps-print_fingerprint stage hash s h =
      ground (arith, at_emit stage (fingerprint (take 16 hash)) s refl h)

  keeps-read_answer :
      (stage : Stage) (s : State) → at stage s ≡ true → keeps stage (read_answer lib s) ≡ true
  unfolding reaches read_answer
  keeps-read_answer stage s h = ground arith

  keeps-authenticate_server :
      (stage : Stage) (s : State)
      → at stage s ≡ true
      → keeps stage (authenticate_server lib s) ≡ true
  unfolding authenticate_server
  keeps-authenticate_server stage s h = answers (lib.hostkey_hash s.trace)
    where
      answers :
          (o : Option (List ℕ))
          → keeps stage (elim o [
            | none ↦ (do emit (failed hostkey_hash_call); pure false) s
            | some hash ↦ (do print_fingerprint lib hash; read_answer lib) s
          ])
            ≡ true
      answers none =
          keeps->>= stage stage (emit (failed hostkey_hash_call)) _ s
            (keeps-emit stage (failed hostkey_hash_call) s refl h)
            λ _ t k. keeps-pure stage false t k
      answers (some hash) =
          keeps->>= stage stage (print_fingerprint lib hash) _ s
            (keeps-print_fingerprint stage hash s h) λ _ t k. keeps-read_answer stage t k

  keeps-require_server :
      (answer : Bool) (s : State)
      → at begun s ≡ true
      → keeps met (require_server lib answer s) ≡ true
  unfolding reaches require_server emit
  keeps-require_server true s h = at_acceptance s h
  keeps-require_server false s h = h

  keeps-init_session : (s : State) → at begun s ≡ true → keeps begun (init_session lib s) ≡ true
  unfolding reaches init_session
  keeps-init_session s h =
      ground (arith, keeps-give_up Unit begun begun (failed session_init_call) s refl h)

  pub keeps-start_session : (s : State) → at begun s ≡ true → keeps met (start_session lib s) ≡ true
  unfolding start_session
  keeps-start_session s h =
      keeps->>= begun met (init_session lib) _ s (keeps-init_session s h) λ _ t k.
        keeps->>= begun met (check lib.session_startup session_startup_call session_started) _ t
          (keeps-check begun lib.session_startup session_startup_call session_started t refl k)
          λ _ u l.
            keeps->>= begun met (authenticate_server lib) (require_server lib) u
              (keeps-authenticate_server begun u l) λ answer v m. keeps-require_server answer v m

  pub keeps-end_session :
      (stage : Stage) (sockfd : ℕ) (cd : ConnectionData) (s : State)
      → at stage s ≡ true
      → keeps stage (end_session lib sockfd cd s) ≡ true
  unfolding end_session
  keeps-end_session stage sockfd cd s h =
      keeps->>= stage stage (check lib.session_disconnect session_disconnect_call disconnected) _ s
        (keeps-check stage lib.session_disconnect session_disconnect_call disconnected s refl h)
        λ _ t k.
          keeps->>= stage stage (check lib.session_free session_free_call session_freed) _ t
            (keeps-check stage lib.session_free session_free_call session_freed t refl k)
            λ _ u l.
              keeps->>= stage stage (emit (socket_closed sockfd)) _ u
                (keeps-emit stage (socket_closed sockfd) u refl l)
                λ _ v m.
                  keeps->>= stage stage (own (free_connection_data (some cd))) _ v
                    (keeps-own stage (free_connection_data (some cd)) v m)
                    λ _ w n. keeps-exit Unit stage exit_success w n
