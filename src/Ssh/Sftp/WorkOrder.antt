-- ===== src/Ssh/Sftp/WorkOrder.antt =====
-- What follows the login in Lab12/sftp_get.c keeps the order of events.
use pus.Base.{
  ℕ, ◌≡◌, refl, Bool, true, false, Option, none, some, List, [], ◌∷◌, arith, inl, inr, Option-cases,
}
use pus.Base.Text.{Text}
use pus.Base.Program.{lift, pure, exit_failure, exit, ◌>>◌, ◌>>=◌}
use pus.Ssh.Connection.{ConnectionData}
use pus.Ssh.Session.{
  Call, Event, sftp_init_call, opendir_call, readdir_call, closedir_call, sftp_open_call,
  sftp_shutdown_call, sftp_started, sftp_error, dir_opened, printed_entry, dir_closed,
  remote_opened, local_opened, wrote, local_closed, sftp_stopped, Entry, Trace, State, Libssh2,
}
use pus.Ssh.Session.Steps.{emit, check, check_sftp, print_sftp_error, errmsg, field}
use pus.Ssh.Session.Guards.{
  Stage, inside, at, at-logged_in, allowed, reaches, keeps, keeps->>=, at_emit, keeps-emit,
  keeps-check, keeps-lift, keeps-field, keeps-pure, keeps-exit,
}
use pus.Ssh.Session.StartOrder.{keeps-end_session}
use pus.Ssh.Sftp.{
  home_dir, file_name, total_path, line, print_line, list_loop, copy_loop, use_handle, end_listing,
  list_dir, ask_path, open_remote, close_file, download, get_file,
}

module _ (lib : Libssh2) where
  keeps-print_sftp_error :
      (stage : Stage) (call : Call) (s : State)
      → at stage s ≡ true
      → keeps stage (print_sftp_error lib call s) ≡ true
  unfolding print_sftp_error reaches emit
  keeps-print_sftp_error stage call s h = elim (Option-cases (lib.sftp_last_error s.trace)) [
    | inl e ↦ ground arith
    | inr (error, e) ↦ ground (arith, at_emit stage (sftp_error call (errmsg error)) s refl h)
  ]

  -- The error is printed, and the program ends.
  keeps-sftp_exit :
      (A : Type 0) (stage : Stage) (call : Call) (s : State)
      → at stage s ≡ true
      → keeps {A = A} stage ((do print_sftp_error lib call; exit exit_failure) s) ≡ true
  keeps-sftp_exit A stage call s h =
      keeps->>= stage stage (print_sftp_error lib call) _ s (keeps-print_sftp_error stage call s h)
        λ _ t k. keeps-exit A stage exit_failure t k

  keeps-check_sftp :
      (stage : Stage) (test : Trace → Bool) (call : Call) (event : Event) (s : State)
      → allowed event s.trace ≡ true
      → at stage s ≡ true
      → keeps stage (check_sftp lib test call event s) ≡ true
  unfolding check_sftp
  keeps-check_sftp stage test call event s a h =
      ground (arith, keeps-emit stage event s a h, keeps-sftp_exit Unit stage call s h)

  keeps-print_line :
      (stage : Stage) (buffers : Option Entry) (s : State)
      → at stage s ≡ true
      → keeps stage (print_line buffers s) ≡ true
  unfolding print_line reaches
  keeps-print_line stage none s h = refl
  keeps-print_line stage (some e) s h = keeps-emit stage (printed_entry (line e)) s refl h

  keeps-list_loop :
      (stage : Stage) (entries : List Entry) (buffers : Option Entry) (s : State)
      → at stage s ≡ true
      → keeps stage (list_loop entries buffers s) ≡ true
  unfolding list_loop
  keeps-list_loop stage [] buffers s h =
      keeps->>= stage stage (print_line buffers) _ s (keeps-print_line stage buffers s h)
        λ _ t k. keeps-pure stage buffers t k
  keeps-list_loop stage (e ∷ entries) buffers s h =
      keeps->>= stage stage (print_line (some e)) _ s (keeps-print_line stage (some e) s h)
        λ _ t k. keeps-list_loop stage entries (some e) t k

  keeps-end_listing :
      (stage : Stage) (ended : Bool) (last : Option Entry) (s : State)
      → at stage s ≡ true
      → keeps stage (end_listing lib ended last s) ≡ true
  unfolding end_listing
  keeps-end_listing stage false last s h = keeps-sftp_exit Text stage readdir_call s h
  keeps-end_listing stage true last s h =
      keeps->>= stage stage (field last) _ s (keeps-field stage last s h)
        λ e t k. keeps-pure stage e.filename t k

  keeps-list_dir :
      (dir : Text) (s : State) → at inside s ≡ true → keeps inside (list_dir lib dir s) ≡ true
  unfolding list_dir
  keeps-list_dir dir s h =
      keeps->>= inside inside (check_sftp lib (lib.opendir dir) opendir_call (dir_opened dir)) _ s
        (keeps-check_sftp inside (lib.opendir dir) opendir_call (dir_opened dir) s
          (at-logged_in s h) h)
        λ _ t k.
          keeps->>= inside inside (list_loop (lib.listing dir t.trace).entries none) _ t
            (keeps-list_loop inside (lib.listing dir t.trace).entries none t k)
            λ last u l. keeps-end_listing inside (lib.listing dir t.trace).ended last u l

  keeps-copy_loop :
      (reads : List (Option (List ℕ))) (s : State)
      → at inside s ≡ true
      → keeps inside (copy_loop reads s) ≡ true
  unfolding copy_loop reaches
  keeps-copy_loop [] s h = h
  keeps-copy_loop (none ∷ reads) s h = h
  keeps-copy_loop (some [] ∷ reads) s h = h
  keeps-copy_loop (some (c ∷ chunk) ∷ reads) s h = ground (
    arith,
    keeps->>= inside inside (emit (wrote (c ∷ chunk))) (λ _. copy_loop reads) s
        (keeps-emit inside (wrote (c ∷ chunk)) s (at-logged_in s h) h)
        λ _ t k. keeps-copy_loop reads t k,
  )

  keeps-ask_path :
      (stage : Stage) (dir filename : Text) (s : State)
      → at stage s ≡ true
      → keeps stage (ask_path lib dir filename s) ≡ true
  unfolding ask_path reaches
  keeps-ask_path stage dir filename s h = ground (
    arith,
    keeps->>= {B = Text × Text} stage stage (lift (file_name (lib.scanf s.trace) filename))
        (λ name. do path ← lift (total_path dir name); pure (name, path)) s
        (keeps-lift stage (file_name (lib.scanf s.trace) filename) s h)
        λ name t k.
          keeps->>= stage stage (lift (total_path dir name)) _ t
            (keeps-lift stage (total_path dir name) t k)
            λ path u l. keeps-pure {A = Text × Text} stage (name, path) u l,
  )

  keeps-open_remote :
      (path : Text) (s : State) → at inside s ≡ true → keeps inside (open_remote lib path s) ≡ true
  unfolding open_remote reaches emit
  keeps-open_remote path s h = ground (
    arith,
    keeps-sftp_exit ℕ inside sftp_open_call s h,
    at_emit inside (remote_opened path) s (at-logged_in s h) h,
  )

  keeps-use_handle :
      (stage : Stage) (address : ℕ) (s : State)
      → at stage s ≡ true
      → keeps stage (use_handle address s) ≡ true
  unfolding use_handle reaches
  keeps-use_handle stage address s h = ground arith

  keeps-close_file :
      (stage : Stage) (s : State) → at stage s ≡ true → keeps stage (close_file lib s) ≡ true
  unfolding close_file reaches emit
  keeps-close_file stage s h = ground (arith, at_emit stage local_closed s refl h)

  keeps-download :
      (filename path : Text) (s : State)
      → at inside s ≡ true
      → keeps inside (download lib filename path s) ≡ true
  unfolding download
  keeps-download filename path s h =
      keeps->>= inside inside (open_remote lib path) _ s (keeps-open_remote path s h) λ handle t k.
        keeps->>= inside inside (emit (local_opened filename)) _ t
          (keeps-emit inside (local_opened filename) t (at-logged_in t k) k)
          λ _ u l.
            keeps->>= inside inside (use_handle handle) _ u (keeps-use_handle inside handle u l)
              λ _ v m.
                keeps->>= inside inside (λ s. copy_loop (lib.reads path s.trace) s) _ v
                  (keeps-copy_loop (lib.reads path v.trace) v m)
                  λ _ w n. keeps-close_file inside w n

  pub keeps-get_file :
      (sockfd : ℕ) (cd : ConnectionData) (s : State)
      → at inside s ≡ true
      → keeps inside (get_file lib sockfd cd s) ≡ true
  unfolding get_file
  keeps-get_file sockfd cd s h =
      keeps->>= inside inside (check lib.sftp_init sftp_init_call sftp_started) _ s
        (keeps-check inside lib.sftp_init sftp_init_call sftp_started s (at-logged_in s h) h)
        λ _ t k.
          keeps->>= inside inside (field cd.username) _ t (keeps-field inside cd.username t k)
            λ user u l.
              keeps->>= inside inside (lift (home_dir user)) _ u
                (keeps-lift inside (home_dir user) u l)
                λ dir v m.
                  keeps->>= inside inside (list_dir lib dir) _ v (keeps-list_dir dir v m)
                    λ last w n.
                      keeps->>= inside inside (check_sftp lib lib.closedir closedir_call dir_closed)
                        _ w (keeps-check_sftp inside lib.closedir closedir_call dir_closed w refl n)
                        λ _ x o.
                          keeps->>= inside inside (ask_path lib dir last) _ x
                            (keeps-ask_path inside dir last x o)
                            λ result y p.
                              keeps->>= inside inside (download lib result.0 result.1) _ y
                                (keeps-download result.0 result.1 y p)
                                λ _ z q.
                                  keeps->>= inside inside
                                    (check_sftp lib lib.sftp_shutdown sftp_shutdown_call
                                      sftp_stopped)
                                    _ z
                                    (keeps-check_sftp inside lib.sftp_shutdown sftp_shutdown_call
                                      sftp_stopped z refl q)
                                    λ _ r i. keeps-end_session lib inside sockfd cd r i
