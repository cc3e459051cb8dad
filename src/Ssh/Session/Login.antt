-- ===== src/Ssh/Session/Login.antt =====
-- The part of the two `authenticate_user`, of Lab12/exec_rsa.c and of Lab12/sftp_get.c, that is the
-- same in both.
use pus.Base.{ℕ, Bool, true, false, Option, none, some, List, if◌then◌else◌}
use pus.Base.Int.{is_negative}
use pus.Base.Text.{Text, c_string}
use pus.Base.Program.{Prog, ◌>>=◌, ◌>>◌, pure, lift}
use pus.Ssh.Password.{Input, get_password}
use pus.Ssh.Session.{
  userauth_list_call, get_password_call, failed, no_auth_needed, login_tried, auth_failed,
  user_authenticated, password_wiped, Trace, State, Libssh2, at_terminal,
}
use pus.Ssh.Session.Steps.{emit}

abbrev pub pass_len : ℕ
pass_len = 128

-- What a method answers, and what is printed.
unfoldable pub try_passphrase : (Text → Trace → Bool) → Text → Prog State Bool
unfolding emit
try_passphrase method password s =
    if method password s.trace
    then (do emit user_authenticated; emit password_wiped; pure true) s
    else (do emit auth_failed; pure false) s

-- A method that takes the password in the buffer.
unfoldable pub try_method : (Text → Trace → Bool) → List ℕ → Prog State Bool
unfolding emit try_passphrase
try_method method mem = do
  password ← lift (c_string mem)
  emit login_tried
  try_passphrase method password

-- One round of the outer loop, and what follows it if the password is not accepted.
unfoldable pub try_round :
    (Text → Trace → Bool) → List ℕ → Prog State (Option Bool) → Prog State (Option Bool)
unfolding try_method
try_round method mem rest = do
  succeeded ← try_method method mem
  if succeeded then pure (some true) else rest

-- A failed `get_password` is an error.
unfoldable pub if_asked :
    Option (List ℕ) → (List ℕ → Prog State (Option Bool)) → Prog State (Option Bool)
if_asked none next = pure (some false)
if_asked (some mem) next = next mem

module _ (lib : Libssh2) where
  open lib use {tty, userauth_authenticated}

  -- The buffer as `get_password` leaves it, or `none` if it fails.
  unfoldable pub ask : List Input → List ℕ → Prog State (Option (List ℕ))
  unfolding emit
  ask inputs password s =
      (at_terminal (get_password (tty s.trace) inputs password pass_len) >>= λ (mem, result).
      if is_negative result
      then (do emit (failed get_password_call); pure none)
      else pure (some mem))
        s

  -- A server that asks for no authentication is treated as an error.
  unfoldable pub no_list : Prog State (Option Bool)
  unfolding emit
  no_list s =
      (do
        emit (if userauth_authenticated s.trace then no_auth_needed else failed userauth_list_call)
        pure (some false))
        s
