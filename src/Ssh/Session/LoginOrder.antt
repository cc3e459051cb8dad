-- ===== src/Ssh/Session/LoginOrder.antt =====
-- What the shared part of the two `authenticate_user` keeps of the order of events.
use pus.Base.{ℕ, ◌≡◌, refl, Bool, true, false, Option, none, some, List, ◌∷◌, arith}
use pus.Base.Text.{Text, c_string}
use pus.Base.Program.{Prog, lift}
use pus.Ssh.Password.{Input, get_password}
use pus.Ssh.Session.{
  userauth_list_call, get_password_call, failed, no_auth_needed, login_tried, auth_failed,
  user_authenticated, password_wiped, Trace, State, Libssh2, at_terminal,
}
use pus.Ssh.Session.Steps.{emit}
use pus.Ssh.Session.Guards.{
  Stage, met, inside, at, reaches, keeps, reaches->>=, keeps->>=, at_emit, at_login, at-accepted,
  keeps-emit, keeps-lift, keeps-at_terminal,
}
use pus.Ssh.Session.Login.{try_passphrase, pass_len, try_method, try_round, if_asked, ask, no_list}

-- Only a success reaches the session.
unfoldable pub after_login : Option Bool → Stage
after_login (some true) = inside
after_login (some false) = met
after_login none = met

after_key : Bool → Stage
after_key true = inside
after_key false = met

reaches-try_passphrase :
    (method : Text → Trace → Bool) (passphrase : Text) (t : State)
    → at met t ≡ true
    → reaches after_key (try_passphrase method passphrase t) ≡ true
unfolding try_passphrase reaches after_key emit
reaches-try_passphrase method passphrase t k = ground (
  arith,
  at_emit inside password_wiped (record t { trace = user_authenticated ∷ t.trace }) refl
      (at_login t k),
  at_emit met auth_failed t refl k,
)

reaches-try_method :
    (method : Text → Trace → Bool) (password : List ℕ) (s : State)
    → at met s ≡ true
    → reaches after_key (try_method method password s) ≡ true
unfolding try_method
reaches-try_method method password s h =
    reaches->>= (λ _. met) after_key (lift (c_string password)) _ s
      (keeps-lift met (c_string password) s h)
      λ passphrase t k.
        reaches->>= (λ _. met) after_key (emit login_tried) _ t
          (keeps-emit met login_tried t (at-accepted t k) k)
          λ _ u l. reaches-try_passphrase method passphrase u l

pub reaches-try_round :
    (method : Text → Trace → Bool) (password : List ℕ) (rest : Prog State (Option Bool)) (s : State)
    → at met s ≡ true
    → ((t : State) → at met t ≡ true → reaches after_login (rest t) ≡ true)
    → reaches after_login (try_round method password rest s) ≡ true
unfolding try_round reaches after_key after_login
reaches-try_round method password rest s h k =
    reaches->>= after_key after_login (try_method method password) _ s
      (reaches-try_method method password s h) λ succeeded t l. ground (arith, k t)

pub reaches-if_asked :
    (asked : Option (List ℕ)) (next : List ℕ → Prog State (Option Bool)) (s : State)
    → at met s ≡ true
    → ((mem : List ℕ) (t : State) → at met t ≡ true → reaches after_login (next mem t) ≡ true)
    → reaches after_login (if_asked asked next s) ≡ true
unfolding if_asked reaches after_login
reaches-if_asked none next s h k = h
reaches-if_asked (some mem) next s h k = k mem s h

module _ (lib : Libssh2) where
  pub keeps-ask :
      (inputs : List Input) (password : List ℕ) (s : State)
      → at met s ≡ true
      → keeps met (ask lib inputs password s) ≡ true
  unfolding ask reaches emit
  keeps-ask inputs password s h =
      keeps->>= met met (at_terminal (get_password (lib.tty s.trace) inputs password pass_len)) _ s
        (keeps-at_terminal met (get_password (lib.tty s.trace) inputs password pass_len) s h)
        λ result t k. ground (arith, at_emit met (failed get_password_call) t refl k)

  pub reaches-no_list : (s : State) → at met s ≡ true → reaches after_login (no_list lib s) ≡ true
  unfolding no_list reaches after_login emit
  reaches-no_list s h =
      ground (
        arith,
        at_emit met no_auth_needed s refl h,
        at_emit met (failed userauth_list_call) s refl h,
      )
