-- ===== src/Ssh/Session/Guards.antt =====
-- In which order the events of a session come, and what keeps that order.
use pus.Base.{
  ℕ, ◌≡◌, refl, Bool, true, false, ◌&&◌, ◌||◌, Option, none, some, [], ◌∷◌, if◌then◌else◌, arith,
}
use pus.Base.Program.{
  Prog, Outcome, returns, exits, faults, ◌>>=◌, holds, Result, ok, fails, lift, pure, exit,
}
use pus.Ssh.Connection.{World}
use pus.Ssh.Password
use pus.Ssh.Session.{
  Call, Event, failed, server_accepted, methods_asked, login_tried, user_authenticated,
  channel_opened, executed, dir_opened, sftp_started, remote_opened, local_opened, wrote, Trace,
  State, own, at_terminal,
}
use pus.Ssh.Session.Steps.{emit, give_up, check, field}

abbrev is_acceptance : Event → Bool
is_acceptance server_accepted = true
is_acceptance _ = false

abbrev is_login : Event → Bool
is_login user_authenticated = true
is_login _ = false

-- What is asked of the server before the user is logged in.
abbrev is_request : Event → Bool
is_request methods_asked = true
is_request login_tried = true
is_request user_authenticated = true
is_request _ = false

-- What is done on the server, or with what it sent.
abbrev is_work : Event → Bool
is_work channel_opened = true
is_work (executed command) = true
is_work sftp_started = true
is_work (dir_opened path) = true
is_work (remote_opened path) = true
is_work (local_opened path) = true
is_work (wrote bytes) = true
is_work _ = false

-- The user has accepted the key of the server.
pub accepted : Trace → Bool
accepted [] = false
accepted (event ∷ trace) = is_acceptance event || accepted trace

-- The server has accepted the user.
pub logged_in : Trace → Bool
logged_in [] = false
logged_in (event ∷ trace) = is_login event || logged_in trace

-- What may follow a trace.
abbrev pub allowed : Event → Trace → Bool
allowed event trace =
    if is_request event then accepted trace else if is_work event then logged_in trace else true

unfoldable pub in_order : Trace → Bool
in_order [] = true
in_order (event ∷ trace) = allowed event trace && in_order trace

-- How far a session has come.
pub data Stage : Type 0 where
  begun met inside : Stage

reached : Stage → Trace → Bool
unfolding in_order accepted logged_in
reached begun trace = in_order trace
reached met trace = in_order trace && accepted trace
reached inside trace = in_order trace && logged_in trace

unfoldable pub at : Stage → State → Bool
unfolding reached
at stage s = reached stage s.trace

-- A run keeps the order, and reaches a stage, which may depend on the result, where it returns.
unfoldable pub reaches : {A : Type 0} → (A → Stage) → Outcome State A → Bool
unfolding at
reaches target (returns a s) = at (target a) s
reaches target (exits code s) = at begun s
reaches target (faults e) = true

abbrev pub keeps : {A : Type 0} → Stage → Outcome State A → Bool
keeps stage o = reaches (λ _. stage) o

pub at-begun : (stage : Stage) (s : State) → at stage s ≡ true → at begun s ≡ true
unfolding at reached
at-begun stage s h = ground arith

pub at-accepted : (s : State) → at met s ≡ true → accepted s.trace ≡ true
unfolding at reached
at-accepted s h = ground arith

pub at-logged_in : (s : State) → at inside s ≡ true → logged_in s.trace ≡ true
unfolding at reached
at-logged_in s h = ground arith

pub keeps-begun :
    {A : Type 0} (stage : Stage) (o : Outcome State A) → keeps stage o ≡ true → keeps begun o ≡ true
unfolding reaches
keeps-begun stage (returns a s) h = at-begun stage s h
keeps-begun stage (exits code s) h = h
keeps-begun stage (faults e) h = refl

pub keeps-holds :
    {A : Type 0} (stage : Stage) (o : Outcome State A)
    → keeps stage o ≡ true
    → holds (λ s. in_order s.trace) o ≡ true
unfolding reaches holds at reached
keeps-holds stage (returns a s) h = at-begun stage s h
keeps-holds stage (exits code s) h = h
keeps-holds stage (faults e) h = refl

pub at_emit :
    (stage : Stage) (event : Event) (s : State)
    → allowed event s.trace ≡ true
    → at stage s ≡ true
    → at stage (record s { trace = event ∷ s.trace }) ≡ true
unfolding at reached in_order accepted logged_in
at_emit stage event s a h = ground arith

pub at_acceptance :
    (s : State) → at begun s ≡ true → at met (record s { trace = server_accepted ∷ s.trace }) ≡ true
unfolding at reached in_order accepted
at_acceptance s h = ground arith

pub at_login :
    (s : State)
    → at met s ≡ true
    → at inside (record s { trace = user_authenticated ∷ s.trace }) ≡ true
unfolding at reached in_order logged_in
at_login s h = ground arith

pub keeps-emit :
    (stage : Stage) (event : Event) (s : State)
    → allowed event s.trace ≡ true
    → at stage s ≡ true
    → keeps stage (emit event s) ≡ true
unfolding reaches emit
keeps-emit stage event s a h = at_emit stage event s a h

pub reaches->>= :
    {A B : Type 0} (stage : A → Stage) (target : B → Stage) (m : Prog State A)
    (f : A → Prog State B) (s : State)
    → reaches stage (m s) ≡ true
    → ((a : A) (t : State) → at (stage a) t ≡ true → reaches target (f a t) ≡ true)
    → reaches target ((m >>= f) s) ≡ true
unfolding reaches
reaches->>= {A} {B} stage target m f s h k = split_reaches (m s) h
  where
    split_reaches :
        (o : Outcome State A)
        → reaches stage o ≡ true
        → reaches target (◌>>=◌ {B = B} (λ _. o) f s) ≡ true
    split_reaches (returns a t) h = k a t h
    split_reaches (exits code t) h = h
    split_reaches (faults e) h = h

pub keeps->>= :
    {A B : Type 0} (stage target : Stage) (m : Prog State A) (f : A → Prog State B) (s : State)
    → keeps stage (m s) ≡ true
    → ((a : A) (t : State) → at stage t ≡ true → keeps target (f a t) ≡ true)
    → keeps target ((m >>= f) s) ≡ true
keeps->>= stage target m f s h k = reaches->>= (λ _. stage) (λ _. target) m f s h k

pub keeps-give_up :
    (A : Type 0) (stage target : Stage) (event : Event) (s : State)
    → allowed event s.trace ≡ true
    → at stage s ≡ true
    → keeps target (give_up {A = A} event s) ≡ true
unfolding reaches give_up emit
keeps-give_up A stage target event s a h = at_emit begun event s a (at-begun stage s h)

pub keeps-check :
    (stage : Stage) (test : Trace → Bool) (call : Call) (event : Event) (s : State)
    → allowed event s.trace ≡ true
    → at stage s ≡ true
    → keeps stage (check test call event s) ≡ true
unfolding check
keeps-check stage test call event s a h =
    ground
      (arith, keeps-emit stage event s a h, keeps-give_up Unit stage stage (failed call) s refl h)

pub keeps-own :
    {A : Type 0} (stage : Stage) (m : Prog World A) (s : State)
    → at stage s ≡ true
    → keeps stage (own m s) ≡ true
unfolding reaches at
keeps-own {A} stage m s h = kept_by (m s.world)
  where
    kept_by : (o : Outcome World A) → keeps stage (own (λ _. o) s) ≡ true
    kept_by (returns a w) = h
    kept_by (exits code w) = at-begun stage s h
    kept_by (faults e) = refl

pub keeps-at_terminal :
    {A : Type 0} (stage : Stage) (m : Prog Password.Trace A) (s : State)
    → at stage s ≡ true
    → keeps stage (at_terminal m s) ≡ true
unfolding reaches at
keeps-at_terminal {A} stage m s h = kept_by (m s.terminal)
  where
    kept_by : (o : Outcome Password.Trace A) → keeps stage (at_terminal (λ _. o) s) ≡ true
    kept_by (returns a w) = h
    kept_by (exits code w) = at-begun stage s h
    kept_by (faults e) = refl

pub keeps-pure :
    {A : Type 0} (stage : Stage) (a : A) (s : State)
    → at stage s ≡ true
    → keeps stage (pure a s) ≡ true
unfolding reaches
keeps-pure stage a s h = h

pub keeps-exit :
    (A : Type 0) (stage : Stage) (code : ℕ) (s : State)
    → at stage s ≡ true
    → keeps {A = A} stage (exit code s) ≡ true
unfolding reaches
keeps-exit A stage code s h = at-begun stage s h

pub keeps-lift :
    {A : Type 0} (stage : Stage) (r : Result A) (s : State)
    → at stage s ≡ true
    → keeps stage (lift r s) ≡ true
unfolding reaches
keeps-lift stage (ok a) s h = h
keeps-lift stage (fails e) s h = refl

pub keeps-field :
    {A : Type 0} (stage : Stage) (o : Option A) (s : State)
    → at stage s ≡ true
    → keeps stage (field o s) ≡ true
unfolding reaches field
keeps-field stage none s h = refl
keeps-field stage (some a) s h = h
