-- ===== src/Ssh/Connection/Users.antt =====
-- Command lines of the programs of Lab12 without a user.
use pus.Base.{
  ℕ, ◌≡◌, Bool, true, false, ◌&&◌, not, Option, none, some, List, [], ◌∷◌, ◌==◌, arith, ◌%◌, ◌/◌,
}
use pus.Base.Text.{Text, split_at}
use pus.Base.Program.{Prog, Outcome, exits, returns, faults, uninitialised}
use pus.Ssh.Connection.{
  Message, invalid_argument, invalid_value, Lookup, World, ConnectionData, Next, stop, go, has_bit,
  clear_bit, cd_username, set_port, stop_with, print, malloc, set_parts, other, option, step,
  at_end, parse_loop, finish, parse_with, parse_connection_data, free_connection_data,
}
use pus.Ssh.Connection.Laws.{is_some, if-holds}

-- No argument has an `@`.
unfoldable pub has_no_user : List Text → Bool
unfolding is_some
has_no_user [] = true
has_no_user (arg ∷ argv) = not (is_some (split_at b'@' arg)) && has_no_user argv

-- No user was read, and one is required.
lost : Outcome World Next → Bool
unfolding is_some
lost (returns (go expected cd required) w) =
    not (is_some cd.username) && has_bit cd_username required
lost (returns (stop cd) w) = not (is_some cd.username)
lost (exits code w) = false
lost (faults e) = false

set_port-lost :
    (m : Message) (text : Text) (cd : ConnectionData) (r : ℕ) (w : World)
    → (not (is_some cd.username) && has_bit cd_username r) ≡ true
    → lost (set_port m text cd r w) ≡ true
unfolding set_port stop_with print clear_bit lost is_some
set_port-lost m text cd r w k = ground arith

module _ (malloc_ok : ℕ → Bool) (getaddrinfo : ℕ → Text → Lookup) where
  set_parts-lost :
      (arg : Text) (parts : Option (Text × Text)) (cd : ConnectionData) (r : ℕ) (w : World)
      → not (is_some parts) ≡ true
      → (not (is_some cd.username) && has_bit cd_username r) ≡ true
      → lost (set_parts malloc_ok getaddrinfo arg parts cd r w) ≡ true
  unfolding set_parts lost is_some
  set_parts-lost arg none cd r w none_at k = k
  set_parts-lost arg (some p) cd r w none_at k = cc

  other-lost :
      (arg : Text) (cd : ConnectionData) (r : ℕ) (w : World)
      → not (is_some (split_at b'@' arg)) ≡ true
      → (not (is_some cd.username) && has_bit cd_username r) ≡ true
      → lost (other malloc_ok getaddrinfo arg cd r w) ≡ true
  unfolding other
  other-lost arg cd r w none_at k = set_parts-lost arg (split_at b'@' arg) cd r w none_at k

  step-lost :
      (expected : Option Text) (arg : Text) (cd : ConnectionData) (r : ℕ) (w : World)
      → not (is_some (split_at b'@' arg)) ≡ true
      → (not (is_some cd.username) && has_bit cd_username r) ≡ true
      → lost (step malloc_ok getaddrinfo expected arg cd r w) ≡ true
  unfolding step option lost
  step-lost (some prev) arg cd r w none_at k = set_port-lost (invalid_value prev arg) arg cd r w k
  step-lost none [] cd r w none_at k = other-lost [] cd r w none_at k
  step-lost none (a ∷ []) cd r w none_at k = other-lost (a ∷ []) cd r w none_at k
  step-lost none (a ∷ b ∷ []) cd r w none_at k =
      if-holds lost (a == b'-' && b == b'p') _ (other malloc_ok getaddrinfo (a ∷ b ∷ []) cd r) w k
        (other-lost (a ∷ b ∷ []) cd r w none_at k)
  step-lost none (a ∷ b ∷ c ∷ s) cd r w none_at k =
      if-holds lost (a == b'-' && b == b'p')
        (set_port (invalid_argument (a ∷ b ∷ c ∷ s)) (c ∷ s) cd r)
        (other malloc_ok getaddrinfo (a ∷ b ∷ c ∷ s) cd r) w
        (set_port-lost (invalid_argument (a ∷ b ∷ c ∷ s)) (c ∷ s) cd r w k)
        (other-lost (a ∷ b ∷ c ∷ s) cd r w none_at k)

  -- Where the arguments end the user is missing, so that the loop is left.
  is_stopped : Outcome World Next → Bool
  is_stopped (returns (stop cd) w) = not (is_some cd.username)
  is_stopped _ = false

  bind-stopped :
      (o : Outcome World Next) (f : Next → Prog World Next)
      → lost o ≡ true
      → ((cd : ConnectionData) (w : World)
          → not (is_some cd.username) ≡ true
          → is_stopped (f (stop cd) w) ≡ true)
      → ((e : Option Text) (cd : ConnectionData) (r : ℕ) (w : World)
          → (not (is_some cd.username) && has_bit cd_username r) ≡ true
          → is_stopped (f (go e cd r) w) ≡ true)
      → is_stopped
          (elim o [ returns a s ↦ f a s | exits code s ↦ exits code s | faults x ↦ faults x ])
        ≡ true
  unfolding lost
  bind-stopped (returns (go e cd r) w) f g h k = k e cd r w g
  bind-stopped (returns (stop cd) w) f g h k = h cd w g
  bind-stopped (exits code w) f g h k = cc
  bind-stopped (faults x) f g h k = cc

  parse_loop-stopped :
      (expected : Option Text) (argv : List Text) (cd : ConnectionData) (r : ℕ) (w : World)
      → has_no_user argv ≡ true
      → (not (is_some cd.username) && has_bit cd_username r) ≡ true
      → is_stopped (parse_loop malloc_ok getaddrinfo expected argv cd r w) ≡ true
  unfolding parse_loop is_stopped at_end stop_with print has_no_user is_some
  parse_loop-stopped none [] cd r w none_at k = ground arith
  parse_loop-stopped (some prev) [] cd r w none_at k = ground arith
  parse_loop-stopped expected (arg ∷ argv) cd r w none_at k =
      bind-stopped (step malloc_ok getaddrinfo expected arg cd r w) _
        (step-lost expected arg cd r w (ground arith) k) (λ cd' w' h. h)
        λ e cd' r' w' k'. parse_loop-stopped e argv cd' r' w' (ground arith) k'

  stopped-faults :
      (o : Outcome World Next)
      → is_stopped o ≡ true
      → elim o [
        | returns a s ↦ finish malloc_ok getaddrinfo a s
        | exits code s ↦ exits code s
        | faults x ↦ faults x
      ]
        ≡ faults uninitialised
  unfolding is_stopped finish free_connection_data is_some
  stopped-faults (returns (go e cd r) w) h = cc
  stopped-faults (returns (stop cd) w) h = ground arith
  stopped-faults (exits code w) h = cc
  stopped-faults (faults x) h = cc

  allocated-faults :
      (allocated : Bool) (argv : List Text) (required : ℕ) (w : World)
      → required / 4 % 2 ≡ 1
      → allocated ≡ true
      → has_no_user argv ≡ true
      → parse_with malloc_ok getaddrinfo allocated argv required w ≡ faults uninitialised
  unfolding parse_with is_some
  allocated-faults false argv required w b4 ok none_at = cc
  allocated-faults true argv required w b4 ok none_at =
      let cd : ConnectionData = record { username = none; address = none; port = 22 } in
      stopped-faults (parse_loop malloc_ok getaddrinfo none argv cd required w)
        (parse_loop-stopped none argv cd required w none_at (ground arith))

  -- If a user is required, memory is there, and the command line has at least one argument and none with
  -- an `@`, the variable `username` is
  -- read although it was not assigned, whatever the arguments are.
  pub parse_connection_data_no_user :
      (name arg : Text) (argv : List Text) (required : ℕ) (w : World)
      → required / 4 % 2 ≡ 1
      → malloc_ok w.mallocs ≡ true
      → has_no_user (name ∷ arg ∷ argv) ≡ true
      → parse_connection_data malloc_ok getaddrinfo (name ∷ arg ∷ argv) required w
        ≡ faults uninitialised
  unfolding parse_connection_data malloc
  parse_connection_data_no_user name arg argv required w b4 ok none_at =
      allocated-faults (malloc_ok w.mallocs) (name ∷ arg ∷ argv) required _ b4 ok none_at
