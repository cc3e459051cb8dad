-- ===== src/Ssh/Connection/Laws.antt =====
-- What `parse_connection_data` of Lab12/libcommon.c gives, and where it goes wrong.
use pus.Base.{
  ℕ, ◌≡◌, refl, Bool, true, false, ◌&&◌, ◌||◌, Option, none, some, List, [], ◌∷◌, ◌==◌,
  if◌then◌else◌, ◌+◌, ltb, arith, ◌%◌, ◌/◌,
}
use pus.Base.Text.{Text, split_at}
use pus.Base.Program.{Prog, Outcome, exits, returns, faults, ◌>>=◌}
use pus.Ssh.Connection.{
  Message, invalid_argument, invalid_value, error, no_result, found, Lookup, World, ConnectionData,
  Next, stop, go, has_bit, clear_bit, cd_username, cd_address, count_digits, set_port, stop_with,
  print, malloc, look_up, set_address, copy_username, set_user, set_parts, other, option, step,
  at_end, parse_loop, finish, parse_with, parse_connection_data, free_connection_data,
}

-- The loop that counts the digits of a port gives 5 for every text, digits or not, so that the test
-- behind it rejects none.
pub count_digits_five : (s : Text) (i : ℕ) → count_digits s i ≡ 5
unfolding count_digits
count_digits_five [] i = refl
count_digits_five (c ∷ s) i = ground (arith, count_digits_five s (i + 1))

unfoldable pub is_some : {A : Type 0} → Option A → Bool
is_some none = false
is_some (some a) = true

-- What is no longer required is set, and the port is in range.
unfoldable pub is_kept : ConnectionData → ℕ → Bool
unfolding is_some
is_kept cd required =
    (has_bit cd_username required || is_some cd.username)
    && ((has_bit cd_address required || is_some cd.address) && (ltb 0 cd.port && ltb cd.port 65536))

-- No loop of the parser has broken `is_kept`.
good : Outcome World Next → Bool
good (returns (go expected cd required) w) = is_kept cd required
good (returns (stop cd) w) = true
good (exits code w) = true
good (faults e) = true

-- As `good`, and nothing is required any more.
done : Outcome World Next → Bool
done (returns (go expected cd required) w) = is_kept cd required && required == 0
done (returns (stop cd) w) = true
done (exits code w) = true
done (faults e) = true

-- Each choice of an `if` keeps a property of the outcome.
pub if-holds :
    (test : Outcome World Next → Bool) (b : Bool) (m n : Prog World Next) (w : World)
    → test (m w) ≡ true
    → test (n w) ≡ true
    → test ((if b then m else n) w) ≡ true
if-holds test true m n w h k = h
if-holds test false m n w h k = k

bind-done :
    (o : Outcome World Next) (f : Next → Prog World Next)
    → good o ≡ true
    → ((cd : ConnectionData) (w : World) → done (f (stop cd) w) ≡ true)
    → ((e : Option Text) (cd : ConnectionData) (r : ℕ) (w : World)
        → is_kept cd r ≡ true
        → done (f (go e cd r) w) ≡ true)
    → done (elim o [ returns a s ↦ f a s | exits code s ↦ exits code s | faults x ↦ faults x ])
      ≡ true
unfolding good done
bind-done (returns (go e cd r) w) f g h k = k e cd r w g
bind-done (returns (stop cd) w) f g h k = h cd w
bind-done (exits code w) f g h k = refl
bind-done (faults x) f g h k = refl

-- A user, an address and a port.
pub is_complete : ConnectionData → Bool
unfolding is_some
is_complete cd = is_some cd.username && (is_some cd.address && (ltb 0 cd.port && ltb cd.port 65536))

-- Both a user and an address are required, and nothing is any more.
complete : (cd : ConnectionData) (r : ℕ) → (is_kept cd r && r == 0) ≡ true → is_complete cd ≡ true
unfolding is_kept is_complete
complete cd r h = ground arith

set_port-good :
    (m : Message) (text : Text) (cd : ConnectionData) (r : ℕ) (w : World)
    → is_kept cd r ≡ true
    → good (set_port m text cd r w) ≡ true
unfolding set_port stop_with print is_kept clear_bit good
set_port-good m text cd r w k = ground arith

module _ (malloc_ok : ℕ → Bool) (getaddrinfo : ℕ → Text → Lookup) where
  set_address-good :
      (arg : Text) (result : Lookup) (cd : ConnectionData) (r : ℕ) (w : World)
      → is_kept cd r ≡ true
      → good (set_address malloc_ok getaddrinfo arg result cd r w) ≡ true
  unfolding set_address stop_with print is_kept clear_bit is_some good
  set_address-good arg error cd r w k = refl
  set_address-good arg no_result cd r w k = refl
  set_address-good arg (found address) cd r w k = ground arith

  named-kept :
      (user : Text) (cd : ConnectionData) (r : ℕ)
      → is_kept cd r ≡ true
      → is_kept (record cd { username = some user }) (clear_bit cd_username r) ≡ true
  unfolding is_kept clear_bit is_some
  named-kept user cd r k = ground arith

  named-good :
      (arg user host : Text) (allocated : Bool) (cd : ConnectionData) (r : ℕ) (w : World)
      → is_kept cd r ≡ true
      → good (
          (copy_username malloc_ok getaddrinfo user allocated cd >>= λ cd'.
          look_up malloc_ok getaddrinfo host >>= λ result.
          set_address malloc_ok getaddrinfo arg result cd' (clear_bit cd_username r))
            w)
        ≡ true
  unfolding copy_username look_up good
  named-good arg user host false cd r w k = refl
  named-good arg user host true cd r w k =
      set_address-good arg (getaddrinfo w.lookups host) (record cd { username = some user })
        (clear_bit cd_username r) _ (named-kept user cd r k)

  set_parts-good :
      (arg : Text) (parts : Option (Text × Text)) (cd : ConnectionData) (r : ℕ) (w : World)
      → is_kept cd r ≡ true
      → good (set_parts malloc_ok getaddrinfo arg parts cd r w) ≡ true
  unfolding set_parts set_user stop_with print malloc good
  set_parts-good arg none cd r w k = k
  set_parts-good arg (some ([], host)) cd r w k = refl
  set_parts-good arg (some (c ∷ user, host)) cd r w k =
      named-good arg (c ∷ user) host (malloc_ok w.mallocs) cd r _ k

  other-good :
      (arg : Text) (cd : ConnectionData) (r : ℕ) (w : World)
      → is_kept cd r ≡ true
      → good (other malloc_ok getaddrinfo arg cd r w) ≡ true
  unfolding other
  other-good arg cd r w k = set_parts-good arg (split_at b'@' arg) cd r w k

  step-good :
      (expected : Option Text) (arg : Text) (cd : ConnectionData) (r : ℕ) (w : World)
      → is_kept cd r ≡ true
      → good (step malloc_ok getaddrinfo expected arg cd r w) ≡ true
  unfolding step option good
  step-good (some prev) arg cd r w k = set_port-good (invalid_value prev arg) arg cd r w k
  step-good none [] cd r w k = other-good [] cd r w k
  step-good none (a ∷ []) cd r w k = other-good (a ∷ []) cd r w k
  step-good none (a ∷ b ∷ []) cd r w k =
      if-holds good (a == b'-' && b == b'p') _ (other malloc_ok getaddrinfo (a ∷ b ∷ []) cd r) w k
        (other-good (a ∷ b ∷ []) cd r w k)
  step-good none (a ∷ b ∷ c ∷ s) cd r w k =
      if-holds good (a == b'-' && b == b'p')
        (set_port (invalid_argument (a ∷ b ∷ c ∷ s)) (c ∷ s) cd r)
        (other malloc_ok getaddrinfo (a ∷ b ∷ c ∷ s) cd r) w
        (set_port-good (invalid_argument (a ∷ b ∷ c ∷ s)) (c ∷ s) cd r w k)
        (other-good (a ∷ b ∷ c ∷ s) cd r w k)

  at_end-done :
      (expected : Option Text) (cd : ConnectionData) (r : ℕ) (w : World)
      → is_kept cd r ≡ true
      → done (at_end malloc_ok getaddrinfo expected cd r w) ≡ true
  unfolding at_end stop_with print done
  at_end-done none cd r w k = ground arith
  at_end-done (some prev) cd r w k = refl

  parse_loop-done :
      (expected : Option Text) (argv : List Text) (cd : ConnectionData) (r : ℕ) (w : World)
      → is_kept cd r ≡ true
      → done (parse_loop malloc_ok getaddrinfo expected argv cd r w) ≡ true
  unfolding parse_loop done
  parse_loop-done expected [] cd r w k = at_end-done expected cd r w k
  parse_loop-done expected (arg ∷ argv) cd r w k =
      bind-done (step malloc_ok getaddrinfo expected arg cd r w) _ (step-good expected arg cd r w k)
        (λ cd' w'. refl) λ e cd' r' w' k'. parse_loop-done e argv cd' r' w' k'

  finish_complete :
      (o : Outcome World Next) {cd : ConnectionData} {w' : World}
      → done o ≡ true
      → elim o [
        | returns a s ↦ finish malloc_ok getaddrinfo a s
        | exits code s ↦ exits code s
        | faults x ↦ faults x
      ]
        ≡ returns (some cd) w'
      → is_complete cd ≡ true
  unfolding done finish free_connection_data
  finish_complete (returns (go e cd1 r) w) d eq = ground (arith, complete cd1 r d)
  finish_complete (returns (stop cd1) w) d eq = ground arith
  finish_complete (exits code w) d eq = cc
  finish_complete (faults x) d eq = cc

  allocated_complete :
      (allocated : Bool) (argv : List Text) (required : ℕ) (w : World) {cd : ConnectionData}
      {w' : World}
      → required % 2 ≡ 1
      → required / 4 % 2 ≡ 1
      → parse_with malloc_ok getaddrinfo allocated argv required w ≡ returns (some cd) w'
      → is_complete cd ≡ true
  unfolding parse_with print free_connection_data is_kept
  allocated_complete false argv required w b1 b4 eq = ground arith
  allocated_complete true argv required w b1 b4 eq =
      finish_complete
        (parse_loop malloc_ok getaddrinfo none argv
          (record { username = none; address = none; port = 22 }) required w)
        (parse_loop-done none argv (record { username = none; address = none; port = 22 }) required
          w (ground arith))
        eq

  -- If a user and an address are required and data are returned, they have a user, an address, and
  -- a port from 1 to 65535.
  pub parse_connection_data_complete :
      (argv : List Text) (required : ℕ) (w : World) {cd : ConnectionData} {w' : World}
      → required % 2 ≡ 1
      → required / 4 % 2 ≡ 1
      → parse_connection_data malloc_ok getaddrinfo argv required w ≡ returns (some cd) w'
      → is_complete cd ≡ true
  unfolding parse_connection_data malloc print
  parse_connection_data_complete [] required w b1 b4 eq = cc
  parse_connection_data_complete (name ∷ []) required w b1 b4 eq = cc
  parse_connection_data_complete (name ∷ arg ∷ argv) required w b1 b4 eq =
      allocated_complete (malloc_ok w.mallocs) (name ∷ arg ∷ argv) required _ b1 b4 eq
