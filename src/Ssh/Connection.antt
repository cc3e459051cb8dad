-- ===== src/Ssh/Connection.antt =====
-- `parse_connection_data` and `free_connection_data` of Lab12/libcommon.c. The answers of `malloc`
-- and `getaddrinfo` are parameters. The loop goes through the arguments one at a time; a mode says
-- that the value of `-p` is expected, where the code moves `argvp` on inside the branch.
pub mod Laws
pub mod Users
pub mod Arguments
use pus.Base.{
  ℕ, ◌+◌, ◌-◌, ◌/◌, ◌%◌, Bool, true, false, ◌||◌, ◌&&◌, Option, none, some, List, [], ◌∷◌, ◌==◌,
  ltb, if◌then◌else◌,
}
use pus.Base.Text.{Text, isdigit, strtol, split_at}
use pus.Base.Program.{
  Prog, returns, ◌>>=◌, ◌>>◌, pure, exit, exit_failure, fault, uninitialised, out_of_bounds,
}

pub data Message : Type 0 where
  invocation malloc_failed getaddrinfo_failed : Message
  invalid_argument : Text → Message
  invalid_value : Text → Text → Message
  invalid_port : ℕ → Message

-- The number of blocks that are allocated, of calls of `malloc` and of `getaddrinfo`, and the lines
-- printed, the latest first.
pub record World : Type 0 where
  pub live : ℕ
  pub mallocs : ℕ
  pub lookups : ℕ
  pub printed : List Message

-- `struct connection_data`; a field that was not assigned is `none`.
pub record ConnectionData : Type 0 where
  pub username : Option Text
  pub address : Option ℕ
  pub port : ℕ

-- What `getaddrinfo` answers: an error, no result, or the address of the first result.
pub data Lookup : Type 0 where
  error no_result : Lookup
  found : ℕ → Lookup

abbrev pub cd_address : ℕ
cd_address = 1

abbrev pub cd_port : ℕ
cd_port = 2

abbrev pub cd_username : ℕ
cd_username = 4

-- `required & bit`, and `required &= ~bit`, for a bit that is a power of 2
abbrev pub has_bit : ℕ → ℕ → Bool
has_bit bit required = required / bit % 2 == 1

unfoldable pub clear_bit : ℕ → ℕ → ℕ
clear_bit bit required = if has_bit bit required then required - bit else required

unfoldable pub print : Message → Prog World (Unit {0})
print m w = returns tt (record w { printed = m ∷ w.printed })

-- `free_connection_data`, which tests `username` even if it was not assigned
unfoldable pub free_connection_data : Option ConnectionData → Prog World (Unit {0})
free_connection_data none = pure tt
free_connection_data (some cd) = elim cd.username [
  | none ↦ fault uninitialised
  | some username ↦ λ w. returns tt (record w { live = w.live - 2 })
]

-- The loop that counts digits: the pointer is never NULL, so it ends at the first byte that is not
-- a digit, at the latest at the NUL.
unfoldable pub count_digits : Text → ℕ → ℕ
count_digits [] i = 5
count_digits (c ∷ s) i = if isdigit c then count_digits s (i + 1) else 5

-- How a round of the loop ends: by `goto free`, or with the next argument.
pub data Next : Type 0 where
  stop : ConnectionData → Next
  go : Option Text → ConnectionData → ℕ → Next

-- Prints a message and leaves the loop.
unfoldable pub stop_with : Message → ConnectionData → Prog World Next
unfolding print
stop_with m cd = do print m; pure (stop cd)

-- The text of a port, and what is printed if it is not one.
unfoldable pub set_port : Message → Text → ConnectionData → ℕ → Prog World Next
unfolding stop_with count_digits clear_bit
set_port m text cd required =
    let i = count_digits text 0 in
    let port = strtol text in
    if i == 0 || ltb 5 i
    then stop_with m cd
    else if port == 0 || ltb 65535 port
    then stop_with (invalid_port port) cd
    else pure (go none (record cd { port = port }) (clear_bit cd_port required))

module _ (malloc_ok : ℕ → Bool) (getaddrinfo : ℕ → Text → Lookup) where
  unfoldable pub malloc : Prog World Bool
  malloc w =
      let allocated = malloc_ok w.mallocs in
      returns allocated
        (record w { live = if allocated then w.live + 1 else w.live; mallocs = w.mallocs + 1 })

  unfoldable pub look_up : Text → Prog World Lookup
  look_up host w = returns (getaddrinfo w.lookups host) (record w { lookups = w.lookups + 1 })

  -- What `getaddrinfo` found is freed by `freeaddrinfo` at once.
  unfoldable pub set_address : Text → Lookup → ConnectionData → ℕ → Prog World Next
  unfolding stop_with clear_bit
  set_address arg error cd required = stop_with getaddrinfo_failed cd
  set_address arg no_result cd required = stop_with (invalid_argument arg) cd
  set_address arg (found address) cd required =
      pure (go none (record cd { address = some address }) (clear_bit cd_address required))

  -- The result of `malloc` is not looked at: NULL is written through.
  unfoldable pub copy_username : Text → Bool → ConnectionData → Prog World ConnectionData
  copy_username user false cd = fault out_of_bounds
  copy_username user true cd = pure (record cd { username = some user })

  -- An argument with `user` in front of the first `@`, and `host` behind it.
  unfoldable pub set_user : Text → Text → Text → ConnectionData → ℕ → Prog World Next
  unfolding stop_with malloc copy_username look_up set_address clear_bit
  set_user arg [] host cd required = stop_with (invalid_argument arg) cd
  set_user arg (c ∷ user) host cd required = do
    allocated ← malloc
    cd' ← copy_username (c ∷ user) allocated cd
    result ← look_up host
    set_address arg result cd' (clear_bit cd_username required)

  -- An argument that is no option, with what is on the two sides of its first `@`.
  set_parts : Text → Option (Text × Text) → ConnectionData → ℕ → Prog World Next
  unfolding set_user
  set_parts arg none cd required = pure (go none cd required)
  set_parts arg (some (user, host)) cd required = set_user arg user host cd required

  other : Text → ConnectionData → ℕ → Prog World Next
  unfolding set_parts
  other arg cd required = set_parts arg (split_at b'@' arg) cd required

  -- A round of the loop with nothing expected.
  unfoldable pub option : Text → ConnectionData → ℕ → Prog World Next
  unfolding other set_port
  option [] cd required = other [] cd required
  option (a ∷ []) cd required = other (a ∷ []) cd required
  option (a ∷ b ∷ []) cd required =
      if a == b'-' && b == b'p'
      then pure (go (some (a ∷ b ∷ [])) cd required)
      else other (a ∷ b ∷ []) cd required
  option (a ∷ b ∷ c ∷ s) cd required =
      if a == b'-' && b == b'p'
      then set_port (invalid_argument (a ∷ b ∷ c ∷ s)) (c ∷ s) cd required
      else other (a ∷ b ∷ c ∷ s) cd required

  unfoldable pub step : Option Text → Text → ConnectionData → ℕ → Prog World Next
  unfolding option set_port
  step none arg cd required = option arg cd required
  step (some prev) arg cd required = set_port (invalid_value prev arg) arg cd required

  -- The end of `argv`.
  unfoldable pub at_end : Option Text → ConnectionData → ℕ → Prog World Next
  unfolding stop_with
  at_end none cd required =
      if required == 0 then pure (go none cd required) else stop_with invocation cd
  at_end (some prev) cd required = stop_with (invalid_argument prev) cd

  parse_loop : Option Text → List Text → ConnectionData → ℕ → Prog World Next
  unfolding step at_end
  parse_loop expected [] cd required = at_end expected cd required
  parse_loop expected (arg ∷ argv) cd required = do
    next ← step expected arg cd required
    elim next [
      | stop cd' ↦ pure (stop cd')
      | go expected' cd' required' ↦ parse_loop expected' argv cd' required'
    ]

  finish : Next → Prog World (Option ConnectionData)
  finish (go expected cd required) = pure (some cd)
  finish (stop cd) = do free_connection_data (some cd); pure none

  parse_with : Bool → List Text → ℕ → Prog World (Option ConnectionData)
  unfolding parse_loop finish
  parse_with false argv required = do print malloc_failed; free_connection_data none; pure none
  parse_with true argv required = do
    next ← parse_loop none argv (record { username = none; address = none; port = 22 }) required
    finish next

  -- `argc` is the length of `argv`.
  unfoldable pub parse_connection_data : List Text → ℕ → Prog World (Option ConnectionData)
  unfolding parse_with
  parse_connection_data [] required = do print invocation; exit exit_failure
  parse_connection_data (name ∷ []) required = do print invocation; exit exit_failure
  parse_connection_data (name ∷ arg ∷ argv) required = do
    allocated ← malloc
    parse_with allocated (name ∷ arg ∷ argv) required
