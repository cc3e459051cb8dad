-- ===== src/Ssh/Connection/Arguments.antt =====
-- The command line that the programs of Lab12 ask for.
use pus.Base.{ℕ, ◌≡◌, refl, Bool, true, false, ◌&&◌, none, some, [], ◌∷◌, ◌==◌, ◌+◌, ◌<◌, arith}
use pus.Base.Text.{Text, codes, strtol, split_at}
use pus.Base.Program.{returns}
use pus.Ssh.Connection.{
  found, Lookup, World, ConnectionData, go, clear_bit, set_port, malloc, look_up, set_address,
  copy_username, set_user, set_parts, other, option, step, at_end, parse_loop, finish, parse_with,
  parse_connection_data,
}
use pus.Ssh.Connection.Laws.{count_digits_five}

-- Whether the argument is `-p` or begins with it.
abbrev pub is_port_option : Text → Bool
is_port_option (a ∷ b ∷ s) = a == b'-' && b == b'p'
is_port_option _ = false

module _ (malloc_ok : ℕ → Bool) (getaddrinfo : ℕ → Text → Lookup) where
  option-other :
      (arg : Text) (cd : ConnectionData) (r : ℕ) (w : World)
      → is_port_option arg ≡ false
      → option malloc_ok getaddrinfo arg cd r w ≡ other malloc_ok getaddrinfo arg cd r w
  unfolding option
  option-other [] cd r w h = refl
  option-other (a ∷ []) cd r w h = refl
  option-other (a ∷ b ∷ []) cd r w h = ground arith
  option-other (a ∷ b ∷ c ∷ s) cd r w h = ground arith

  skipped :
      (arg : Text) (cd : ConnectionData) (r : ℕ) (w : World)
      → is_port_option arg ≡ false
      → split_at b'@' arg ≡ none
      → step malloc_ok getaddrinfo none arg cd r w ≡ returns (go none cd r) w
  unfolding step other set_parts
  skipped arg cd r w h none_at = ground (arith, option-other arg cd r w h)

  port-set :
      (prev num : Text) (cd : ConnectionData) (r : ℕ) (w : World)
      → 0 < strtol num
      → strtol num < 65536
      → step malloc_ok getaddrinfo (some prev) num cd r w
        ≡ returns (go none (record cd { port = strtol num }) (clear_bit 2 r)) w
  unfolding step set_port
  port-set prev num cd r w lo hi = ground (arith, count_digits_five num 0)

  user-set :
      (arg : Text) (c : ℕ) (user host : Text) (address : ℕ) (cd : ConnectionData) (r : ℕ)
      (w : World)
      → is_port_option arg ≡ false
      → split_at b'@' arg ≡ some (c ∷ user, host)
      → malloc_ok w.mallocs ≡ true
      → getaddrinfo w.lookups host ≡ found address
      → step malloc_ok getaddrinfo none arg cd r w
        ≡ returns
            (go none
              (record cd { username = some (c ∷ user); address = some address })
              (clear_bit 1 (clear_bit 4 r)))
            (record w { live = w.live + 1; mallocs = w.mallocs + 1; lookups = w.lookups + 1 })
  unfolding step other set_parts set_user malloc look_up copy_username set_address
  user-set arg c user host address cd r w h at ok res = ground (arith, option-other arg cd r w h)

  dash_p :
      (cd : ConnectionData) (r : ℕ) (w : World)
      → step malloc_ok getaddrinfo none (codes "-p") cd r w
        ≡ returns (go (some (codes "-p")) cd r) w
  unfolding step option
  dash_p cd r w = refl

  -- `name -p num user@host`, where the port is in range, the name of the program has no `@` and
  -- does not begin with `-p`, memory is there and the host is known, gives that user, that address
  -- and that port, and leaves two blocks allocated. Nothing is printed.
  pub parse_connection_data-arguments :
      (name num arg : Text) (c : ℕ) (user host : Text) (address : ℕ) (w : World)
      → is_port_option name ≡ false
      → split_at b'@' name ≡ none
      → 0 < strtol num
      → strtol num < 65536
      → is_port_option arg ≡ false
      → split_at b'@' arg ≡ some (c ∷ user, host)
      → malloc_ok w.mallocs ≡ true
      → malloc_ok (w.mallocs + 1) ≡ true
      → getaddrinfo w.lookups host ≡ found address
      → parse_connection_data malloc_ok getaddrinfo (name ∷ codes "-p" ∷ num ∷ arg ∷ []) 5 w
        ≡ returns
            (some
              (record { username = some (c ∷ user); address = some address; port = strtol num }))
            (record w { live = w.live + 2; mallocs = w.mallocs + 2; lookups = w.lookups + 1 })
  unfolding parse_connection_data malloc parse_with parse_loop at_end clear_bit finish
  parse_connection_data-arguments name num arg c user host address w hn nn lo hi ha at ok ok2 res =
      let cd : ConnectionData = record { username = none; address = none; port = 22 } in
      let w1 : World = record w { live = w.live + 1; mallocs = w.mallocs + 1 } in
      ground (
        arith,
        skipped name cd 5 w1 hn nn,
        port-set (codes "-p") num cd 5 w1 lo hi,
        user-set arg c user host address (record cd { port = strtol num }) 5 w1 ha at ok2 res,
        dash_p cd 5 w1,
      )
