-- ===== src/Ssh/Password.antt =====
-- `get_password` of Lab12/libcommon.c. What `open`, `tcgetattr` and `read` answer is a parameter.
pub mod Laws
use pus.Base.{
  ℕ, zero, suc, ◌+◌, ◌-◌, Bool, true, false, not, ◌&&◌, ◌||◌, Option, none, some, List, [], ◌∷◌,
  ◌==◌, ltb, if◌then◌else◌, length, set,
}
use pus.Base.Int.{ℤ, pos, negsuc, is_negative}
use pus.Base.Program.{
  Prog, Result, ok, fails, bind, lift, returns, ◌>>=◌, ◌>>◌, pure, out_of_bounds,
}

-- The flags of `c_lflag` that are changed.
pub record Flags : Type 0 where
  pub echo : Bool
  pub echonl : Bool

-- The terminal is open at a descriptor, and has flags if `tcgetattr` succeeds.
pub record Tty : Type 0 where
  pub fd : ℕ
  pub flags : Option Flags

-- What `read` gives; behind the last it gives 0.
pub data Input : Type 0 where
  byte : ℕ → Input
  read_error : Input

pub data Event : Type 0 where
  signals_blocked signals_restored : Event
  attributes_set : Flags → Event
  wrote_prompt wrote_newline : Event
  closed : Event

-- The latest event is first.
abbrev pub Trace : Type 0
Trace = List Event

unfoldable pub emit : Event → Prog Trace (Unit {0})
emit event trace = returns tt (event ∷ trace)

-- What the loop leaves: the memory, the index `p` and the last result of `read`.
pub record Reading : Type 0 where
  pub mem : List ℕ
  pub p : ℕ
  pub r : ℤ

pub is_line_end : ℕ → Bool
is_line_end ch = ch == b'\n' || ch == b'\r'

pub put : List ℕ → ℕ → ℕ → Result (List ℕ)
put mem p ch = if ltb p (length mem) then ok (set mem p ch) else fails out_of_bounds

-- The `for` loop; `p` and `last` are indices into the memory.
pub read_loop : List Input → List ℕ → ℕ → ℕ → Result Reading
unfolding is_line_end put
read_loop [] mem p last = ok (record { mem = mem; p = p; r = pos 0 })
read_loop (read_error ∷ inputs) mem p last = ok (record { mem = mem; p = p; r = negsuc 0 })
read_loop (byte ch ∷ inputs) mem p last = elim (not (is_line_end ch) && ltb p last) [
  | false ↦ ok (record { mem = mem; p = p; r = pos 1 })
  | true ↦ bind (put mem p ch) λ mem'. read_loop inputs mem' (suc p) last
]

pub terminate : Reading → Result (List ℕ × ℤ)
unfolding put
terminate reading =
    bind (put reading.mem reading.p 0)
      λ mem. ok (mem, if is_negative reading.r then negsuc 0 else pos 0)

-- `oterm` and `term`: without a terminal both are cleared but for ECHO.
pub old_flags : Option Tty → Flags
old_flags none = record { echo = true; echonl = false }
old_flags (some tty) = elim tty.flags [
  | none ↦ record { echo = true; echonl = false }
  | some flags ↦ if tty.fd == 0 then record { echo = true; echonl = false } else flags
]

pub is_silenced : Option Tty → Bool
is_silenced none = false
is_silenced (some tty) = elim tty.flags [ none ↦ false | some flags ↦ not (tty.fd == 0) ]

abbrev pub silent : Flags
silent = record { echo = false; echonl = false }

-- What is done under an `if`.
unfoldable pub when : Bool → Event → Prog Trace (Unit {0})
when test event trace = returns tt (if test then event ∷ trace else trace)

-- Whether `term` and `oterm` differ: `term` is `oterm` with its two flags cleared, or is equal.
pub differ : Option Tty → Bool
unfolding old_flags is_silenced
differ tty = is_silenced tty && ((old_flags tty).echo || (old_flags tty).echonl)

pub is_opened : Option Tty → Bool
is_opened none = false
is_opened (some tty) = not (tty.fd == 0)

-- The result with the memory that `buf` points to.
unfoldable pub get_password : Option Tty → List Input → List ℕ → ℕ → Prog Trace (List ℕ × ℤ)
unfolding emit when is_silenced differ is_opened read_loop terminate
get_password tty inputs buf zero = pure (buf, negsuc 0)
get_password tty inputs buf (suc last) = do
  emit signals_blocked
  when (is_silenced tty) (attributes_set silent)
  emit wrote_prompt
  done ← lift (bind (read_loop inputs buf 0 last) terminate)
  when (is_silenced tty) wrote_newline
  when (differ tty) (attributes_set (old_flags tty))
  emit signals_restored
  when (is_opened tty) closed
  pure done
