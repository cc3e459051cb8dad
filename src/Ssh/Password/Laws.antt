-- ===== src/Ssh/Password/Laws.antt =====
-- What `get_password` of Lab12/libcommon.c leaves in the buffer and at the terminal.
use pus.Base.{
  ℕ, zero, suc, ◌+◌, ◌≡◌, refl, Bool, true, false, ◌||◌, ◌&&◌, Option, List, [], ◌∷◌, ◌++◌, ◌==◌,
  if◌then◌else◌, ap, length, drop, set-middle, length-append, arith,
}
use pus.Base.Int.{ℤ, pos, negsuc}
use pus.Base.Program.{Result, ok, bind, returns}
use pus.Ssh.Password.{
  Flags, Tty, Input, byte, read_error, signals_blocked, signals_restored, attributes_set,
  wrote_prompt, wrote_newline, closed, silent, Trace, is_line_end, put, read_loop, terminate,
  old_flags, is_silenced, differ, is_opened, when, emit, get_password,
}

-- The bytes of the first line, `n` at most.
unfoldable pub line : ℕ → List Input → List ℕ
line n [] = []
line n (read_error ∷ inputs) = []
line zero (byte ch ∷ inputs) = []
line (suc n) (byte ch ∷ inputs) = if ch == b'\n' || ch == b'\r' then [] else ch ∷ line n inputs

-- -1 if an error ends that line; the byte behind `n` bytes is read too.
unfoldable pub result : ℕ → List Input → ℤ
result n [] = pos 0
result n (read_error ∷ inputs) = negsuc 0
result zero (byte ch ∷ inputs) = pos 0
result (suc n) (byte ch ∷ inputs) = if ch == b'\n' || ch == b'\r' then pos 0 else result n inputs

stored :
    (front : List ℕ) (y v : ℕ) (rest : List ℕ)
    → put (front ++ y ∷ rest) (length front) v ≡ ok (front ++ v ∷ rest)
unfolding put
stored front y v rest = ground (arith, length-append front (y ∷ rest), set-middle front y v rest)

-- The loop with the NUL behind it, at `front`, with room for `room` and the NUL.
abbrev read_line : List Input → List ℕ → List ℕ → List ℕ → Result (List ℕ × ℤ)
read_line inputs front room rest =
    bind (read_loop inputs (front ++ rest) (length front) (length front + length room)) terminate

abbrev pub line_read : List Input → List ℕ → List ℕ → List ℕ → List ℕ × ℤ
line_read inputs front room rest = (
  front ++ (line (length room) inputs ++ 0 ∷ drop (suc (length (line (length room) inputs))) rest),
  result (length room) inputs,
)

-- A byte that is stored moves from the room to the front.
shift :
    (front : List ℕ) (c : ℕ) (rest : List ℕ)
    → ((front ++ c ∷ []) ++ rest ≡ front ++ c ∷ rest)
      × (length (front ++ c ∷ []) ≡ suc (length front))
shift [] c rest = (refl, refl)
shift (x ∷ front) c rest = let (e, l) = shift front c rest in (ap (λ xs. x ∷ xs) e, ap suc l)

read-line :
    (inputs : List Input) (front room : List ℕ) (z : ℕ) (behind : List ℕ)
    → read_line inputs front room (room ++ z ∷ behind)
      ≡ ok (line_read inputs front room (room ++ z ∷ behind))
unfolding read_loop terminate is_line_end line result
read-line [] front [] z behind = ground (arith, stored front z 0 behind)
read-line [] front (y ∷ room) z behind = ground (arith, stored front y 0 (room ++ z ∷ behind))
read-line (read_error ∷ inputs) front [] z behind = ground (arith, stored front z 0 behind)
read-line (read_error ∷ inputs) front (y ∷ room) z behind =
    ground (arith, stored front y 0 (room ++ z ∷ behind))
read-line (byte c ∷ inputs) front [] z behind = ground (arith, stored front z 0 behind)
read-line (byte c ∷ inputs) front (y ∷ room) z behind = ground (
  arith,
  stored front y 0 (room ++ z ∷ behind),
  stored front y c (room ++ z ∷ behind),
  shift front c (room ++ z ∷ behind),
  shift front c (
      line (length room) inputs
      ++ 0 ∷ drop (suc (length (line (length room) inputs))) (room ++ z ∷ behind)),
  read-line inputs (front ++ c ∷ []) room z behind,
)

-- The flags of the terminal behind the events, and whether signals are blocked.
pub flags_after : Flags → Trace → Flags
flags_after flags [] = flags
flags_after flags (attributes_set new ∷ trace) = new
flags_after flags (_ ∷ trace) = flags_after flags trace

pub is_blocked : Trace → Bool
is_blocked [] = false
is_blocked (signals_blocked ∷ trace) = true
is_blocked (signals_restored ∷ trace) = false
is_blocked (_ ∷ trace) = is_blocked trace

-- The events, by whether echo is switched off, the flags have changed, and a terminal was opened.
abbrev events : Bool → Bool → Bool → Flags → Trace
events silenced changed opened old =
    let start =
      if silenced then attributes_set silent ∷ signals_blocked ∷ [] else signals_blocked ∷ [] in
    let lined = if silenced then wrote_newline ∷ wrote_prompt ∷ start else wrote_prompt ∷ start in
    let back = if changed then attributes_set old ∷ lined else lined in
    if opened then closed ∷ signals_restored ∷ back else signals_restored ∷ back

silent-eq : (old : Flags) → (old.echo || old.echonl) ≡ false → silent ≡ old
silent-eq old h = ground arith

events-restore :
    (silenced opened : Bool) (old : Flags)
    → let t = events silenced (silenced && (old.echo || old.echonl)) opened old in
      (flags_after old t ≡ old) × (is_blocked t ≡ false)
unfolding flags_after is_blocked
events-restore false true old = (refl, refl)
events-restore false false old = (refl, refl)
events-restore true true old = (ground (arith, silent-eq old), ground arith)
events-restore true false old = (ground (arith, silent-eq old), ground arith)

-- With `buf_len` one more than the length of `room`, the buffer gets the first line, cut to the
-- length of `room`, with a NUL behind it; nothing else is changed. The result is -1 if an error of
-- `read` ends the line, and 0 otherwise. The flags of the terminal are what they were, and signals
-- are not blocked.
pub get_password-line :
    (tty : Option Tty) (inputs : List Input) (room : List ℕ) (z : ℕ) (behind : List ℕ)
    → (t : Trace) × (get_password tty inputs (room ++ z ∷ behind) (suc (length room)) []
        ≡ returns (line_read inputs [] room (room ++ z ∷ behind)) t)
      × (flags_after (old_flags tty) t ≡ old_flags tty)
      × (is_blocked t ≡ false)
unfolding get_password emit when differ
get_password-line tty inputs room z behind =
    let t = events (is_silenced tty) (differ tty) (is_opened tty) (old_flags tty) in
    let (flags, blocked) = events-restore (is_silenced tty) (is_opened tty) (old_flags tty) in
    (t, ground (arith, read-line inputs [] room z behind), flags, blocked)
