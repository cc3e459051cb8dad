-- ===== src/Tests/Ssh.antt =====
-- Runs of the parser of Lab12's arguments.
use pus.Base.{List, false, ℕ, ◌≡◌, refl, Bool, true, some, none, [], ◌∷◌, arith}
use pus.Base.Int.{ℤ, pos}
use pus.Base.Text.{Text, codes, strtol, split_at}
use pus.Base.Program.{faults, returns, uninitialised}
use pus.Ssh.Connection.{ConnectionData, Lookup, found, World, parse_connection_data}
use pus.Ssh.Password.{Tty, Input, byte, Trace, old_flags, get_password}
use pus.Ssh.Password.Laws.{line_read, line, result, flags_after, is_blocked, get_password-line}
use pus.Ssh.Connection.Arguments.{parse_connection_data-arguments}
use pus.Ssh.Connection.Laws.{is_complete, parse_connection_data_complete}
use pus.Ssh.Connection.Users.{has_no_user, parse_connection_data_no_user}

abbrev memory : ℕ → Bool
memory n = true

abbrev resolver : ℕ → Text → Lookup
resolver n host = found 2130706433

abbrev start : World
start = record { live = 0; mallocs = 0; lookups = 0; printed = [] }

abbrev program : Text
program = codes "exec_rsa"

abbrev target : Text
target = codes "ann@host"

abbrev ann : ConnectionData
ann = record {
  username = some (codes "ann");
  address = some 2130706433;
  port = strtol (codes "22");
}

abbrev last : World
last = record { live = 2; mallocs = 2; lookups = 1; printed = [] }

port_number : strtol (codes "22") ≡ 22
unfolding strtol
port_number = refl

-- What follows the digits is ignored.
port_prefix : strtol (codes "22x") ≡ 22
unfolding strtol
port_prefix = refl

program_parts : split_at b'@' program ≡ none
unfolding split_at
program_parts = refl

target_parts : split_at b'@' target ≡ some (codes "ann", codes "host")
unfolding split_at
target_parts = refl

parse_connection_data-arguments_example :
    parse_connection_data memory resolver (program ∷ codes "-p" ∷ codes "22" ∷ target ∷ []) 5 start
    ≡ returns (some ann) last
parse_connection_data-arguments_example =
    parse_connection_data-arguments memory resolver program (codes "22") target 97 (codes "nn")
      (codes "host") 2130706433 start refl program_parts (ground (arith, port_number))
      (ground (arith, port_number)) refl target_parts refl refl refl

parse_connection_data_complete_example : is_complete ann ≡ true
parse_connection_data_complete_example =
    parse_connection_data_complete memory resolver (program ∷ codes "-p" ∷ codes "22" ∷ target ∷ [])
      5 start (omega arith) (omega arith) parse_connection_data-arguments_example

port_only : has_no_user (program ∷ codes "-p" ∷ codes "22" ∷ []) ≡ true
unfolding has_no_user split_at
port_only = refl

parse_connection_data_no_user_example :
    parse_connection_data memory resolver (program ∷ codes "-p" ∷ codes "22" ∷ []) 5 start
    ≡ faults uninitialised
parse_connection_data_no_user_example =
    parse_connection_data_no_user memory resolver program (codes "-p") (codes "22" ∷ []) 5 start
      (omega arith) refl port_only

-- A terminal that echoes, at descriptor 3.
abbrev tty : Tty
tty = record { fd = 3; flags = some (record { echo = true; echonl = false }) }

-- Three bytes and the end of the line, for a buffer of three bytes.
abbrev keys : List Input
keys = byte 97 ∷ byte 98 ∷ byte 99 ∷ byte 10 ∷ []

get_password-line_example :
    (t : Trace) × (get_password (some tty) keys (1 ∷ 2 ∷ 3 ∷ []) 3 []
      ≡ returns (line_read keys [] (1 ∷ 2 ∷ []) (1 ∷ 2 ∷ 3 ∷ [])) t)
    × (flags_after (old_flags (some tty)) t ≡ old_flags (some tty))
    × (is_blocked t ≡ false)
get_password-line_example = get_password-line (some tty) keys (1 ∷ 2 ∷ []) 3 []

abbrev cut : List ℕ × ℤ
cut = (97 ∷ 98 ∷ 0 ∷ [], pos 0)

cut_line : line_read keys [] (1 ∷ 2 ∷ []) (1 ∷ 2 ∷ 3 ∷ []) ≡ cut
unfolding line result
cut_line = refl
