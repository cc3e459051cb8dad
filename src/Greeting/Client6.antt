-- ===== src/Greeting/Client6.antt =====
-- Lab02/client6.c. `ip` and `interf` are global variables, which stay empty where `sscanf` finds no word.
use pus.Base.{ℕ, ◌%◌, ◌^◌, ◌==◌, not, none, some, List, [], ◌∷◌, length, ltb, if◌then◌else◌}
use pus.Base.Int.{to_unsigned}
use pus.Base.Text.{Text, atoi}
use pus.Base.Strings.{scan_word}
use pus.Base.Program.{
  Prog, Result, ok, fails, out_of_bounds, ◌>>=◌, ◌>>◌, pure, lift, exit, exit_success,
}
use pus.Greeting.{connect_call, if_nametoindex_call, usage, closed, Trace, Network}
use pus.Greeting.Steps.{emit, give_up, check, open_socket, show}

abbrev pub max_size_of_message : ℕ
max_size_of_message = 256

abbrev pub ip_size : ℕ
ip_size = 16

abbrev pub interf_size : ℕ
interf_size = 3

-- `sscanf(arg, "%s", name)` for an array of a size.
unfoldable pub read_name : ℕ → Text → Result Text
read_name size arg = elim (scan_word arg) [
  | none ↦ ok []
  | some (name, rest) ↦ if ltb (length name) size then ok name else fails out_of_bounds
]

module _ (net : Network) where
  unfoldable pub interface_number : Text → Prog Trace ℕ
  unfolding check
  interface_number interf = do
    check if_nametoindex_call (not (net.if_nametoindex interf == 0))
    pure (net.if_nametoindex interf)

  unfoldable pub server_connect : Text → ℕ → ℕ → Prog Trace (Unit {0})
  unfolding check
  server_connect ip port scope = check connect_call (net.connect ip port scope)

  unfoldable pub msg_recieve : Prog Trace (Unit {0})
  unfolding show
  msg_recieve = show max_size_of_message net.recv

  unfoldable pub run : Text → Text → Text → Prog Trace (Unit {0})
  unfolding emit open_socket read_name interface_number server_connect msg_recieve
  run arg1 arg2 arg3 = do
    fd ← open_socket net.socket
    ip ← lift (read_name ip_size arg1)
    port ← lift (atoi arg2)
    interf ← lift (read_name interf_size arg3)
    scope ← interface_number interf
    server_connect ip (to_unsigned port % 2 ^ 16) scope
    msg_recieve
    emit (closed fd)
    exit exit_success

  unfoldable pub main : List Text → Prog Trace (Unit {0})
  unfolding give_up run
  main (program ∷ ip ∷ port ∷ interf ∷ []) = run ip port interf
  main argv = give_up usage
