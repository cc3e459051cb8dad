-- ===== src/Greeting/Client4.antt =====
-- Lab02/client4.cpp.
use pus.Base.{ℕ, ◌%◌, ◌^◌, List, [], ◌∷◌}
use pus.Base.Int.{to_unsigned}
use pus.Base.Text.{Text, atoi}
use pus.Base.Program.{Prog, ◌>>=◌, ◌>>◌, lift, exit, exit_success}
use pus.Greeting.{connect_call, usage, closed, Trace, Network}
use pus.Greeting.Steps.{emit, give_up, check, open_socket, show}

abbrev pub message_size : ℕ
message_size = 512

module _ (net : Network) where
  unfoldable pub run : Text → Text → Prog Trace (Unit {0})
  unfolding emit check open_socket show
  run ip arg = do
    port ← lift (atoi arg)
    fd ← open_socket net.socket
    check connect_call (net.connect ip (to_unsigned port % 2 ^ 16) 0)
    show message_size net.recv
    emit (closed fd)
    exit exit_success

  unfoldable pub main : List Text → Prog Trace (Unit {0})
  unfolding give_up run
  main (program ∷ ip ∷ port ∷ []) = run ip port
  main argv = give_up usage
