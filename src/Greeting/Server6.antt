-- ===== src/Greeting/Server6.antt =====
-- Lab02/server6.cpp. Behind `accept` the address of the client is written through a pointer that was never
-- set, which is undefined: what the code says for the rest of the round is not modelled.
use pus.Base.{ℕ, ◌%◌, ◌^◌, Option, none, some, List, [], ◌∷◌}
use pus.Base.Int.{to_unsigned}
use pus.Base.Text.{Text, atoi}
use pus.Base.Program.{Prog, ◌>>=◌, ◌>>◌, pure, lift, fault, uninitialised}
use pus.Greeting.{bind_call, listen_call, accept_call, usage, failed, Trace, Kernel}
use pus.Greeting.Steps.{give_up, check, open_socket}

unfoldable pub loop : List (Option ℕ) → Prog Trace (Unit {0})
unfolding give_up
loop [] = pure tt
loop (none ∷ rest) = give_up (failed accept_call)
loop (some fd ∷ rest) = fault uninitialised

module _ (kernel : Kernel) where
  unfoldable pub run : Text → List (Option ℕ) → Prog Trace (Unit {0})
  unfolding check open_socket loop
  run arg connections = do
    port ← lift (atoi arg)
    fd ← open_socket kernel.socket
    check bind_call (kernel.bind_socket (to_unsigned port % 2 ^ 16))
    check listen_call kernel.listen
    loop connections

  unfoldable pub main : List Text → List (Option ℕ) → Prog Trace (Unit {0})
  unfolding give_up run
  main (program ∷ arg ∷ []) connections = run arg connections
  main argv connections = give_up usage
