-- ===== src/Greeting/Server4.antt =====
-- Lab02/server4.c. `port` is a global variable, which holds 0 where `sscanf` finds no number; this is
-- what `atoi` gives.
use pus.Base.{ℕ, ◌%◌, ◌^◌, Option, none, some, List, [], ◌∷◌}
use pus.Base.Int.{to_unsigned}
use pus.Base.Text.{Text, atoi}
use pus.Base.Program.{Prog, ◌>>=◌, ◌>>◌, pure, lift}
use pus.Greeting.{
  bind_call, listen_call, accept_call, usage, failed, is_waiting, accepted, sent_to, closed, Trace,
  Kernel, greeting,
}
use pus.Greeting.Steps.{emit, give_up, check, open_socket}

-- The loop, over what `accept` gives.
unfoldable pub sending_response : List (Option ℕ) → Prog Trace (Unit {0})
unfolding emit give_up
sending_response [] = pure tt
sending_response (none ∷ rest) = give_up (failed accept_call)
sending_response (some fd ∷ rest) = do
  emit (accepted fd)
  emit (sent_to fd greeting)
  emit (closed fd)
  sending_response rest

module _ (kernel : Kernel) where
  unfoldable pub binding : Text → Prog Trace (Unit {0})
  unfolding check
  binding arg = do
    port ← lift (atoi arg)
    check bind_call (kernel.bind_socket (to_unsigned port % 2 ^ 16))

  unfoldable pub listening : Prog Trace (Unit {0})
  unfolding check
  listening = check listen_call kernel.listen

  unfoldable pub run : Text → List (Option ℕ) → Prog Trace (Unit {0})
  unfolding emit open_socket binding listening sending_response
  run arg connections = do
    fd ← open_socket kernel.socket
    binding arg
    emit is_waiting
    listening
    sending_response connections

  unfoldable pub main : List Text → List (Option ℕ) → Prog Trace (Unit {0})
  unfolding give_up run
  main (program ∷ arg ∷ []) connections = run arg connections
  main argv connections = give_up usage
