-- ===== src/Greeting/Client.antt =====
-- Lab02/client.cpp, which takes the first address that `getaddrinfo` gives. Whether `socket` worked is not
-- looked at: `connect` fails where it did not.
use pus.Base.{ℕ, Option, none, some, List, [], ◌∷◌}
use pus.Base.Text.{Text, atoi}
use pus.Base.Program.{Prog, ◌>>=◌, ◌>>◌, pure, lift, exit, exit_success}
use pus.Greeting.{
  connect_call, getaddrinfo_call, usage, failed, closed, Family, inet, inet6, other_family,
  family_shown, unknown_family, name_shown, Trace, Network,
}
use pus.Greeting.Steps.{emit, give_up, check, show}
use pus.Greeting.Client4.{message_size}

unfoldable pub show_family : Family → Prog Trace (Unit {0})
unfolding emit give_up
show_family inet = emit (family_shown inet)
show_family inet6 = emit (family_shown inet6)
show_family other_family = give_up unknown_family

unfoldable pub descriptor_of : Option ℕ → Prog Trace ℕ
unfolding give_up
descriptor_of none = give_up (failed connect_call)
descriptor_of (some fd) = pure fd

module _ (net : Network) where
  unfoldable pub with_address : Option Family → Prog Trace (Unit {0})
  unfolding emit give_up check show show_family descriptor_of
  with_address none = give_up (failed getaddrinfo_call)
  with_address (some family) = do
    show_family family
    fd ← descriptor_of net.socket
    check connect_call net.connect_first
    emit (name_shown net.getnameinfo)
    show message_size net.recv
    emit (closed fd)
    exit exit_success

  unfoldable pub main : List Text → Prog Trace (Unit {0})
  unfolding give_up with_address
  main (program ∷ host ∷ port ∷ []) = do
    number ← lift (atoi port)
    with_address (net.getaddrinfo host port)
  main argv = give_up usage
