-- ===== src/Tests/Greeting.antt =====
-- Runs of the programs of Lab02.
use pus.Base.{ℕ, ◌≡◌, refl, true, some, [], ◌∷◌, ◌==◌, map, length, if◌then◌else◌}
use pus.Base.Int.{pos, to_unsigned}
use pus.Base.Text.{Text, codes, atoi, is_text, c_string}
use pus.Base.Buffer.{overwrite}
use pus.Base.Strings.{is_word}
use pus.Base.Program.{ok, returns, exits, faults, out_of_bounds, uninitialised}
use pus.Greeting.{Kernel, Network, Trace, greeting, inet6, family_shown, name_shown, closed, shown}
use pus.Greeting.Steps.{emit, check, open_socket, received, show}
use pus.Greeting.Server4
use pus.Greeting.Server6
use pus.Greeting.Client
use pus.Greeting.Client4
use pus.Greeting.Client6
use pus.Greeting.Laws.{texts_to, greetings, server4_greets}
use pus.Greeting.Shown.{client4_shows, client6_shows}

abbrev kernel : Kernel
kernel = record { socket = some 3; bind_socket = λ port. true; listen = true }

abbrev net : Network
net = record {
  socket = some 3;
  getaddrinfo = λ host port. some inet6;
  if_nametoindex = λ interf. if length interf == 2 then 1 else 0;
  connect = λ ip port scope. port == 80;
  connect_first = true;
  getnameinfo = codes "::1";
  recv = some greeting;
}

abbrev short_address : Text
short_address = codes "fe80::1"

abbrev long_address : Text
long_address = codes "fe80::a00:27ff:fe4e:66a1"

port_80 : atoi (codes "80") ≡ ok (pos 80)
unfolding atoi
port_80 = refl

server4_greets_example :
    (t : Trace) × (Server4.main kernel
        (codes "server4" ∷ codes "80" ∷ [])
        (map some (4 ∷ 5 ∷ 4 ∷ []))
        []
      ≡ returns tt t)
    × ((fd : ℕ) → texts_to fd t ≡ greetings fd (4 ∷ 5 ∷ 4 ∷ []))
server4_greets_example =
    server4_greets kernel (codes "server4") (codes "80") 3 (pos 80) (4 ∷ 5 ∷ 4 ∷ []) refl port_80
      refl refl

-- The first client brings server6.cpp to the pointer that was never set.
server6_run :
    Server6.main kernel (codes "server6" ∷ codes "80" ∷ []) (some 4 ∷ []) [] ≡ faults uninitialised
unfolding Server6.main Server6.run Server6.loop check open_socket atoi to_unsigned
server6_run = refl

client6_shows_example :
    Client6.main net (codes "client6" ∷ short_address ∷ codes "80" ∷ codes "lo" ∷ []) []
    ≡ exits 0 (closed 3 ∷ shown greeting ∷ [])
unfolding is_word is_text to_unsigned
client6_shows_example =
    client6_shows net 3 greeting [] (codes "client6") (codes "80") b'f' b'l' (codes "e80::1")
      (codes "o") (pos 80) refl refl refl port_80 refl refl refl refl

-- An address as long as most are overruns its array.
client6_run :
    Client6.main net (codes "client6" ∷ long_address ∷ codes "80" ∷ codes "lo" ∷ []) []
    ≡ faults out_of_bounds
unfolding is_word is_text to_unsigned
client6_run =
    client6_shows net 3 greeting [] (codes "client6") (codes "80") b'f' b'l'
      (codes "e80::a00:27ff:fe4e:66a1") (codes "o") (pos 80) refl refl refl port_80 refl refl refl
      refl

client4_run :
    Client4.main net (codes "client4" ∷ codes "127.0.0.1" ∷ codes "80" ∷ []) []
    ≡ exits 0 (closed 3 ∷ shown greeting ∷ [])
unfolding is_text to_unsigned
client4_run =
    client4_shows net 3 greeting [] (codes "client4") (codes "127.0.0.1") (codes "80") (pos 80) refl
      port_80 refl refl refl

client_run :
    Client.main net (codes "client" ∷ codes "localhost" ∷ codes "80" ∷ []) []
    ≡ exits 0 (closed 3 ∷ shown greeting ∷ name_shown (codes "::1") ∷ family_shown inet6 ∷ [])
unfolding Client.main Client.with_address Client.show_family Client.descriptor_of emit check show
    received overwrite c_string atoi
client_run = refl
