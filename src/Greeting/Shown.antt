-- ===== src/Greeting/Shown.antt =====
-- What the clients of Lab02 show.
use pus.Base.{
  ℕ, ◌%◌, ◌^◌, ◌≡◌, ◌∙◌, refl, Bool, true, false, ◌&&◌, some, [], ◌∷◌, length, ◌==◌, ltb,
  if◌then◌else◌, Bool-cases, inl, inr, arith,
}
use pus.Base.Int.{ℤ, to_unsigned}
use pus.Base.Text.{Text, atoi, is_text}
use pus.Base.Strings.{is_word, scan_word_all}
use pus.Base.Program.{
  Prog, Outcome, ok, fails, returns, exits, faults, ◌>>=◌, ◌>>◌, exit, out_of_bounds, >>=-returns,
}
use pus.Greeting.{Trace, Network, closed, shown}
use pus.Greeting.Steps.{emit, check, open_socket, show}
use pus.Greeting.Laws.{received-seen}
use pus.Greeting.Client4
use pus.Greeting.Client4.{message_size}
use pus.Greeting.Client6.{
  max_size_of_message, ip_size, interf_size, read_name, interface_number, server_connect,
  msg_recieve, run, main,
}

-- The end of a client: a text that leaves room for the NUL is shown.
abbrev pub ends : Bool → ℕ → Text → Trace → Outcome Trace (Unit {0})
ends fits fd text trace =
    if fits then exits 0 (closed fd ∷ shown text ∷ trace) else faults out_of_bounds

close_and_exit : ℕ → Prog Trace (Unit {0})
unfolding emit
close_and_exit fd = do emit (closed fd); exit 0

show-ends :
    (size fd : ℕ) (text : Text) (trace : Trace)
    → is_text text ≡ true
    → (show size (some text) >> close_and_exit fd) trace
      ≡ ends (ltb (length text) size) fd text trace
unfolding show emit close_and_exit
show-ends size fd text trace h = elim (Bool-cases (ltb (length text) size)) [
  | inl fits ↦ ground (arith, received-seen size text h)
  | inr full ↦ ground (arith, received-seen size text h)
]

module _ (net : Network) (fd : ℕ) (text : Text) (trace : Trace) where
  -- The client of client4.cpp, if it is connected, shows the message that it receives, in which there
  -- is no NUL, if it is shorter than the buffer; one that fills the buffer is read beyond its end.
  pub client4_shows :
      (program ip arg : Text) (number : ℤ)
      → net.socket ≡ some fd
      → atoi arg ≡ ok number
      → net.connect ip (to_unsigned number % 2 ^ 16) 0 ≡ true
      → net.recv ≡ some text
      → is_text text ≡ true
      → Client4.main net (program ∷ ip ∷ arg ∷ []) trace
        ≡ ends (ltb (length text) message_size) fd text trace
  unfolding Client4.main Client4.run open_socket check close_and_exit
  client4_shows program ip arg number opened parsed connected came h =
      rw parsed (rw opened (rw connected (rw came (show-ends message_size fd text trace h))))

  interface_number_works :
      (interf : Text)
      → (net.if_nametoindex interf == 0) ≡ false
      → interface_number net interf trace ≡ returns (net.if_nametoindex interf) trace
  unfolding interface_number check
  interface_number_works interf h = rw h refl

  server_connect_works :
      (ip : Text) (port scope : ℕ)
      → net.connect ip port scope ≡ true
      → server_connect net ip port scope trace ≡ returns tt trace
  unfolding server_connect check
  server_connect_works ip port scope h = rw h refl

  read_name-eq :
      (size d : ℕ) (name : Text)
      → is_word (d ∷ name) ≡ true
      → read_name size (d ∷ name)
        ≡ (if ltb (length (d ∷ name)) size then ok (d ∷ name) else fails out_of_bounds)
  unfolding read_name
  read_name-eq size d name h = ground (arith, scan_word_all d name h)

  after_names :
      (ip interf : Text) (port : ℕ)
      → (net.if_nametoindex interf == 0) ≡ false
      → net.connect ip port (net.if_nametoindex interf) ≡ true
      → net.recv ≡ some text
      → is_text text ≡ true
      → (interface_number net interf >>= λ scope.
            server_connect net ip port scope >> (msg_recieve net >> close_and_exit fd))
          trace
        ≡ ends (ltb (length text) max_size_of_message) fd text trace
  unfolding msg_recieve
  after_names ip interf port known connected came h =
      let scope = net.if_nametoindex interf in
      >>=-returns (interface_number net interf)
        (λ scope. server_connect net ip port scope >> (msg_recieve net >> close_and_exit fd))
        (interface_number_works interf known)
      ∙ >>=-returns (server_connect net ip port scope) (λ _. msg_recieve net >> close_and_exit fd)
          (server_connect_works ip port scope connected)
      ∙ rw came (show-ends max_size_of_message fd text trace h)

  -- The client of client6.c, called with three words, of which the second is a number, for an
  -- interface that there is and an address that it can connect to with the number of the interface
  -- as the scope, shows the message that it receives, in which there is no NUL, and ends with
  -- success, if the address has less than 16 characters, the name of the interface less than 3, and
  -- the message less than 256 bytes; if one is longer, an array is overrun.
  pub client6_shows :
      (program arg : Text) (c d : ℕ) (ip interf : Text) (number : ℤ)
      → is_word (c ∷ ip) ≡ true
      → is_word (d ∷ interf) ≡ true
      → net.socket ≡ some fd
      → atoi arg ≡ ok number
      → (net.if_nametoindex (d ∷ interf) == 0) ≡ false
      → net.connect (c ∷ ip) (to_unsigned number % 2 ^ 16) (net.if_nametoindex (d ∷ interf)) ≡ true
      → net.recv ≡ some text
      → is_text text ≡ true
      → main net (program ∷ (c ∷ ip) ∷ arg ∷ (d ∷ interf) ∷ []) trace
        ≡ ends
            (ltb (length (c ∷ ip)) ip_size
              && (ltb (length (d ∷ interf)) interf_size && ltb (length text) max_size_of_message))
            fd
            text
            trace
  unfolding main run open_socket close_and_exit
  client6_shows program arg c d ip interf number wi wf opened parsed known connected came h =
      let read_ip = read_name-eq ip_size c ip wi in
      let read_interf = read_name-eq interf_size d interf wf in
      let rest =
        after_names (c ∷ ip) (d ∷ interf) (to_unsigned number % 2 ^ 16) known connected came h in
      elim (Bool-cases (ltb (length (c ∷ ip)) ip_size)) [
        | inl short ↦ elim (Bool-cases (ltb (length (d ∷ interf)) interf_size)) [
          | inl short2 ↦
              rw opened (rw read_ip (rw short (rw parsed (rw read_interf (rw short2 rest)))))
          | inr long2 ↦
              rw opened (rw read_ip (rw short (rw parsed (rw read_interf (rw long2 refl)))))
        ]
        | inr long ↦ rw opened (rw read_ip (rw long refl))
      ]
