-- ===== src/Greeting/Laws.antt =====
-- What the servers of Lab02 send, and what the clients show.
use pus.Base.{
  ℕ, zero, suc, ◌-◌, ◌%◌, ◌^◌, ◌≡◌, ◌∙◌, refl, ap, true, some, List, [], ◌∷◌, ◌++◌, map, length,
  take, drop, length-take, ◌==◌, ltb, if◌then◌else◌, Bool-cases, inl, inr, arith,
}
use mathlib.Core.List.{append-nil}
use pus.Base.Int.{ℤ, to_unsigned}
use pus.Base.Text.{Text, atoi, is_text, c_string, c_string-append, c_string-full}
use pus.Base.Buffer.{overwrite, zeros, take_all}
use pus.Base.Strings.{drop-zeros}
use pus.Base.Program.{Result, ok, fails, returns, ◌>>◌, out_of_bounds, >>=-returns}
use pus.Greeting.{is_waiting, accepted, sent_to, closed, Trace, Kernel, greeting}
use pus.Greeting.Steps.{emit, check, open_socket, received}
use pus.Greeting.Server4

is_text-take : (n : ℕ) (text : List ℕ) → is_text text ≡ true → is_text (take n text) ≡ true
unfolding is_text
is_text-take zero text h = refl
is_text-take (suc n) [] h = refl
is_text-take (suc n) (c ∷ text) h = ground (arith, is_text-take n text (ground arith))

-- What a client reads of a text that it received: one that leaves no room for the NUL is read
-- beyond the buffer.
abbrev pub seen : ℕ → Text → Result Text
seen size text = if ltb (length text) size then ok text else fails out_of_bounds

pub received-seen :
    (size : ℕ) (text : Text)
    → is_text text ≡ true
    → c_string (received size (some text)) ≡ seen size text
unfolding received overwrite
received-seen size text h = elim (Bool-cases (ltb (length text) size)) [
  | inl fits ↦
      let k = size - length text - 1 in
      let room : size - length text ≡ suc k = ground arith in
      let whole = take_all size text (ground arith) in
      rw fits (
        ap (λ (l : List ℕ). c_string (l ++ drop (length l) (zeros size))) whole
        ∙ ap (λ (l : List ℕ). c_string (text ++ l)) (drop-zeros (length text) size ∙ ap zeros room)
        ∙ c_string-append text (zeros k) h)
  | inr full ↦
      let front = take size text in
      let long = length-take size text in
      let none_left : size - length front ≡ 0 = ground (arith, long) in
      rw full (
        ap (λ (l : List ℕ). c_string (front ++ l))
          (drop-zeros (length front) size ∙ ap zeros none_left)
        ∙ ap c_string (append-nil front)
        ∙ c_string-full front (is_text-take size text h))
]

-- The texts that were sent to a descriptor, and how often it was given out.
unfoldable pub texts_to : ℕ → Trace → List Text
texts_to fd [] = []
texts_to fd (sent_to a text ∷ trace) =
    if a == fd then text ∷ texts_to fd trace else texts_to fd trace
texts_to fd (_ ∷ trace) = texts_to fd trace

unfoldable pub greetings : ℕ → List ℕ → List Text
greetings fd [] = []
greetings fd (a ∷ fds) = if a == fd then greeting ∷ greetings fd fds else greetings fd fds

greetings_behind :
    (fd : ℕ) (fds : List ℕ) (rest : List Text)
    → greetings fd fds ++ greeting ∷ rest ≡ greeting ∷ (greetings fd fds ++ rest)
unfolding greetings
greetings_behind fd [] rest = refl
greetings_behind fd (a ∷ fds) rest = ground (arith, greetings_behind fd fds rest)

abbrev pub greeted : List ℕ → Trace → Trace
greeted [] trace = trace
greeted (fd ∷ fds) trace = greeted fds (closed fd ∷ sent_to fd greeting ∷ accepted fd ∷ trace)

greeted-texts_to :
    (fd : ℕ) (fds : List ℕ) (trace : Trace)
    → texts_to fd (greeted fds trace) ≡ greetings fd fds ++ texts_to fd trace
unfolding texts_to greetings
greeted-texts_to fd [] trace = refl
greeted-texts_to fd (a ∷ fds) trace = ground (
  arith,
  greeted-texts_to fd fds (closed a ∷ sent_to a greeting ∷ accepted a ∷ trace),
  greetings_behind fd fds (texts_to fd trace),
)

sending_response-greeted :
    (fds : List ℕ) (trace : Trace)
    → Server4.sending_response (map some fds) trace ≡ returns tt (greeted fds trace)
unfolding Server4.sending_response emit
sending_response-greeted [] trace = refl
sending_response-greeted (fd ∷ fds) trace =
    sending_response-greeted fds (closed fd ∷ sent_to fd greeting ∷ accepted fd ∷ trace)

binding_works :
    (kernel : Kernel) (arg : Text) (number : ℤ) (trace : Trace)
    → atoi arg ≡ ok number
    → kernel.bind_socket (to_unsigned number % 2 ^ 16) ≡ true
    → Server4.binding kernel arg trace ≡ returns tt trace
unfolding Server4.binding check
binding_works kernel arg number trace parsed bound_ = ground arith

listening_works :
    (kernel : Kernel) (trace : Trace)
    → kernel.listen ≡ true
    → Server4.listening kernel trace ≡ returns tt trace
unfolding Server4.listening check
listening_works kernel trace listens = rw listens refl

-- The server of server4.c, once it listens, sends the greeting to each descriptor as often as
-- `accept` gives it, and nothing else.
pub server4_greets :
    (kernel : Kernel) (program arg : Text) (listener : ℕ) (number : ℤ) (fds : List ℕ)
    → kernel.socket ≡ some listener
    → atoi arg ≡ ok number
    → kernel.bind_socket (to_unsigned number % 2 ^ 16) ≡ true
    → kernel.listen ≡ true
    → (t : Trace) × (Server4.main kernel (program ∷ arg ∷ []) (map some fds) [] ≡ returns tt t)
      × ((fd : ℕ) → texts_to fd t ≡ greetings fd fds)
unfolding Server4.main Server4.run open_socket emit texts_to
server4_greets kernel program arg listener number fds opened parsed bound_ listens = (
  greeted fds (is_waiting ∷ []),
  rw opened (
      >>=-returns (Server4.binding kernel arg)
        (λ _.
          emit is_waiting >> (Server4.listening kernel >> Server4.sending_response (map some fds)))
        (binding_works kernel arg number [] parsed bound_)
      ∙ >>=-returns (Server4.listening kernel) (λ _. Server4.sending_response (map some fds))
          (listening_works kernel (is_waiting ∷ []) listens)
      ∙ sending_response-greeted fds (is_waiting ∷ [])),
  λ fd. greeted-texts_to fd fds (is_waiting ∷ []) ∙ append-nil (greetings fd fds),
)
