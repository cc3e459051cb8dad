-- ===== src/Sctp/Traces.antt =====
-- What the traces of the programs of Lab04 say, and a system in which every call succeeds.
use pus.Base.{
  ℕ, ◌<◌, ◌≡◌, Bool, true, ◌&&◌, ltb, Option, some, List, [], ◌∷◌, ◌++◌, ◌-◌, suc, zero, length,
  arith, ap, ◌∙◌,
}
use pus.Base.Text.{Text, c_string, is_text, c_string-append}
use pus.Base.Program.{ok}
use pus.Sctp.{printed, sent, Line, Trace, found, Kernel}
use pus.Base.Buffer.{zeros}
use pus.Sctp.Steps.{filled, buff_size}

-- A message, with the socket and the address that it was sent to.
pub record Message : Type 0 where
  pub socket : ℕ
  pub to : Option ℕ
  pub text : Text
  pub stream : ℕ

-- The messages that were sent, the latest first.
unfoldable pub sent_messages : Trace → List Message
sent_messages [] = []
sent_messages (sent fd to text stream ∷ trace) =
    record { socket = fd; to = to; text = text; stream = stream } ∷ sent_messages trace
sent_messages (_ ∷ trace) = sent_messages trace

-- No message was sent to a stream from `n` on.
unfoldable pub streams_below : ℕ → Trace → Bool
streams_below n [] = true
streams_below n (sent fd to text stream ∷ trace) = ltb stream n && streams_below n trace
streams_below n (_ ∷ trace) = streams_below n trace

-- The lines that were printed, the latest first.
unfoldable pub printed_lines : Trace → List Line
printed_lines [] = []
printed_lines (printed line ∷ trace) = line ∷ printed_lines trace
printed_lines (_ ∷ trace) = printed_lines trace

pub record Succeeds (kernel : Kernel) : Type 0 where
  pub fd : ℕ
  pub address : ℕ
  pub resolves : (host port : Text) → kernel.getaddrinfo host port ≡ found address
  pub opens : (trace : Trace) → kernel.socket trace ≡ some fd
  pub binds : (port : ℕ) (trace : Trace) → kernel.bind_socket port trace ≡ true
  pub sets : (trace : Trace) → kernel.setsockopt trace ≡ true
  pub listens : (trace : Trace) → kernel.listen trace ≡ true
  pub connects : (trace : Trace) → kernel.connect address trace ≡ true
  pub sends :
      (socket : ℕ) (to : Option ℕ) (text : Text) (stream : ℕ) (trace : Trace)
      → kernel.sendmsg socket to text stream trace ≡ true

length-filled : (bytes : List ℕ) (n : ℕ) → 0 < n → bytes ++ zeros n ≡ bytes ++ 0 ∷ zeros (n - 1)
length-filled bytes zero h = absurd (omega arith)
length-filled bytes (suc n) h = ap (λ (k : ℕ). bytes ++ 0 ∷ zeros k) (omega arith)

-- A message that leaves room for the NUL is read back, and one that fills the buffer is not.
pub c_string-filled :
    (bytes : List ℕ)
    → is_text bytes ≡ true
    → length bytes < buff_size
    → c_string (filled bytes) ≡ ok bytes
unfolding filled
c_string-filled bytes t h =
    ap c_string (length-filled bytes (buff_size - length bytes) (omega arith))
    ∙ c_string-append bytes (zeros (buff_size - length bytes - 1)) t
