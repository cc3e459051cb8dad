-- ===== src/Chat/Laws.antt =====
-- What each client of Lab01/zad4/server4.cpp receives.
use pus.Base.{
  ℕ, zero, suc, Bool, true, false, ◌&&◌, ◌||◌, not, List, [], ◌∷◌, ◌++◌, ◌==◌, ltb, if◌then◌else◌,
  length,
}
use pus.Base.Text.{Text, is_text}
use pus.Base.Buffer.{overlaid}
use pus.Chat.{sent_to, Trace, Reading, bytes, read_error, Round, buffer_size, is_set, message}

-- What a client was sent, from the first message on.
unfoldable pub inbox : ℕ → Trace → List Text
inbox client [] = []
inbox client (sent_to fd text ∷ trace) =
    if fd == client then inbox client trace ++ text ∷ [] else inbox client trace
inbox client (_ ∷ trace) = inbox client trace

unfoldable pub count : ℕ → List ℕ → ℕ
count client [] = 0
count client (fd ∷ fds) = if fd == client then suc (count client fds) else count client fds

copies : ℕ → Text → List Text
copies zero text = []
copies (suc n) text = text ∷ copies n text

-- What a broadcast adds to the inbox of a client: a copy for each time that the client stands in
-- the vector, if it is not the speaker.
unfoldable pub delivery : ℕ → ℕ → List ℕ → Text → List Text
unfolding count copies
delivery client fd fds text = if client == fd then [] else copies (count client fds) text

-- A text of 1 to 255 bytes was read.
unfoldable pub is_line : Reading → Bool
unfolding is_text
is_line read_error = false
is_line (bytes text) = is_text text && ltb 0 (length text) && ltb (length text) buffer_size

unfoldable pub are_lines : Round → List ℕ → List ℕ → Bool
unfolding is_set is_line
are_lines r watched [] = true
are_lines r watched (fd ∷ fds) =
    (not (is_set r watched fd) || is_line (r.reads fd)) && are_lines r watched fds

-- The text in the buffer behind a read.
unfoldable pub read_over : Reading → Text → Text
unfolding overlaid
read_over read_error old = old
read_over (bytes text) old = overlaid text old

-- What a client is due in a pass over the clients that are left: the message of each other client
-- that is ready, in order.
unfoldable pub due : ℕ → Round → List ℕ → List ℕ → List ℕ → Text → List Text
unfolding is_set delivery message read_over
due client r watched clients [] old = []
due client r watched clients (fd ∷ fds) old =
    if is_set r watched fd
    then delivery client fd clients (message fd (read_over (r.reads fd) old))
      ++ due client r watched clients fds (read_over (r.reads fd) old)
    else due client r watched clients fds old
