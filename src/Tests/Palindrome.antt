-- ===== src/Tests/Palindrome.antt =====
-- Instances for Lab01/zad3/libpalindrome.c.
use pus.Base.{ℕ, ◌≡◌, refl, true, false, Option, none, some, List, [], ◌∷◌, ◌++◌, arith}
use pus.Base.Int.{ℤ, pos, to_unsigned}
use pus.Base.Text.{Text, c_string, atoi, codes, is_text, str_eq}
use pus.Base.Program.{Outcome, uninitialised, returns, exits, faults, Fault}
use pus.Palindrome.Client
use pus.Palindrome.Server.{State, Kernel, loop}
use pus.Palindrome.Server.Laws.{server3_answers}
use pus.Palindrome.Server.Texts.{are_checked, is_checked, deserved, deserve_all, replies, receipts}
use pus.Palindrome.{World, is_palindrome, isdigit, isalpha}
use pus.Palindrome.Laws.{Answers}
use pus.Palindrome.Digits.{
  digits, significant, has_letter, is_palindrome-Answers, is_palindrome_zero,
}
use pus.Base.Buffer.{zeros, overlaid, overwrite}

abbrev start : World
start = record { live = 2; printed = [] }

abbrev same : List ℕ
same = codes " 0121\n"

first_run :
    is_palindrome true same 6 start ≡ returns (pos 1) (record { live = 2; printed = codes "1210" })
unfolding is_palindrome isdigit isalpha
first_run = refl

-- What is no digit, no letter and no white space is skipped.
punctuation_is_skipped :
    is_palindrome true (codes "1-2.1") 5 start
    ≡ returns (pos 1) (record { live = 2; printed = codes "121" })
unfolding is_palindrome isdigit isalpha
punctuation_is_skipped = refl

no_memory : is_palindrome false same 6 start ≡ exits 1 start
unfolding is_palindrome
no_memory = refl

digit_test : has_letter same ≡ false
unfolding has_letter isalpha
digit_test = refl

digits_run : significant (digits same) ≡ codes "121"
unfolding significant digits isdigit
digits_run = refl

is_palindrome-Answers_example :
    (r : ℤ) × (is_palindrome true same 6 start
      ≡ returns r (record { live = 2; printed = codes "1210" }))
    × Answers (codes "121") r
unfolding significant digits isdigit
is_palindrome-Answers_example = is_palindrome-Answers same start digit_test (omega arith)

abbrev lettered : List ℕ
lettered = codes "12a1"

letter_test : has_letter lettered ≡ true
unfolding has_letter isalpha
letter_test = refl

zero_has_no_letter : has_letter (codes "0") ≡ false
unfolding has_letter isalpha
zero_has_no_letter = refl

zero_significant : significant (digits (codes "0")) ≡ []
unfolding significant digits isdigit
zero_significant = refl

is_palindrome_zero_run : (e : Fault) × (is_palindrome true (codes "0") 1 start ≡ faults e)
is_palindrome_zero_run = is_palindrome_zero (codes "0") start zero_has_no_letter zero_significant

-- A server that has memory.
abbrev kernel : Kernel
kernel = record { has_socket = true; bind_socket = λ port. true; malloc = λ t. true }

abbrev waiting : State
waiting = record { world = start; trace = [] }

-- A number that reads the same backwards, behind a longer one.
abbrev sent : List (ℕ × Text)
sent = (7, codes "121") ∷ (8, codes "33") ∷ []

sent_checked : are_checked [] sent ≡ true
unfolding are_checked is_text overlaid is_checked has_letter isalpha isdigit digits significant
sent_checked = refl

server3_answers_example :
    (t : State) × (loop kernel 0 (zeros 256) (receipts sent) waiting ≡ returns tt t)
    × (replies t.trace ≡ replies [] ++ deserve_all [] sent)
    × (t.world.live ≡ 2)
server3_answers_example = server3_answers kernel 0 (λ t. refl) sent waiting sent_checked

-- The second is answered as 331.
stale_reply : deserve_all [] sent ≡ (7, b't') ∷ (8, b'n') ∷ []
unfolding deserve_all deserved overlaid has_letter isalpha isdigit digits significant str_eq
stale_reply = refl

-- Lab01/zad3/client3.cpp, with a server that gets all that is sent.
abbrev client_kernel : Client.Kernel
client_kernel = record {
  has_socket = true;
  inet_pton = λ ip. Client.valid;
  connect = λ ip port. true;
  send = λ trace. true;
}

abbrev client3 : List (Text × Option (List ℕ)) → Outcome Client.Trace (Unit {0})
client3 rounds =
    Client.main client_kernel (codes "client3" ∷ codes "127.0.0.1" ∷ codes "80" ∷ []) rounds []

-- The one character that server3.cpp sends back leaves no NUL behind it.
client3_first_reply : client3 ((codes "121", some (codes "t")) ∷ []) ≡ faults uninitialised
unfolding Client.main Client.check_address Client.connect_to Client.loop Client.typed
    Client.send_text Client.show_reply Client.read_reply Client.emit overwrite c_string atoi
    to_unsigned
client3_first_reply = refl

client3_empty_line :
    client3 (([], none) ∷ []) ≡ exits 0 (Client.closed ∷ Client.sent [] ∷ Client.asked ∷ [])
unfolding Client.main Client.check_address Client.connect_to Client.loop Client.typed
    Client.send_text Client.close_all Client.emit c_string atoi to_unsigned
client3_empty_line = refl
