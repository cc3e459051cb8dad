-- ===== src/Tests/Chat.antt =====
-- Runs of Lab01/zad4/server4.cpp.
use pus.Base.{ℕ, ◌≡◌, refl, true, false, ◌||◌, none, some, List, [], ◌∷◌, ◌==◌, if◌then◌else◌}
use pus.Base.Text.{Text, codes, c_string, decimal}
use pus.Base.Buffer.{overwrite}
use pus.Base.Program.{Outcome, returns, exits, faults, out_of_bounds}
use pus.Chat.{
  State, Reading, bytes, Round, emit, is_member, is_set, push_back, greet, check_for_new_connection,
  message, broadcast, speak, leave, hear, check_clients, check_connected_clients, round, loop,
}
use pus.Chat.Laws.{inbox}

abbrev says : ℕ → Reading
says fd = bytes (if fd == 4 then codes "hello\n" else codes "hi\n")

-- Client 4 and client 5 have something to say.
abbrev talk : Round
talk = record {
  select_failed = false;
  ready = λ fd. fd == 4 || fd == 5;
  accepted = none;
  is_greeted = true;
  reads = says;
}

abbrev arrival : ℕ → Round
arrival fd = record {
  select_failed = false;
  ready = λ fd. fd == 3;
  accepted = some fd;
  is_greeted = true;
  reads = says;
}

abbrev departure : Round
departure = record {
  select_failed = false;
  ready = λ fd. fd == 4;
  accepted = none;
  is_greeted = true;
  reads = λ fd. bytes [];
}

abbrev start : State
start = record { clients = []; trace = [] }

abbrev three : State
three = record { clients = 4 ∷ 5 ∷ 6 ∷ []; trace = [] }

abbrev inbox_after : ℕ → Outcome State (Unit {0}) → List Text
inbox_after fd (returns a s) = inbox fd s.trace
inbox_after fd (exits code s) = []
inbox_after fd (faults e) = []

-- The third client hears the first, and the second with the end of what the first said.
talk_heard :
    inbox_after 6 (loop 3 (arrival 4 ∷ arrival 5 ∷ arrival 6 ∷ talk ∷ []) start)
    ≡ codes "<client 4>: hello\n" ∷ codes "<client 5>: hi\nlo\n" ∷ []
unfolding loop round check_for_new_connection check_connected_clients check_clients hear speak
    broadcast message is_set is_member greet push_back emit c_string overwrite decimal inbox
talk_heard = refl

departure_is_undefined : loop 3 (departure ∷ []) three ≡ faults out_of_bounds
unfolding loop round check_for_new_connection check_connected_clients check_clients hear leave
    is_set is_member emit
departure_is_undefined = refl
