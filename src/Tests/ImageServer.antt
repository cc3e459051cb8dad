-- ===== src/Tests/ImageServer.antt =====
-- Runs of Lab01/zad5/server5.cpp.
use pus.Base.{◌+◌, ◌-◌, ◌≤◌, ◌≡◌, refl, true, false, some, List, [], ◌∷◌, ◌++◌, length, arith}
use pus.Base.Text.{Text, codes, is_text, c_string, contains, str_eq, atoi}
use pus.Base.Int.{to_unsigned}
use pus.Base.Buffer.{zeros}
use pus.Base.Strings.{is_word, scan_int, skip_spaces}
use pus.Base.Program.{ok, returns, exits, exit_failure}
use pus.ImageServer.{
  Kernel, connection, accept_error, accepted, thread_started, is_waiting, bound, dir_closed, sent,
  failed, accept_call, start_thread, accept_loop, serve, main, emit, give_up,
}
use pus.ImageServer.Page.{fill_page}
use pus.ImageServer.Page.Laws.{
  fill_page-page, is_shown, has_one, has_slash, shown, images, page, are_texts,
}
use pus.ImageServer.Thread.{bytes, connection_handler}
use pus.ImageServer.Thread.Laws.{server5_answers}
use pus.ImageServer.Threads.{Process, Reaches, stays, goes_on, connects, handles, joined}
use pus.ImageServer.Threads.Laws.{replies, running, starts, accepts, server5_one_page}

abbrev names : List Text
names = codes "." ∷ codes "cat.png" ∷ codes "dog.jpg" ∷ codes "cat.txt" ∷ []

abbrev kernel : Kernel
kernel = record {
  socket = some 3;
  bind_socket = λ port. true;
  has_int = λ trace. true;
  malloc = λ n. some (zeros (n + 8));
  opendir = some names;
  write = λ trace. true;
}

-- The page of the files that have "cat" in their names.
abbrev cats : Text
cats =
    codes
      "HTTP/1.0 200 OK\nContent-Type: image\nContent-Length:512\n\n<HTML><BODY><CENTER><IMG SRC='cat.png'/></IMG><BR /><IMG SRC='cat.txt'/></IMG><BR /></CENTER></BODY></HTML>"

listed_cats : page (codes "cat") names ≡ cats
unfolding page images shown is_shown has_one has_slash contains str_eq
listed_cats = refl

fill_page-page_example : fill_page (codes "cat") names ≡ ok (cats ++ zeros (512 - length cats))
unfolding page images shown is_shown has_one has_slash contains str_eq are_texts is_text
fill_page-page_example = fill_page-page (codes "cat") names refl

server5_answers_run :
    connection_handler kernel 4 (bytes (codes "GET /cat HTTP/1.1\r\n")) []
    ≡ returns tt (sent 4 cats ∷ dir_closed ∷ [])
unfolding page images shown is_shown has_one has_slash contains str_eq is_text is_word c_string
    are_texts
server5_answers_run =
    server5_answers kernel 4 b'G' (codes "ET") (codes "cat") (codes "\n") (zeros 11) [] names []
      refl (omega arith) refl (omega arith) refl (omega arith) refl refl refl (omega arith) refl
      refl refl

abbrev start : Process
start = record { threads = []; trace = is_waiting ∷ bound 80 ∷ [] }

abbrev connected : Process
connected = record { threads = 4 ∷ []; trace = thread_started 4 ∷ accepted 4 ∷ start.trace }

abbrev answered : Process
answered = record { threads = []; trace = sent 4 cats ∷ dir_closed ∷ connected.trace }

cat_answered :
    connection_handler kernel 4 (bytes (codes "GET /cat HTTP/1.1\r\n")) connected.trace
    ≡ returns tt answered.trace
unfolding page images shown is_shown has_one has_slash contains str_eq is_text is_word c_string
    are_texts
cat_answered =
    server5_answers kernel 4 b'G' (codes "ET") (codes "cat") (codes "\n") (zeros 11) [] names
      connected.trace refl (omega arith) refl (omega arith) refl (omega arith) refl refl refl
      (omega arith) refl refl refl

start-Reaches : Reaches kernel start connected
unfolding joined start_thread emit
start-Reaches =
    goes_on start start connected (stays start)
      (connects [] start.trace connected.trace 3 true refl)

connected-Reaches : Reaches kernel start answered
connected-Reaches = goes_on start connected answered start-Reaches (
    handles [] [] 4 (bytes (codes "GET /cat HTTP/1.1\r\n")) connected.trace answered.trace
      cat_answered)

server5_one_page_example :
    (replies 4 answered.trace + running 4 [] ≡ starts 4 answered.trace)
    × (starts 4 answered.trace ≤ accepts 4 answered.trace)
server5_one_page_example = server5_one_page kernel 80 4 answered connected-Reaches

-- Two connections, for the second of which there is no thread, and a failure of `accept`.
main_run :
    main kernel
      (codes "server5" ∷ codes "80" ∷ [])
      (connection 4 true ∷ connection 5 false ∷ accept_error ∷ [])
      []
    ≡ exits exit_failure (
        failed accept_call
        ∷ accepted 5
        ∷ thread_started 4
        ∷ accepted 4
        ∷ is_waiting
        ∷ bound 80
        ∷ [])
unfolding main serve accept_loop start_thread emit give_up scan_int skip_spaces atoi to_unsigned
main_run = refl
