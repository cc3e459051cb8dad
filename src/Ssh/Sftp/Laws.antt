-- ===== src/Ssh/Sftp/Laws.antt =====
-- What Lab12/sftp_get.c lists, and what it writes to the file.
use mathlib.Core.List.{append_assoc, append-nil}
use pus.Base.{
  sym, ℕ, ◌<◌, ◌≡◌, refl, ◌∙◌, Bool, true, ◌&&◌, Option, none, some, List, [], ◌∷◌, ◌++◌, length,
  length-append, arith, leb,
}
use pus.Base.Text.{Text, codes}
use pus.Base.Program.{returns, faults, ok, uninitialised}
use pus.Ssh.Session.{wrote, printed_entry, Entry, Trace, State}
use pus.Ssh.Session.Steps.{emit}
use pus.Ssh.Sftp.{buf_size, home_dir, file_name, total_path, line, print_line, list_loop, copy_loop}

-- The bytes in front of the end of the file, or of the first read that failed.
unfoldable pub content : List (Option (List ℕ)) → List ℕ
content [] = []
content (none ∷ reads) = []
content (some [] ∷ reads) = []
content (some (c ∷ chunk) ∷ reads) = (c ∷ chunk) ++ content reads

-- What was written, from the first byte on.
unfoldable pub written : Trace → List ℕ
written [] = []
written (wrote bytes ∷ trace) = written trace ++ bytes
written (_ ∷ trace) = written trace

-- `libssh2_sftp_read` gives no more bytes than it was asked for.
unfoldable pub reads_fit : List (Option (List ℕ)) → Bool
reads_fit [] = true
reads_fit (none ∷ reads) = reads_fit reads
reads_fit (some chunk ∷ reads) = leb (length chunk) buf_size && reads_fit reads

-- If no read gives more bytes than it was asked for, the loop returns, and what was written has
-- grown by all that came before the end of the file, or before the first read that failed.
pub copy_loop-content :
    (reads : List (Option (List ℕ))) (s : State)
    → reads_fit reads ≡ true
    → (t : State) × (copy_loop reads s ≡ returns tt t)
      × (written t.trace ≡ written s.trace ++ content reads)
unfolding copy_loop content reads_fit written emit
copy_loop-content [] s h = (s, refl, sym (append-nil (written s.trace)))
copy_loop-content (none ∷ reads) s h = (s, refl, sym (append-nil (written s.trace)))
copy_loop-content (some [] ∷ reads) s h = (s, refl, sym (append-nil (written s.trace)))
copy_loop-content (some (c ∷ chunk) ∷ reads) s h =
    let (t, runs, grown) =
      copy_loop-content reads (record s { trace = wrote (c ∷ chunk) ∷ s.trace }) (ground arith) in
    (t, ground arith, grown ∙ append_assoc (written s.trace) (c ∷ chunk) (content reads))

-- What the listing has printed, from the first line on.
unfoldable pub printed : Trace → List Text
printed [] = []
printed (printed_entry text ∷ trace) = printed trace ++ text ∷ []
printed (_ ∷ trace) = printed trace

-- The lines of the entries, with that of the last once more.
unfoldable pub listed : Entry → List Entry → List Text
unfolding line
listed e [] = line e ∷ line e ∷ []
listed e (e' ∷ entries) = line e ∷ listed e' entries

-- A folder that has an entry is printed with the line of the last entry twice.
pub list_loop-listed :
    (e : Entry) (entries : List Entry) (buffers : Option Entry) (s : State)
    → (last : Entry) × (t : State) × (list_loop (e ∷ entries) buffers s ≡ returns (some last) t)
      × (printed t.trace ≡ printed s.trace ++ listed e entries)
unfolding list_loop print_line printed listed emit
list_loop-listed e [] buffers s = (
  e,
  record s { trace = printed_entry (line e) ∷ printed_entry (line e) ∷ s.trace },
  refl,
  append_assoc (printed s.trace) (line e ∷ []) (line e ∷ []),
)
list_loop-listed e (e' ∷ entries) buffers s =
    let (last, t, runs, grown) =
      list_loop-listed e' entries (some e)
        (record s { trace = printed_entry (line e) ∷ s.trace }) in
    (last, t, runs, grown ∙ append_assoc (printed s.trace) (line e ∷ []) (listed e' entries))

-- A folder without entries is undefined behaviour.
pub list_loop_empty : (s : State) → list_loop [] none s ≡ faults uninitialised
unfolding list_loop print_line
list_loop_empty s = refl

home_dir-length : (username dir : Text) → home_dir username ≡ ok dir → length dir < buf_size
unfolding home_dir
home_dir-length username dir h = ground arith

file_name-length :
    (typed : Option Text) (filename name : Text)
    → length filename < buf_size
    → file_name typed filename ≡ ok name
    → length name < buf_size
unfolding file_name
file_name-length none filename name f h = ground arith
file_name-length (some text) filename name f h = ground arith

total_path-short :
    (dir name : Text)
    → length dir < buf_size
    → length name < buf_size
    → total_path dir name ≡ ok (dir ++ codes "/" ++ name)
unfolding total_path
total_path-short dir name h k =
    ground (arith, length-append (dir ++ codes "/") name, length-append dir (codes "/"))

-- A folder and a name that fit their buffers make a path that fits the 2048 bytes of its own.
pub total_path_fits :
    (username : Text) (typed : Option Text) (filename dir name : Text)
    → length filename < buf_size
    → home_dir username ≡ ok dir
    → file_name typed filename ≡ ok name
    → total_path dir name ≡ ok (dir ++ codes "/" ++ name)
total_path_fits username typed filename dir name f h k =
    total_path-short dir name (home_dir-length username dir h)
      (file_name-length typed filename name f k)
