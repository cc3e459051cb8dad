-- ===== src/ImageServer/Threads/Laws.antt =====
-- How often the threads of Lab01/zad5/server5.cpp answer.
use pus.Base.{
  ℕ, suc, ◌+◌, ◌-◌, ◌≤◌, ◌≡◌, refl, sym, Bool, true, false, Option, none, some, List, [], ◌∷◌, ◌++◌,
  ◌==◌, if◌then◌else◌, Bool-cases, Option-cases, inl, inr, arith, length, take, subst,
}
use pus.Base.Text.{Text, codes, str_eq, c_string}
use pus.Base.Program.{
  Prog, Outcome, Result, ok, fails, returns, exits, faults, lift, fault, uninitialised, ◌>>=◌, ◌>>◌,
}
use pus.ImageServer.{
  is_waiting, bound, give_up, failed, write_call, Kernel, Trace, accepted, thread_started,
  dir_closed, sent, emit, start_thread,
}
use pus.ImageServer.Page.{fill_page}
use pus.ImageServer.Thread.{
  Receipt, fill_block, recv_error, bytes, max_client_message, message, request, with_block, path_of,
  open_dir, write_page, answer, connection_handler,
}
use pus.ImageServer.Threads.{Process, joined, Step, connects, handles, Reaches, stays, goes_on}

-- A predicate on the state in which a run returns.
abbrev Leaves : {A : Type 0} → (Trace → Type 0) → Outcome Trace A → Type 0
Leaves P (returns a t) = P t
Leaves P (exits code t) = Unit
Leaves P (faults e) = Unit

Leaves->>= :
    {A B : Type 0} (P Q : Trace → Type 0) (m : Prog Trace A) (f : A → Prog Trace B) (s : Trace)
    → Leaves P (m s)
    → ((a : A) (t : Trace) → P t → Leaves Q (f a t))
    → Leaves Q ((m >>= f) s)
Leaves->>= {A} {B} P Q m f s h k = go (m s) h
  where
    go : (o : Outcome Trace A) → Leaves P o → Leaves Q (◌>>=◌ {B = B} (λ _. o) f s)
    go (returns a t) h = k a t h
    go (exits code t) h = tt
    go (faults e) h = tt

Leaves-lift : {A : Type 0} (r : Result A) (s : Trace) → Leaves (λ t. t ≡ s) (lift r s)
Leaves-lift (ok a) s = refl
Leaves-lift (fails e) s = tt

-- Where nothing has happened yet, what follows starts from the same trace.
Leaves-unchanged :
    {A B : Type 0} (Q : Trace → Type 0) (m : Prog Trace A) (f : A → Prog Trace B) (s : Trace)
    → Leaves (λ t. t ≡ s) (m s)
    → ((a : A) → Leaves Q (f a s))
    → Leaves Q ((m >>= f) s)
Leaves-unchanged {A} {B} Q m f s h k =
    Leaves->>= (λ t. t ≡ s) Q m f s h
      (λ a t e. subst (λ (u : Trace). Leaves Q (f a u)) (sym e) (k a))

module _ (kernel : Kernel) (sock : ℕ) (trace : Trace) where
  -- One page is sent.
  abbrev IsReply : Trace → Type 0
  IsReply t = (text : Text) × (t ≡ sent sock text ∷ dir_closed ∷ trace)

  with_block-same :
      (url : Text) (o : Option (List ℕ)) → Leaves (λ t. t ≡ trace) (with_block url o trace)
  unfolding with_block
  with_block-same url none = tt
  with_block-same url (some block) = Leaves-lift (fill_block url block) trace

  path_of-same : (url : Text) → Leaves (λ t. t ≡ trace) (path_of kernel url trace)
  unfolding path_of
  path_of-same url = with_block-same url (kernel.malloc (length url - 1))

  open_dir-same : Leaves (λ t. t ≡ trace) (open_dir kernel trace)
  unfolding open_dir give_up emit
  open_dir-same = elim (Option-cases kernel.opendir) [
    | inl e ↦ rw e tt
    | inr (names, e) ↦ rw e refl
  ]

  write_text : Text → Prog Trace (Unit {0})
  unfolding emit give_up
  write_text text t =
      if kernel.write t then emit (sent sock text) t else give_up (failed write_call) t

  write_text-IsReply : (text : Text) → Leaves IsReply (write_text text (dir_closed ∷ trace))
  unfolding write_text emit give_up
  write_text-IsReply text = elim (Bool-cases (kernel.write (dir_closed ∷ trace))) [
    | inl works ↦ rw works (text, refl)
    | inr not_ ↦ rw not_ tt
  ]

  write_page-IsReply :
      (buff : List ℕ) → Leaves IsReply (write_page kernel sock buff (dir_closed ∷ trace))
  unfolding write_page write_text
  write_page-IsReply buff =
      Leaves-unchanged IsReply (lift (c_string buff)) write_text (dir_closed ∷ trace)
        (Leaves-lift (c_string buff) (dir_closed ∷ trace)) write_text-IsReply

  answer-IsReply : (url : Text) → Leaves IsReply (answer kernel sock url trace)
  unfolding answer emit
  answer-IsReply url =
      Leaves-unchanged IsReply (path_of kernel url)
        (λ p. open_dir kernel >>= λ names.
          lift (fill_page p names) >>= λ buff. emit dir_closed >> write_page kernel sock buff)
        trace (path_of-same url)
        λ p.
          Leaves-unchanged IsReply (open_dir kernel)
            (λ names.
              lift (fill_page p names) >>= λ buff. emit dir_closed >> write_page kernel sock buff)
            trace open_dir-same
            λ names.
              Leaves-unchanged IsReply (lift (fill_page p names))
                (λ buff. emit dir_closed >> write_page kernel sock buff) trace
                (Leaves-lift (fill_page p names) trace) write_page-IsReply

  answer_to : Text × Text → Prog Trace (Unit {0})
  answer_to (url, protocol) =
      if str_eq protocol (codes "HTTP/1.1") then answer kernel sock url else fault uninitialised

  answer_to-IsReply : (parts : Text × Text) → Leaves IsReply (answer_to parts trace)
  unfolding answer_to
  answer_to-IsReply (url, protocol) = elim (Bool-cases (str_eq protocol (codes "HTTP/1.1"))) [
    | inl http ↦ rw http (answer-IsReply url)
    | inr other ↦ rw other tt
  ]

  -- A thread that ends has sent one page.
  connection_handler-IsReply :
      (receipt : Receipt) → Leaves IsReply (connection_handler kernel sock receipt trace)
  unfolding connection_handler give_up emit answer_to
  connection_handler-IsReply recv_error = tt
  connection_handler-IsReply (bytes []) = tt
  connection_handler-IsReply (bytes (c ∷ rest)) =
      let received = message (take max_client_message (c ∷ rest)) in
      Leaves-unchanged IsReply (lift received) (λ text. lift (request text) >>= answer_to) trace
        (Leaves-lift received trace)
        λ text.
          Leaves-unchanged IsReply (lift (request text)) answer_to trace
            (Leaves-lift (request text) trace) answer_to-IsReply

abbrev one : ℕ → ℕ → ℕ
one a b = if a == b then 1 else 0

-- How often a descriptor was accepted, a thread was started for it, and a page was sent to it.
unfoldable pub accepts : ℕ → Trace → ℕ
accepts fd [] = 0
accepts fd (accepted a ∷ trace) = one a fd + accepts fd trace
accepts fd (_ ∷ trace) = accepts fd trace

unfoldable pub starts : ℕ → Trace → ℕ
starts fd [] = 0
starts fd (thread_started a ∷ trace) = one a fd + starts fd trace
starts fd (_ ∷ trace) = starts fd trace

unfoldable pub replies : ℕ → Trace → ℕ
replies fd [] = 0
replies fd (sent a text ∷ trace) = one a fd + replies fd trace
replies fd (_ ∷ trace) = replies fd trace

unfoldable pub running : ℕ → List ℕ → ℕ
running fd [] = 0
running fd (a ∷ threads) = one a fd + running fd threads

running-middle :
    (fd a : ℕ) (before after : List ℕ)
    → running fd (before ++ a ∷ after) ≡ one a fd + running fd (before ++ after)
unfolding running
running-middle fd a [] after = refl
running-middle fd a (b ∷ before) after = omega (arith, running-middle fd a before after)

module _ (kernel : Kernel) where
  -- Every thread that was started has sent one page, or is running, and was accepted.
  abbrev pub IsFair : ℕ → Process → Type 0
  IsFair fd s =
      (replies fd s.trace + running fd s.threads ≡ starts fd s.trace)
      × (starts fd s.trace ≤ accepts fd s.trace)

  abbrev started : Bool → ℕ → Trace → Trace
  started true n trace = thread_started n ∷ accepted n ∷ trace
  started false n trace = accepted n ∷ trace

  start_thread-started :
      (n : ℕ) (is_started : Bool) (trace t : Trace)
      → start_thread kernel n is_started (accepted n ∷ trace) ≡ returns tt t
      → t ≡ started is_started n trace
  unfolding start_thread emit
  start_thread-started n true trace t e = elim (Bool-cases (kernel.has_int (accepted n ∷ trace))) [
    | inl has ↦ ground arith
    | inr has_not ↦ ground arith
  ]
  start_thread-started n false trace t e = elim (Bool-cases (kernel.has_int (accepted n ∷ trace))) [
    | inl has ↦ ground arith
    | inr has_not ↦ ground arith
  ]

  started-IsFair :
      (fd n : ℕ) (is_started : Bool) (threads : List ℕ) (trace : Trace)
      → IsFair fd (record { threads = threads; trace = trace })
      → IsFair fd
          (record { threads = joined is_started n threads; trace = started is_started n trace })
  unfolding joined replies starts accepts running
  started-IsFair fd n true threads trace (total, least) = (omega arith, omega arith)
  started-IsFair fd n false threads trace (total, least) = (total, omega arith)

  reply-IsFair :
      (fd a : ℕ) (before after : List ℕ) (trace t : Trace)
      → IsReply kernel a trace t
      → IsFair fd (record { threads = before ++ a ∷ after; trace = trace })
      → IsFair fd (record { threads = before ++ after; trace = t })
  unfolding replies starts accepts
  reply-IsFair fd a before after trace t (text, e) (total, least) =
      subst (λ (u : Trace). IsFair fd (record { threads = before ++ after; trace = u })) (sym e)
        (omega (arith, running-middle fd a before after), least)

  Step-IsFair : (fd : ℕ) (s t : Process) → Step kernel s t → IsFair fd s → IsFair fd t
  Step-IsFair fd s u (connects threads trace t n is_started e) h =
      subst
        (λ (v : Trace).
          IsFair fd (record { threads = joined is_started (suc n) threads; trace = v }))
        (sym (start_thread-started (suc n) is_started trace t e))
        (started-IsFair fd (suc n) is_started threads trace h)
  Step-IsFair fd s u (handles before after a receipt trace t e) h =
      reply-IsFair fd a before after trace t
        (subst (λ (o : Outcome Trace (Unit {0})). Leaves (IsReply kernel a trace) o) e
          (connection_handler-IsReply kernel a trace receipt))
        h

  Reaches-IsFair : (fd : ℕ) (s t : Process) → Reaches kernel s t → IsFair fd s → IsFair fd t
  Reaches-IsFair fd s t (stays r) h = h
  Reaches-IsFair fd s u (goes_on r t v reached step) h =
      Step-IsFair fd t v step (Reaches-IsFair fd r t reached h)

  -- In whatever order connections come in and threads end, the pages that were sent to a descriptor
  -- and the threads that still run for it are together as many as the threads that were started for
  -- it, and those are no more than the connections that were accepted with it.
  pub server5_one_page :
      (port fd : ℕ) (t : Process)
      → Reaches kernel (record { threads = []; trace = is_waiting ∷ bound port ∷ [] }) t
      → IsFair fd t
  unfolding replies starts accepts running
  server5_one_page port fd t reached =
      Reaches-IsFair fd (record { threads = []; trace = is_waiting ∷ bound port ∷ [] }) t reached
        (refl, omega arith)
