-- ===== src/Sctp/Server2.antt =====
-- `main` of Lab04/zad2/server2.c. The loop has no end: a run is followed for a number of rounds.
pub mod Laws
use pus.Base.{
  ℕ, zero, suc, ◌+◌, ◌^◌, Option, none, some, List, [], ◌∷◌, ◌++◌, ltb, if◌then◌else◌, length,
}
use pus.Base.Text.{Text, atoi, codes, decimal}
use pus.Base.Program.{
  Prog, Result, ok, fails, bind, int_overflow, out_of_bounds, returns, ◌>>=◌, ◌>>◌, pure, lift,
}
use pus.Sctp.{accept_call, invocation, server_accept, printed, failed, accepted, Trace, Tm, Kernel}
use pus.Sctp.Steps.{
  emit, give_up, buff_size, open_socket, bind_port, set_initmsg, start_listening, send_message,
}

-- Three numbers with a separator.
unfoldable pub joined : ℕ → ℕ → ℕ → ℕ → Text
joined sep a b c = decimal a ++ sep ∷ (decimal b ++ sep ∷ decimal c)

-- The sum of two numbers of type `int`.
unfoldable pub int_sum : ℕ → ℕ → Result ℕ
int_sum a b = if ltb (a + b) (2 ^ 31) then ok (a + b) else fails int_overflow

unfoldable pub date_text : Tm → Result Text
unfolding joined int_sum
date_text tm = bind (int_sum tm.month 1) λ month.
    bind (int_sum tm.year 1900)
      λ year. ok (codes "Aktualna data: " ++ joined b'.' tm.day month year)

unfoldable pub time_text : Tm → Text
unfolding joined
time_text tm = codes "Aktualny czas: " ++ joined b':' tm.hour tm.minute tm.second

-- `sprintf` into the buffer, with the NUL
unfoldable pub sprintf : Text → Result Text
sprintf text = if ltb (length text) buff_size then ok text else fails out_of_bounds

unfoldable pub read_tm : Option Tm → Result Tm
read_tm none = fails out_of_bounds
read_tm (some tm) = ok tm

module _ (kernel : Kernel) where
  accept_client : Prog Trace ℕ
  accept_client trace = elim (kernel.accept trace) [
    | none ↦ give_up (failed accept_call) trace
    | some connfd ↦ returns connfd (accepted connfd ∷ trace)
  ]

  -- `*localtime(&t)`, which is not to be done with NULL.
  localtime : Prog Trace Tm
  unfolding read_tm
  localtime trace = lift (read_tm (kernel.clock trace)) trace

  round : Prog Trace (Unit {0})
  unfolding accept_client localtime sprintf date_text time_text
  round = do
    connfd ← accept_client
    emit (printed server_accept)
    tm ← localtime
    date ← lift (bind (date_text tm) sprintf)
    send_message kernel connfd none date 0
    time ← lift (sprintf (time_text tm))
    send_message kernel connfd none time 1

  loop : ℕ → Prog Trace (Unit {0})
  unfolding round
  loop zero = pure tt
  loop (suc rounds) = do round; loop rounds

  serve : Text → ℕ → Prog Trace (Unit {0})
  unfolding loop
  serve port rounds = do
    _ ← open_socket kernel
    number ← lift (atoi port)
    bind_port kernel number
    set_initmsg kernel 3 50
    start_listening kernel
    loop rounds

  unfoldable pub main : List Text → ℕ → Prog Trace (Unit {0})
  unfolding serve
  main (name ∷ port ∷ []) rounds = serve port rounds
  main _ rounds = give_up (printed invocation)
