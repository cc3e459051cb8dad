-- ===== src/Sctp/Client2.antt =====
-- `main` of Lab04/zad2/client2.c.
pub mod Laws
use pus.Base.{ℕ, zero, suc, ltb, if◌then◌else◌, List, [], ◌∷◌, length}
use pus.Base.Text.{Text, c_string}
use pus.Base.Program.{
  Prog, Result, ok, fails, out_of_bounds, bind, ◌>>=◌, ◌>>◌, pure, lift, exit, exit_success,
}
use pus.Sctp.{
  invocation, status, numbered, printed, received, closed, Trace, Receipt, error, got, Kernel,
}
use pus.Sctp.Steps.{emit, give_up, buff_size, connect_client, filled}

-- `buffer[retval] = 0`, and what `%s` then reads
unfoldable pub terminated : List ℕ → Result Text
unfolding filled
terminated bytes =
    if ltb (length bytes) buff_size then c_string (filled bytes) else fails out_of_bounds

unfoldable pub show : Receipt → Prog Trace (Unit {0})
unfolding emit terminated
show error = pure tt
show (got [] info) = pure tt
show (got (c ∷ bytes) info) = do
  text ← lift (terminated (c ∷ bytes))
  emit (printed (numbered info.stream text))

-- What is received behind the receipts that are given fails.
unfoldable pub next_receipt : List Receipt → Receipt
next_receipt [] = error
next_receipt (receipt ∷ receipts) = receipt

unfoldable pub rest : List Receipt → List Receipt
rest [] = []
rest (receipt ∷ receipts) = receipts

unfoldable pub loop : ℕ → List Receipt → Prog Trace (Unit {0})
unfolding emit show next_receipt rest
loop zero receipts = pure tt
loop (suc rounds) receipts = do
  emit received
  show (next_receipt receipts)
  loop rounds (rest receipts)

module _ (kernel : Kernel) where
  run : Text → Text → List Receipt → Prog Trace (Unit {0})
  unfolding loop emit
  run host port receipts = do
    sockfd ← connect_client kernel 3 host port
    emit (printed status)
    loop 2 receipts
    emit (closed sockfd)
    exit exit_success

  unfoldable pub main : List Text → List Receipt → Prog Trace (Unit {0})
  unfolding run
  main (name ∷ host ∷ port ∷ []) receipts = run host port receipts
  main _ receipts = give_up (printed invocation)
