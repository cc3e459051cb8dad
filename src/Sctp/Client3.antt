-- ===== src/Sctp/Client3.antt =====
-- `main` of Lab04/zad3/client3.c. The lines that are typed and the messages that are received are
-- lists; behind them there is the end of the input, and an error.
pub mod Laws
use pus.Base.{ℕ, Bool, true, false, Option, none, some, List, [], ◌∷◌, ◌==◌, if◌then◌else◌}
use pus.Base.Text.{Text, str_eq}
use pus.Base.Program.{Prog, ◌>>=◌, ◌>>◌, pure, lift, exit, exit_success, fault, uninitialised}
use pus.Sctp.{invocation, info, printed, received, closed, Trace, Receipt, error, got, Kernel}
use pus.Sctp.Steps.{emit, give_up, connect_client, send_message}
use pus.Sctp.Client2.{terminated, next_receipt, rest}

-- `i` and `stream`; `none` was not assigned.
pub record Vars : Type 0 where
  pub i : Option ℕ
  pub stream : Option ℕ

use_var : Option ℕ → Prog Trace ℕ
use_var none = fault uninitialised
use_var (some n) = pure n

-- What is done with a message.
show : Receipt → Vars → Prog Trace Vars
unfolding emit terminated
show error vars = pure vars
show (got [] inf) vars = pure vars
show (got (c ∷ bytes) inf) vars = do
  text ← lift (terminated (c ∷ bytes))
  emit (printed (info inf text))
  pure (record vars { stream = some inf.stream })

module _ (kernel : Kernel) where
  -- The first message goes to stream 0, the others to that of the last reply.
  send_line : ℕ → Text → ℕ → Vars → Prog Trace Vars
  unfolding use_var
  send_line sockfd line i vars =
      if i == 0
      then (do send_message kernel sockfd none line 0; pure (record vars { i = some 1 }))
      else (do stream ← use_var vars.stream; send_message kernel sockfd none line stream; pure vars)

  round : ℕ → Text → Receipt → Vars → Prog Trace Vars
  unfolding emit use_var send_line show
  round sockfd line receipt vars = do
    i ← use_var vars.i
    vars' ← send_line sockfd line i vars
    emit received
    show receipt vars'

  loop : ℕ → List Text → List Receipt → Vars → Prog Trace (Unit {0})
  unfolding round next_receipt rest
  loop sockfd [] receipts vars = pure tt
  loop sockfd (line ∷ lines) receipts vars = elim (str_eq line (b'\n' ∷ [])) [
    | true ↦ pure tt
    | false ↦ round sockfd line (next_receipt receipts) vars >>= λ vars'.
        loop sockfd lines (rest receipts) vars'
  ]

  run : Text → Text → List Text → List Receipt → Prog Trace (Unit {0})
  unfolding loop emit
  run host port lines receipts = do
    sockfd ← connect_client kernel 5 host port
    loop sockfd lines receipts (record { i = none; stream = none })
    emit (closed sockfd)
    exit exit_success

  unfoldable pub main : List Text → List Text → List Receipt → Prog Trace (Unit {0})
  unfolding run
  main (name ∷ host ∷ port ∷ []) lines receipts = run host port lines receipts
  main _ lines receipts = give_up (printed invocation)
