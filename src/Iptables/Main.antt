-- ===== src/Iptables/Main.antt =====
-- `main` of Lab07/iptcmod.c and the operations that it chooses from. libiptc is a parameter: a
-- handle is a copy of a table of the kernel, on which the operations work, until `iptc_commit`
-- writes it back.
pub mod Laws
use pus.Base.{ℕ, suc, ◌+◌, Bool, true, false, Option, none, some, List, [], ◌∷◌, if◌then◌else◌}
use pus.Base.Int.{ℤ}
use pus.Base.Text.{Text}
use pus.Base.Program.{
  Prog, Outcome, Fault, returns, exits, faults, ◌>>=◌, ◌>>◌, pure, exit, fault, exit_success,
  exit_failure, out_of_bounds, uninitialised,
}
use pus.Iptables.Rule.{
  Opcode, no_operation, delete_rule, new_chain, policy_accept, policy_drop, Rule, Message, World,
  print, init_failed, no_such_chain, not_builtin, operation_failed, commit_failed, free_rule,
}
use pus.Iptables.Parse.{parse}

pub data Policy : Type 0 where
  accept drop : Policy

-- The functions of libiptc. One that fails gives `none`; the others give the handle as they leave
-- it.
pub record Libiptc : Type 1 where
  pub Handle : Type 0
  pub iptc_init : Text → Option Handle
  pub iptc_is_chain : Text → Handle → Bool
  pub iptc_builtin : Text → Handle → Bool
  pub iptc_delete_num_entry : Text → ℤ → Handle → Option Handle
  pub iptc_create_chain : Text → Handle → Option Handle
  pub iptc_set_policy : Text → Policy → Handle → Option Handle
  pub iptc_commit : Handle → Bool

-- The state of the program, the tables committed to the kernel, the latest first, and the number of
-- handles given back by `iptc_free`.
pub record State (Handle : Type 0) : Type 0 where
  pub world : World
  pub commits : List Handle
  pub handles_freed : ℕ

-- Runs what touches only the program's own state.
abbrev pub run_in : {Handle A : Type 0} → State Handle → Outcome World A → Outcome (State Handle) A
run_in s (returns a w) = returns a (record s { world = w })
run_in s (exits code w) = exits code (record s { world = w })
run_in s (faults e) = faults e

abbrev pub own : {Handle A : Type 0} → Prog World A → Prog (State Handle) A
own m s = run_in s (m s.world)

-- A NULL text, or a number that was not set, must not be used.
pub text_of : {Handle : Type 0} → Option Text → Prog (State Handle) Text
text_of none = fault out_of_bounds
text_of (some text) = pure text

pub number_of : {Handle : Type 0} → Option ℤ → Prog (State Handle) ℤ
number_of none = fault uninitialised
number_of (some n) = pure n

-- Prints a message and ends the program.
pub give_up : {Handle A : Type 0} → Message → Prog (State Handle) A
give_up m = do own (print m); exit exit_failure

pub require : {Handle : Type 0} → Bool → Message → Prog (State Handle) (Unit {0})
unfolding give_up
require true m = pure tt
require false m = give_up m

-- The handle that an operation of the library leaves.
pub changed : {Handle : Type 0} → Option Handle → Prog (State Handle) Handle
unfolding give_up
changed none = give_up operation_failed
changed (some h) = pure h

module _ (lib : Libiptc) where
  open lib use {
    Handle, iptc_init, iptc_is_chain, iptc_builtin, iptc_delete_num_entry, iptc_create_chain,
    iptc_set_policy, iptc_commit,
  }

  -- The commit that ends each operation.
  commit : Handle → Prog (State Handle) (Unit {0})
  unfolding give_up
  commit h s =
      if iptc_commit h
      then returns tt (record s { commits = h ∷ s.commits })
      else give_up commit_failed s

  -- `delete_rule`
  unfoldable pub delete : Handle → Rule → Prog (State Handle) (Unit {0})
  unfolding text_of number_of require changed commit
  delete h r = do
    chain ← text_of r.chain
    require (iptc_is_chain chain h) no_such_chain
    num ← number_of r.rule_num
    h' ← changed (iptc_delete_num_entry chain num h)
    commit h'

  unfoldable pub create_chain : Handle → Rule → Prog (State Handle) (Unit {0})
  unfolding text_of changed commit
  create_chain h r = do chain ← text_of r.chain; h' ← changed (iptc_create_chain chain h); commit h'

  -- `policy_accept` and `policy_drop`, which differ in the label alone
  set_policy : Policy → Handle → Rule → Prog (State Handle) (Unit {0})
  unfolding text_of require changed commit
  set_policy policy h r = do
    chain ← text_of r.chain
    require (iptc_is_chain chain h) no_such_chain
    require (iptc_builtin chain h) not_builtin
    h' ← changed (iptc_set_policy chain policy h)
    commit h'

  unfoldable pub dispatch : Opcode → Handle → Rule → Prog (State Handle) (Unit {0})
  unfolding delete create_chain set_policy
  dispatch no_operation h r = pure tt
  dispatch delete_rule h r = delete h r
  dispatch new_chain h r = create_chain h r
  dispatch policy_accept h r = set_policy accept h r
  dispatch policy_drop h r = set_policy drop h r

  unfoldable pub iptc_free : Prog (State Handle) (Unit {0})
  iptc_free s = returns tt (record s { handles_freed = s.handles_freed + 1 })

  -- With a handle. It is passed by value, so it is still set when the operation is done.
  unfoldable pub carry_out : Handle → Rule → Prog (State Handle) (Unit {0})
  unfolding iptc_free
  carry_out h r = do dispatch r.operation h r; own (free_rule r); iptc_free; exit exit_success

  unfoldable pub with_rule : Rule → Prog (State Handle) (Unit {0})
  unfolding text_of give_up
  with_rule r = do
    table ← text_of r.table
    elim (iptc_init table) [ none ↦ give_up init_failed | some h ↦ carry_out h r ]

  unfoldable pub main : (ℕ → Bool) → List Text → Prog (State Handle) (Unit {0})
  main malloc_ok argv = do
    r ← own (parse malloc_ok argv)
    elim r [ none ↦ exit exit_failure | some rule ↦ with_rule rule ]
