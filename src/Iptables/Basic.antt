-- ===== src/Iptables/Basic.antt =====
-- Lab07/iptc.c. Its functions `s_malloc`, `s_free`, `free_rule`, `parse_error`, `delete_rule` and
-- `create_chain` have the text of those of Lab07/iptcmod.c and are used from there, and so are the
-- parts of `parse` for the options that both have. `parse` and `main` are its own.
pub mod Laws
mod Operations
use pus.Base.{ℕ, Bool, Option, none, some, List, [], ◌∷◌, if◌then◌else◌}
use pus.Base.Text.{Text, codes, str_eq, has_dash}
use pus.Base.Program.{Prog, ◌>>=◌, ◌>>◌, pure, exit, exit_success, exit_failure}
use pus.Iptables.Rule.{
  Opcode, no_operation, delete_rule, new_chain, policy_accept, policy_drop, Rule, World,
  invalid_arguments, other_option_new, other_option_delete, unknown_option, help_without_policy,
  init_failed, print, s_malloc, free_rule,
}
use pus.Iptables.Parse.{
  Mode, option, table_name, chain_new, chain_delete, rule_number, chain_policy, policy_type, Next,
  stop, go_on, no_rule, parse_error, missing, argument, only_option, at_end, check_rule,
}
use pus.Iptables.Main.{Libiptc, State, own, text_of, give_up, iptc_free, delete, create_chain}

module _ (malloc_ok : ℕ → Bool) where
  -- The text of the help has no line on `-P`.
  first : Text → Rule → Prog World Next
  first arg r =
      if str_eq arg (codes "-t")
      then pure (go_on table_name r)
      else if str_eq arg (codes "-N")
      then only_option malloc_ok chain_new other_option_new r
      else if str_eq arg (codes "-D")
      then only_option malloc_ok chain_delete other_option_delete r
      else if str_eq arg (codes "-h")
      then (do print help_without_policy; free_rule r; exit exit_success)
      else parse_error (unknown_option arg) r

  step : Mode → Text → Rule → Prog World Next
  unfolding first
  step option arg r = first arg r
  step mode arg r =
      if has_dash arg then parse_error (missing mode) r else argument malloc_ok mode arg r

  parse_loop : Mode → List Text → Rule → Prog World Next
  unfolding step
  parse_loop mode [] r = at_end malloc_ok mode r
  parse_loop mode (arg ∷ args) r = do
    next ← step mode arg r
    elim next [ stop r' ↦ pure (stop r') | go_on mode' r' ↦ parse_loop mode' args r' ]

  pub parse : List Text → Prog World (Option Rule)
  unfolding parse_loop
  parse [] = do print invalid_arguments; pure none
  parse (program ∷ []) = do print invalid_arguments; pure none
  parse (program ∷ arg ∷ args) = do
    s_malloc malloc_ok
    next ← parse_loop option (arg ∷ args) no_rule
    check_rule malloc_ok next

module _ (lib : Libiptc) where
  open lib use {Handle, iptc_init}

  dispatch : Opcode → Handle → Rule → Prog (State Handle) (Unit {0})
  dispatch delete_rule h r = delete lib h r
  dispatch new_chain h r = create_chain lib h r
  dispatch no_operation h r = pure tt
  dispatch policy_accept h r = pure tt
  dispatch policy_drop h r = pure tt

  carry_out : Handle → Rule → Prog (State Handle) (Unit {0})
  unfolding dispatch
  carry_out h r = do dispatch r.operation h r; own (free_rule r); iptc_free lib; exit exit_success

  with_rule : Rule → Prog (State Handle) (Unit {0})
  unfolding carry_out
  with_rule r = do
    table ← text_of r.table
    elim (iptc_init table) [ none ↦ give_up init_failed | some h ↦ carry_out h r ]

  pub main : (ℕ → Bool) → List Text → Prog (State Handle) (Unit {0})
  unfolding parse with_rule
  main malloc_ok argv = do
    r ← own (parse malloc_ok argv)
    elim r [ none ↦ exit exit_failure | some rule ↦ with_rule rule ]
