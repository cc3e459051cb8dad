-- ===== src/Iptables/Parse.antt =====
-- `parse` of Lab07/iptcmod.c. The loop goes through the arguments one at a time; a mode says which
-- argument of an option is expected, where the code moves `argv` on inside the branch of the
-- option. `malloc` is a parameter.
pub mod Laws
pub mod Commands
use pus.Base.{
  ℕ, suc, Bool, true, false, ◌||◌, Option, none, some, List, [], ◌∷◌, if◌then◌else◌, ◌-◌, ◌==◌,
}
use pus.Base.Int.{ℤ, pos, negsuc, is_negative}
use pus.Base.Text.{Text, codes, str_eq, has_dash, atoi}
use pus.Base.Program.{
  Prog, Result, ok, fails, bind, lift, ◌>>=◌, ◌>>◌, pure, exit, exit_success, int_overflow,
}
use pus.Iptables.Rule.{
  Opcode, no_operation, delete_rule, new_chain, policy_accept, policy_drop, Rule, Message, World,
  invalid_arguments, expecting_table, table_only_once, other_option_new, expecting_chain_new,
  other_option_delete, expecting_chain_delete, expecting_rule_number, invalid_rule_number,
  other_option_policy, expecting_chain_policy, expecting_policy_type, expecting_accept_or_drop,
  no_option_specified, no_table_specified, unknown_option, help, print, s_malloc, free_rule,
}

pub data Mode : Type 0 where
  option table_name chain_new chain_delete rule_number chain_policy policy_type : Mode

-- How a round of the loop ends: by `break` with `error` set, or with the next argument.
pub data Next : Type 0 where
  stop : Rule → Next
  go_on : Mode → Rule → Next

abbrev pub no_rule : Rule
no_rule = record { operation = no_operation; chain = none; table = none; rule_num = none }

-- `r->operation != NONE`
abbrev pub has_operation : Opcode → Bool
has_operation no_operation = false
has_operation delete_rule = true
has_operation new_chain = true
has_operation policy_accept = true
has_operation policy_drop = true

abbrev pub has_text : Option Text → Bool
has_text none = false
has_text (some text) = true

unfoldable pub parse_error : Message → Rule → Prog World Next
parse_error m r = do print m; pure (stop r)

-- What the options that need an argument print where it is missing.
unfoldable pub missing : Mode → Message
missing option = no_option_specified
missing table_name = expecting_table
missing chain_new = expecting_chain_new
missing chain_delete = expecting_chain_delete
missing rule_number = expecting_rule_number
missing chain_policy = expecting_chain_policy
missing policy_type = expecting_policy_type

-- `atoi(*argv) - 1`
unfoldable pub minus_one : ℤ → Result ℤ
minus_one (pos n) = ok (if n == 0 then negsuc 0 else pos (n - 1))
minus_one (negsuc n) = if n == 2147483647 then fails int_overflow else ok (negsuc (suc n))

-- The rule number of `-D`: stored, then checked.
unfoldable pub check_rule_num : ℤ → Rule → Prog World Next
check_rule_num num r =
    if is_negative num
    then parse_error invalid_rule_number r
    else pure (go_on option (record r { operation = delete_rule }))

unfoldable pub set_rule_num : Text → Rule → Prog World Next
unfolding minus_one check_rule_num
set_rule_num arg r = do
  num ← lift (bind (atoi arg) minus_one)
  check_rule_num num (record r { rule_num = some num })

unfoldable pub set_policy_type : Text → Rule → Prog World Next
set_policy_type arg r =
    if str_eq arg (codes "ACCEPT")
    then pure (go_on option (record r { operation = policy_accept }))
    else if str_eq arg (codes "DROP")
    then pure (go_on option (record r { operation = policy_drop }))
    else parse_error expecting_accept_or_drop r

module _ (malloc_ok : ℕ → Bool) where
  unfoldable pub set_table : Text → Rule → Prog World Next
  set_table arg r =
      if has_text r.table
      then parse_error table_only_once r
      else (do s_malloc malloc_ok; pure (go_on option (record r { table = some arg })))

  -- Copies the name of the chain, and goes on in the given mode.
  unfoldable pub set_chain : Mode → Opcode → Text → Rule → Prog World Next
  set_chain mode operation arg r = do
    s_malloc malloc_ok
    pure (go_on mode (record r { chain = some arg; operation = operation }))

  -- The argument of an option, once it is known to be there and not to begin with a dash.
  unfoldable pub argument : Mode → Text → Rule → Prog World Next
  unfolding set_table set_chain set_rule_num set_policy_type
  argument option arg r = pure (stop r)
  argument table_name arg r = set_table arg r
  argument chain_new arg r = set_chain option new_chain arg r
  argument chain_delete arg r = set_chain rule_number r.operation arg r
  argument rule_number arg r = set_rule_num arg r
  argument chain_policy arg r = set_chain policy_type r.operation arg r
  argument policy_type arg r = set_policy_type arg r

  -- `-N`, `-D` and `-P` stand alone.
  unfoldable pub only_option : Mode → Message → Rule → Prog World Next
  only_option mode m r = if has_operation r.operation then parse_error m r else pure (go_on mode r)

  unfoldable pub first : Text → Rule → Prog World Next
  unfolding only_option
  first arg r =
      if str_eq arg (codes "-t")
      then pure (go_on table_name r)
      else if str_eq arg (codes "-N")
      then only_option chain_new other_option_new r
      else if str_eq arg (codes "-D")
      then only_option chain_delete other_option_delete r
      else if str_eq arg (codes "-P")
      then only_option chain_policy other_option_policy r
      else if str_eq arg (codes "-h")
      then (do print help; free_rule r; exit exit_success)
      else parse_error (unknown_option arg) r

  unfoldable pub step : Mode → Text → Rule → Prog World Next
  unfolding first argument missing
  step option arg r = first arg r
  step mode arg r = if has_dash arg then parse_error (missing mode) r else argument mode arg r

  unfoldable pub at_end : Mode → Rule → Prog World Next
  unfolding missing
  at_end option r = pure (go_on option r)
  at_end mode r = parse_error (missing mode) r

  -- `while (*argv)`
  unfoldable pub parse_loop : Mode → List Text → Rule → Prog World Next
  unfolding at_end step
  parse_loop mode [] r = at_end mode r
  parse_loop mode (arg ∷ args) r = do
    next ← step mode arg r
    elim next [ stop r' ↦ pure (stop r') | go_on mode' r' ↦ parse_loop mode' args r' ]

  -- `free_rule(&r); return r;` with `r` set to NULL
  unfoldable pub fail : Rule → Prog World (Option Rule)
  fail r = do free_rule r; pure none

  -- The checks behind the loop.
  unfoldable pub check_rule : Next → Prog World (Option Rule)
  unfolding fail
  check_rule (stop r) = fail r
  check_rule (go_on mode r) =
      if has_operation r.operation
      then (if has_text r.table then pure (some r) else (do print no_table_specified; fail r))
      else (do print no_option_specified; fail r)

  -- `argv` with the name of the program in front.
  unfoldable pub parse : List Text → Prog World (Option Rule)
  unfolding parse_loop check_rule
  parse [] = do print invalid_arguments; pure none
  parse (program ∷ []) = do print invalid_arguments; pure none
  parse (program ∷ arg ∷ args) = do
    s_malloc malloc_ok
    next ← parse_loop option (arg ∷ args) no_rule
    check_rule next
