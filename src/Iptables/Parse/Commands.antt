-- ===== src/Iptables/Parse/Commands.antt =====
-- The command lines that `parse` of Lab07/iptcmod.c accepts, and the rules that it makes of them.
use pus.Base.{ℕ, ◌+◌, ◌≡◌, Bool, true, false, some, none, List, [], ◌∷◌, ◌++◌, arith}
use pus.Base.Int.{pos}
use pus.Base.Text.{Text, codes, str_eq, has_dash, atoi}
use pus.Base.Program.{ok, returns}
use pus.Iptables.Rule.{delete_rule, new_chain, policy_accept, policy_drop, Rule, World, s_malloc}
use pus.Iptables.Parse.{parse}

pub data Command : Type 0 where
  delete : Text → Text → ℕ → Command
  create : Text → Command
  accept : Text → Command
  drop : Text → Command

-- The arguments of a command; the rules are numbered from 1 on the command line.
abbrev pub command_line : Command → List Text
command_line (delete chain num n) = codes "-D" ∷ chain ∷ num ∷ []
command_line (create chain) = codes "-N" ∷ chain ∷ []
command_line (accept chain) = codes "-P" ∷ chain ∷ codes "ACCEPT" ∷ []
command_line (drop chain) = codes "-P" ∷ chain ∷ codes "DROP" ∷ []

-- No name begins with a dash, and the number is that of the rule plus one.
abbrev pub IsCommand : Command → Type 0
IsCommand (delete chain num n) =
    (has_dash chain ≡ false) × (has_dash num ≡ false) × (atoi num ≡ ok (pos (n + 1)))
IsCommand (create chain) = has_dash chain ≡ false
IsCommand (accept chain) = has_dash chain ≡ false
IsCommand (drop chain) = has_dash chain ≡ false

abbrev pub rule_for : Text → Command → Rule
rule_for table (delete chain num n) = record {
  operation = delete_rule;
  chain = some chain;
  table = some table;
  rule_num = some (pos n);
}
rule_for table (create chain) = record {
  operation = new_chain;
  chain = some chain;
  table = some table;
  rule_num = none;
}
rule_for table (accept chain) = record {
  operation = policy_accept;
  chain = some chain;
  table = some table;
  rule_num = none;
}
rule_for table (drop chain) = record {
  operation = policy_drop;
  chain = some chain;
  table = some table;
  rule_num = none;
}

-- `malloc` never fails.
abbrev pub plenty : ℕ → Bool
plenty n = true

-- Three blocks more.
abbrev pub parsed_world : World → World
parsed_world w = record w { live = w.live + 3; mallocs = w.mallocs + 3 }

parse_table_first :
    (program table : Text) (c : Command) (w : World)
    → has_dash table ≡ false
    → IsCommand c
    → parse plenty (program ∷ codes "-t" ∷ table ∷ command_line c) w
      ≡ returns (some (rule_for table c)) (parsed_world w)
unfolding parse s_malloc str_eq
parse_table_first program table (delete chain num n) w t v = ground arith
parse_table_first program table (create chain) w t v = ground arith
parse_table_first program table (accept chain) w t v = ground arith
parse_table_first program table (drop chain) w t v = ground arith

parse_table_last :
    (program table : Text) (c : Command) (w : World)
    → has_dash table ≡ false
    → IsCommand c
    → parse plenty (program ∷ (command_line c ++ codes "-t" ∷ table ∷ [])) w
      ≡ returns (some (rule_for table c)) (parsed_world w)
unfolding parse s_malloc str_eq
parse_table_last program table (delete chain num n) w t v = ground arith
parse_table_last program table (create chain) w t v = ground arith
parse_table_last program table (accept chain) w t v = ground arith
parse_table_last program table (drop chain) w t v = ground arith

-- While memory lasts, each of the four commands, with the table in front or behind, is parsed to
-- its rule, at the cost of three blocks and with nothing printed. The number of a rule is one less
-- than on the command line.
pub parse-command_line :
    (program table : Text) (c : Command) (w : World)
    → has_dash table ≡ false
    → IsCommand c
    → (parse plenty (program ∷ codes "-t" ∷ table ∷ command_line c) w
        ≡ returns (some (rule_for table c)) (parsed_world w))
      × (parse plenty (program ∷ (command_line c ++ codes "-t" ∷ table ∷ [])) w
          ≡ returns (some (rule_for table c)) (parsed_world w))
parse-command_line program table c w t v =
    (parse_table_first program table c w t v, parse_table_last program table c w t v)
