-- ===== src/Tests/Iptables.antt =====
-- Instances for Lab07/iptcmod.c and Lab07/iptc.c.
use Prim.Native.Nat.{pred}
use pus.Base.{ℕ, ◌+◌, ◌≡◌, refl, true, some, none, List, [], ◌∷◌, inl, inr, if◌then◌else◌}
use pus.Base.Int.{pos}
use pus.Base.Text.{Text, codes, str_eq, atoi}
use pus.Base.Program.{Result, returns, exits, exit_success, exit_failure}
use pus.Iptables.Rule.{World, Message, s_malloc, print, free_rule}
use pus.Iptables.Parse.{parse, parse_error}
use pus.Iptables.Parse.Laws.{IsParsed, parse-IsParsed}
use pus.Iptables.Parse.Commands.{
  Command, delete, create, plenty, rule_for, parsed_world, parse-command_line,
}
use pus.Iptables.Basic
use pus.Iptables.Basic.Laws.{has_common_options, main-eq, main_unknown_policy}
use pus.Iptables.Main.{Libiptc, State, main}
use pus.Iptables.Main.Laws.{outcome, main-some, main-none}

abbrev start : World
start = record { live = 4; mallocs = 0; printed = [] }

abbrev filter_table : Text
filter_table = codes "filter"

abbrev delete_third : Command
delete_third = delete (codes "INPUT") (codes "3") 2

third : atoi (codes "3") ≡ Result.ok (pos 3)
unfolding atoi
third = refl

abbrev argv : List Text
argv = codes "iptc" ∷ codes "-t" ∷ filter_table ∷ codes "-D" ∷ codes "INPUT" ∷ codes "3" ∷ []

-- A second operation is refused, and the memory is freed.
abbrev argv_twice : List Text
argv_twice = codes "iptc" ∷ codes "-N" ∷ codes "a" ∷ codes "-N" ∷ codes "b" ∷ []

twice :
    parse plenty argv_twice start
    ≡ returns none (record { live = 4; mallocs = 2; printed = Message.other_option_new ∷ [] })
unfolding parse parse_error s_malloc print free_rule str_eq
twice = refl

parse-IsParsed_example : IsParsed 4 none 4
parse-IsParsed_example = parse-IsParsed plenty argv_twice start none twice

parse-command_line_example :
    (parse plenty argv start
      ≡ returns (some (rule_for filter_table delete_third)) (parsed_world start))
    × (parse plenty
          (codes "iptc" ∷ codes "-D" ∷ codes "INPUT" ∷ codes "3" ∷ codes "-t" ∷ filter_table ∷ [])
          start
        ≡ returns (some (rule_for filter_table delete_third)) (parsed_world start))
parse-command_line_example =
    parse-command_line (codes "iptc") filter_table delete_third start refl (refl, refl, third)

-- A library whose handles are numbers of rules, with one chain.
abbrev counting : Libiptc
counting = record {
  Handle = ℕ;
  iptc_init = λ table. if str_eq table filter_table then some 5 else none;
  iptc_is_chain = λ chain h. true;
  iptc_builtin = λ chain h. true;
  iptc_delete_num_entry = λ chain n h. some (pred h);
  iptc_create_chain = λ chain h. none;
  iptc_set_policy = λ chain policy h. some h;
  iptc_commit = λ h. true;
}

abbrev running : State ℕ
running = record { world = start; commits = []; handles_freed = 0 }

counting_opened : outcome counting filter_table delete_third ≡ some 4
unfolding str_eq
counting_opened = refl

main-some_example :
    (t : State ℕ) × (main counting plenty argv running ≡ exits exit_success t)
    × (t.commits ≡ 4 ∷ [])
    × (t.handles_freed ≡ 0 + 1)
    × (t.world.live ≡ 4)
    × (t.world.printed ≡ [])
main-some_example =
    main-some counting (codes "iptc") filter_table delete_third argv 4 running refl
      (refl, refl, third) (inl refl) counting_opened

abbrev argv_create : List Text
argv_create = codes "iptc" ∷ codes "-N" ∷ codes "new" ∷ codes "-t" ∷ filter_table ∷ []

counting_refuses : outcome counting filter_table (create (codes "new")) ≡ none
unfolding str_eq
counting_refuses = refl

main-none_run :
    (t : State ℕ) × (m : Message) × (main counting plenty argv_create running
      ≡ exits exit_failure t)
    × (t.commits ≡ [])
    × (t.handles_freed ≡ 0)
    × (t.world.printed ≡ m ∷ [])
main-none_run =
    main-none counting (codes "iptc") filter_table (create (codes "new")) argv_create running refl
      refl (inr refl) counting_refuses

-- The earlier program, at the same command lines.
main-eq_example : Basic.main counting plenty argv running ≡ main counting plenty argv running
unfolding str_eq has_common_options
main-eq_example = main-eq counting plenty argv running refl

main_unknown_policy_run :
    (t : State ℕ) × (Basic.main counting plenty
        (codes "iptc" ∷ codes "-P" ∷ codes "INPUT" ∷ [])
        running
      ≡ exits exit_failure t)
    × (t.world.printed ≡ Message.unknown_option (codes "-P") ∷ [])
    × (t.world.live ≡ 4)
    × (t.commits ≡ [])
    × (t.handles_freed ≡ 0)
main_unknown_policy_run =
    main_unknown_policy counting plenty (codes "iptc") (codes "INPUT" ∷ []) running refl
