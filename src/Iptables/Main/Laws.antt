-- ===== src/Iptables/Main/Laws.antt =====
-- What a run of Lab07/iptcmod.c does to the kernel.
use pus.Base.{◌+◌, ◌-◌, ◌≡◌, refl, false, Option, some, none, List, [], ◌∷◌, ◌++◌, arith}
use pus.Base.{if◌then◌else◌, Option-cases, inl, inr, ◌⊎◌}
use pus.Base.Int.{pos}
use pus.Base.Text.{Text, codes, has_dash}
use pus.Base.Program.{returns, exits, exit_success, exit_failure}
use pus.Iptables.Rule.{
  World, Message, print, free_rule, no_such_chain, not_builtin, operation_failed, commit_failed,
  init_failed,
}
use pus.Iptables.Main.{Policy, Libiptc, State, main, dispatch, carry_out, with_rule}
use pus.Iptables.Parse.{parse}
use pus.Iptables.Parse.Commands.{
  Command, delete, create, IsCommand, command_line, rule_for, plenty, parsed_world,
  parse-command_line,
}

module _ (lib : Libiptc) where
  open lib use {
    Handle, iptc_init, iptc_is_chain, iptc_builtin, iptc_delete_num_entry, iptc_create_chain,
    iptc_set_policy, iptc_commit,
  }

  -- What a command is to do to a table: `none` where it cannot be done.
  abbrev pub effect : Command → Handle → Option Handle
  effect (delete chain num n) h =
      if iptc_is_chain chain h then iptc_delete_num_entry chain (pos n) h else none
  effect (create chain) h = iptc_create_chain chain h
  effect (Command.accept chain) h =
      if iptc_is_chain chain h
      then if iptc_builtin chain h then iptc_set_policy chain Policy.accept h else none
      else none
  effect (Command.drop chain) h =
      if iptc_is_chain chain h
      then if iptc_builtin chain h then iptc_set_policy chain Policy.drop h else none
      else none

  -- The table that goes back to the kernel.
  abbrev pub committed : Option Handle → Option Handle
  committed none = none
  committed (some h) = if iptc_commit h then some h else none

  abbrev pub outcome : Text → Command → Option Handle
  outcome table c = elim (iptc_init table) [ none ↦ none | some h ↦ committed (effect c h) ]

  abbrev pub commits_after : Option Handle → List Handle → List Handle
  commits_after none commits = commits
  commits_after (some h) commits = h ∷ commits

  dispatch-some :
      (table : Text) (c : Command) (h h' : Handle) (s : State Handle)
      → committed (effect c h) ≡ some h'
      → dispatch lib (rule_for table c).operation h (rule_for table c) s
        ≡ returns tt (record s { commits = h' ∷ s.commits })
  unfolding dispatch
  dispatch-some table (delete chain num n) h h' s e = ground arith
  dispatch-some table (create chain) h h' s e = ground arith
  dispatch-some table (Command.accept chain) h h' s e = ground arith
  dispatch-some table (Command.drop chain) h h' s e = ground arith

  abbrev policy_complaint : Text → Option Handle → Handle → Message
  policy_complaint chain changed_ h =
      if iptc_is_chain chain h
      then if iptc_builtin chain h
        then elim changed_ [ none ↦ operation_failed | some h' ↦ commit_failed ]
        else not_builtin
      else no_such_chain

  -- What is printed where a command cannot be carried out.
  abbrev pub complaint : Command → Handle → Message
  complaint (delete chain num n) h =
      if iptc_is_chain chain h
      then elim (iptc_delete_num_entry chain (pos n) h) [
        | none ↦ operation_failed
        | some h' ↦ commit_failed
      ]
      else no_such_chain
  complaint (create chain) h = elim (iptc_create_chain chain h) [
    | none ↦ operation_failed
    | some h' ↦ commit_failed
  ]
  complaint (Command.accept chain) h =
      policy_complaint chain (iptc_set_policy chain Policy.accept h) h
  complaint (Command.drop chain) h = policy_complaint chain (iptc_set_policy chain Policy.drop h) h

  dispatch-none :
      (table : Text) (c : Command) (h : Handle) (s : State Handle)
      → committed (effect c h) ≡ none
      → dispatch lib (rule_for table c).operation h (rule_for table c) s
        ≡ exits exit_failure
            (record s { world = record s.world { printed = complaint c h ∷ s.world.printed } })
  unfolding dispatch print
  dispatch-none table (delete chain num n) h s e = ground arith
  dispatch-none table (create chain) h s e = ground arith
  dispatch-none table (Command.accept chain) h s e = ground arith
  dispatch-none table (Command.drop chain) h s e = ground arith

  -- The two forms of a command line.
  abbrev pub IsArgv : Text → Text → Command → List Text → Type 0
  IsArgv program table c argv =
      (argv ≡ program ∷ codes "-t" ∷ table ∷ command_line c)
      ⊎ (argv ≡ program ∷ (command_line c ++ codes "-t" ∷ table ∷ []))

  parse_argv :
      (program table : Text) (c : Command) (argv : List Text) (w : World)
      → has_dash table ≡ false
      → IsCommand c
      → IsArgv program table c argv
      → parse plenty argv w ≡ returns (some (rule_for table c)) (parsed_world w)
  parse_argv program table c argv w t v (inl e) = rw e (parse-command_line program table c w t v).0
  parse_argv program table c argv w t v (inr e) = rw e (parse-command_line program table c w t v).1

  -- The state that a command leaves that was carried out, and one that was not.
  abbrev pub succeeded : Handle → State Handle → State Handle
  succeeded h s = record s { commits = h ∷ s.commits; handles_freed = s.handles_freed + 1 }

  abbrev pub failed : Message → State Handle → State Handle
  failed m s = record s { world = record s.world { printed = m ∷ s.world.printed } }

  abbrev freed : State Handle → State Handle
  freed s = record s { world = record s.world { live = s.world.live - 3 } }

  carry_out-some :
      (table : Text) (c : Command) (h h' : Handle) (s : State Handle)
      → committed (effect c h) ≡ some h'
      → carry_out lib h (rule_for table c) s ≡ exits exit_success (freed (succeeded h' s))
  unfolding carry_out free_rule
  carry_out-some table (delete chain num n) h h' s e =
      ground (arith, dispatch-some table (delete chain num n) h h' s e)
  carry_out-some table (create chain) h h' s e =
      ground (arith, dispatch-some table (create chain) h h' s e)
  carry_out-some table (Command.accept chain) h h' s e =
      ground (arith, dispatch-some table (Command.accept chain) h h' s e)
  carry_out-some table (Command.drop chain) h h' s e =
      ground (arith, dispatch-some table (Command.drop chain) h h' s e)

  carry_out-none :
      (table : Text) (c : Command) (h : Handle) (s : State Handle)
      → committed (effect c h) ≡ none
      → carry_out lib h (rule_for table c) s ≡ exits exit_failure (failed (complaint c h) s)
  unfolding carry_out
  carry_out-none table c h s e = ground (arith, dispatch-none table c h s e)

  table_of : (table : Text) (c : Command) → (rule_for table c).table ≡ some table
  table_of table (delete chain num n) = refl
  table_of table (create chain) = refl
  table_of table (Command.accept chain) = refl
  table_of table (Command.drop chain) = refl

  -- While memory lasts, a command line of one of the four commands, where libiptc can carry it out
  -- and commit it, ends with success: the changed table is committed, once, the handle is given
  -- back, once, all memory is freed and nothing is printed.
  pub main-some :
      (program table : Text) (c : Command) (argv : List Text) (h' : Handle) (s : State Handle)
      → has_dash table ≡ false
      → IsCommand c
      → IsArgv program table c argv
      → outcome table c ≡ some h'
      → (t : State Handle) × (main lib plenty argv s ≡ exits exit_success t)
        × (t.commits ≡ h' ∷ s.commits)
        × (t.handles_freed ≡ s.handles_freed + 1)
        × (t.world.live ≡ s.world.live)
        × (t.world.printed ≡ s.world.printed)
  unfolding main with_rule
  main-some program table c argv h' s d v a e = elim (Option-cases (iptc_init table)) [
    | inl closed ↦ absurd (ground arith)
    | inr (h, opened) ↦
        let s1 : State Handle = record s { world = parsed_world s.world } in
        (
          freed (succeeded h' s1),
          ground (
            arith,
            parse_argv program table c argv s.world d v a,
            table_of table c,
            carry_out-some table c h h' s1,
          ),
          refl,
          refl,
          omega arith,
          refl,
        )
  ]

  -- Where libiptc cannot open the table, carry the command out or commit it, the run ends with
  -- failure, one message is printed, nothing is committed and no handle is given back.
  pub main-none :
      (program table : Text) (c : Command) (argv : List Text) (s : State Handle)
      → has_dash table ≡ false
      → IsCommand c
      → IsArgv program table c argv
      → outcome table c ≡ none
      → (t : State Handle) × (m : Message) × (main lib plenty argv s ≡ exits exit_failure t)
        × (t.commits ≡ s.commits)
        × (t.handles_freed ≡ s.handles_freed)
        × (t.world.printed ≡ m ∷ s.world.printed)
  unfolding main with_rule print
  main-none program table c argv s d v a e =
      let s1 : State Handle = record s { world = parsed_world s.world } in
      elim (Option-cases (iptc_init table)) [
        | inl closed ↦ (
          failed init_failed s1,
          init_failed,
          ground (arith, parse_argv program table c argv s.world d v a, table_of table c),
          refl,
          refl,
          refl,
        )
        | inr (h, opened) ↦ (
          failed (complaint c h) s1,
          complaint c h,
          ground (
            arith,
            parse_argv program table c argv s.world d v a,
            table_of table c,
            carry_out-none table c h s1,
          ),
          refl,
          refl,
          refl,
        )
      ]
