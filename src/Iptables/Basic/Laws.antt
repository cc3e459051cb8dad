-- ===== src/Iptables/Basic/Laws.antt =====
-- Lab07/iptc.c against Lab07/iptcmod.c.
use pus.Base.{
  ℕ, ◌≡◌, refl, Bool, true, false, ◌&&◌, ◌||◌, not, Option, none, some, List, [], ◌∷◌, arith, ap,
  ◌∙◌, ◌+◌, ◌-◌,
}
use pus.Base.Text.{Text, codes, str_eq}
use pus.Base.Program.{
  Prog, Outcome, returns, exits, faults, >>=-cong, pure, ◌>>=◌, exit, exit_failure,
}
use pus.Iptables.Rule.{
  Opcode, no_operation, delete_rule, new_chain, policy_accept, policy_drop, Rule, World, print,
  s_malloc, free_rule, init_failed, unknown_option,
}
use pus.Iptables.Parse.{
  Mode, option, table_name, chain_new, chain_delete, rule_number, chain_policy, policy_type, Next,
  stop, go_on, no_rule, parse_error, missing, argument, only_option, at_end, check_rule,
}
use pus.Iptables.Parse
use pus.Iptables.Main
use pus.Iptables.Main.{Libiptc, State, own, run_in, text_of, give_up}
use pus.Iptables.Basic.{first, step, parse_loop, parse, dispatch, carry_out, with_rule, main}
use pus.Iptables.Basic.Operations.{is_basic, gives_basic, parse-gives_basic}

-- No argument is `-P` or `-h`.
unfoldable pub has_common_options : List Text → Bool
has_common_options [] = true
has_common_options (arg ∷ args) =
    not (str_eq arg (codes "-P") || str_eq arg (codes "-h")) && has_common_options args

module _ (malloc_ok : ℕ → Bool) where
  step-eq :
      (mode : Mode) (arg : Text) (r : Rule) (w : World)
      → (str_eq arg (codes "-P") || str_eq arg (codes "-h")) ≡ false
      → step malloc_ok mode arg r w ≡ Parse.step malloc_ok mode arg r w
  unfolding step first Parse.step Parse.first
  step-eq option arg r w h = ground arith
  step-eq table_name arg r w h = refl
  step-eq chain_new arg r w h = refl
  step-eq chain_delete arg r w h = refl
  step-eq rule_number arg r w h = refl
  step-eq chain_policy arg r w h = refl
  step-eq policy_type arg r w h = refl

  parse_loop-eq :
      (mode : Mode) (args : List Text) (r : Rule) (w : World)
      → has_common_options args ≡ true
      → parse_loop malloc_ok mode args r w ≡ Parse.parse_loop malloc_ok mode args r w
  unfolding parse_loop Parse.parse_loop has_common_options
  parse_loop-eq mode [] r w h = refl
  parse_loop-eq mode (arg ∷ args) r w h =
      >>=-cong (step malloc_ok mode arg r) (Parse.step malloc_ok mode arg r) _ _ w
        (step-eq mode arg r w (ground arith))
        (next-eq args λ mode' r' w'. parse_loop-eq mode' args r' w' (ground arith))
    where
      next-eq :
          (args : List Text)
          → ((mode : Mode) (r : Rule) (w : World)
              → parse_loop malloc_ok mode args r w ≡ Parse.parse_loop malloc_ok mode args r w)
          → (next : Next) (w : World)
          → ◌≡◌ {A = Outcome World Next}
              (elim next as (λ _. Prog World Next) [
                | stop r ↦ pure (stop r)
                | go_on mode r ↦ parse_loop malloc_ok mode args r
              ]
                w)
              (elim next as (λ _. Prog World Next) [
                | stop r ↦ pure (stop r)
                | go_on mode r ↦ Parse.parse_loop malloc_ok mode args r
              ]
                w)
      next-eq args ih (stop r) w = refl
      next-eq args ih (go_on mode r) w = ih mode r w

  parse-eq :
      (argv : List Text) (w : World)
      → has_common_options argv ≡ true
      → parse malloc_ok argv w ≡ Parse.parse malloc_ok argv w
  unfolding parse Parse.parse has_common_options
  parse-eq [] w h = refl
  parse-eq (program ∷ []) w h = refl
  parse-eq (program ∷ arg ∷ args) w h =
      >>=-cong (s_malloc malloc_ok) (s_malloc malloc_ok) _ _ w refl λ u w1.
        >>=-cong (parse_loop malloc_ok option (arg ∷ args) no_rule)
          (Parse.parse_loop malloc_ok option (arg ∷ args) no_rule) _ _ w1
          (parse_loop-eq option (arg ∷ args) no_rule w1 (ground arith)) λ next w2. refl

module _ (malloc_ok : ℕ → Bool) where
  rule_allocated :
      (w : World)
      → malloc_ok w.mallocs ≡ true
      → s_malloc malloc_ok w ≡ returns tt (record w { live = w.live + 1; mallocs = w.mallocs + 1 })
  unfolding s_malloc
  rule_allocated w ok = rw ok refl

  parse_unknown_policy :
      (program : Text) (args : List Text) (w : World)
      → malloc_ok w.mallocs ≡ true
      → parse malloc_ok (program ∷ codes "-P" ∷ args) w
        ≡ returns none (record w {
          live = w.live + 1 - 1;
          mallocs = w.mallocs + 1;
          printed = unknown_option (codes "-P") ∷ w.printed;
        })
  unfolding parse parse_loop step first parse_error print free_rule check_rule str_eq
  parse_unknown_policy program args w ok = ground (arith, rule_allocated w ok)

module _ (lib : Libiptc) where
  open lib use {Handle}

  dispatch-eq :
      (operation : Opcode) (h : Handle) (r : Rule) (s : State Handle)
      → is_basic operation ≡ true
      → dispatch lib operation h r s ≡ Main.dispatch lib operation h r s
  unfolding dispatch Main.dispatch is_basic
  dispatch-eq no_operation h r s b = refl
  dispatch-eq delete_rule h r s b = refl
  dispatch-eq new_chain h r s b = refl
  dispatch-eq policy_accept h r s b = cc
  dispatch-eq policy_drop h r s b = cc

  carry_out-eq :
      (h : Handle) (r : Rule) (s : State Handle)
      → is_basic r.operation ≡ true
      → carry_out lib h r s ≡ Main.carry_out lib h r s
  unfolding carry_out Main.carry_out
  carry_out-eq h r s b =
      >>=-cong (dispatch lib r.operation h r) (Main.dispatch lib r.operation h r) _ _ s
        (dispatch-eq r.operation h r s b) λ u t. refl

  with_rule-eq :
      (r : Rule) (s : State Handle)
      → is_basic r.operation ≡ true
      → with_rule lib r s ≡ Main.with_rule lib r s
  unfolding with_rule Main.with_rule
  with_rule-eq r s b =
      >>=-cong (text_of r.table) (text_of r.table) _ _ s refl
        λ table t. opened-eq (lib.iptc_init table) t
    where
      opened-eq :
          (o : Option Handle) (t : State Handle)
          → ◌≡◌ {A = Outcome (State Handle) (Unit {0})}
              (elim o as (λ _. Prog (State Handle) (Unit {0})) [
                | none ↦ give_up init_failed
                | some h ↦ carry_out lib h r
              ]
                t)
              (elim o as (λ _. Prog (State Handle) (Unit {0})) [
                | none ↦ give_up init_failed
                | some h ↦ Main.carry_out lib h r
              ]
                t)
      opened-eq none t = refl
      opened-eq (some h) t = carry_out-eq h r t b

  -- A command line without `-P` and `-h` has the same outcome in both programs.
  pub main-eq :
      (malloc_ok : ℕ → Bool) (argv : List Text) (s : State Handle)
      → has_common_options argv ≡ true
      → main lib malloc_ok argv s ≡ Main.main lib malloc_ok argv s
  unfolding main Main.main gives_basic
  main-eq malloc_ok argv s h =
      parsed-eq (parse malloc_ok argv s.world) (parse-gives_basic malloc_ok argv s.world)
      ∙ ap (λ (o : Outcome World (Option Rule)). continue o) (parse-eq malloc_ok argv s.world h)
    where
      continue : Outcome World (Option Rule) → Outcome (State Handle) (Unit {0})
      continue o =
          ((λ s. run_in s o) >>= λ r. elim r [
            | none ↦ exit exit_failure
            | some rule ↦ Main.with_rule lib rule
          ])
            s

      parsed-eq :
          (o : Outcome World (Option Rule))
          → gives_basic o ≡ true
          → ((λ s. run_in s o) >>= λ r. elim r [
            | none ↦ exit exit_failure
            | some rule ↦ with_rule lib rule
          ])
              s
            ≡ continue o
      parsed-eq (returns none w) g = refl
      parsed-eq (returns (some rule) w) g = with_rule-eq rule _ g
      parsed-eq (exits code w) g = refl
      parsed-eq (faults e) g = refl

  -- `-P` is no option here: with memory for the rule, a command line that begins with it ends with
  -- failure; it is named as unknown, the memory is freed, nothing is committed and no handle is
  -- taken.
  pub main_unknown_policy :
      (malloc_ok : ℕ → Bool) (program : Text) (args : List Text) (s : State Handle)
      → malloc_ok s.world.mallocs ≡ true
      → (t : State Handle) × (main lib malloc_ok (program ∷ codes "-P" ∷ args) s
          ≡ exits exit_failure t)
        × (t.world.printed ≡ unknown_option (codes "-P") ∷ s.world.printed)
        × (t.world.live ≡ s.world.live)
        × (t.commits ≡ s.commits)
        × (t.handles_freed ≡ s.handles_freed)
  unfolding main
  main_unknown_policy malloc_ok program args s ok = (
    record s {
      world = record s.world {
        live = s.world.live + 1 - 1;
        mallocs = s.world.mallocs + 1;
        printed = unknown_option (codes "-P") ∷ s.world.printed;
      };
    },
    ground (arith, parse_unknown_policy malloc_ok program args s.world ok),
    refl,
    omega arith,
    refl,
    refl,
  )
