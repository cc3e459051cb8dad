-- ===== src/Iptables/Basic/Operations.antt =====
-- The operations that Lab07/iptc.c knows.
use pus.Base.{both, ℕ, ◌≡◌, refl, Bool, true, false, ◌&&◌, Option, none, some, List, [], ◌∷◌, arith}
use pus.Base.Text.{Text}
use pus.Base.Program.{Prog, Outcome, returns, exits, faults, pure, ◌>>=◌}
use pus.Iptables.Rule.{
  Opcode, no_operation, delete_rule, new_chain, policy_accept, policy_drop, Rule, World, print,
  s_malloc, free_rule,
}
use pus.Iptables.Parse.{
  Mode, option, table_name, chain_new, chain_delete, rule_number, chain_policy, policy_type, Next,
  stop, go_on, no_rule, parse_error, missing, argument, only_option, at_end, check_rule,
}
use pus.Iptables.Parse
use pus.Iptables.Basic.{first, step, parse_loop, parse}

-- The operations that this program knows, and what is expected of its arguments.
unfoldable pub is_basic : Opcode → Bool
is_basic no_operation = true
is_basic delete_rule = true
is_basic new_chain = true
is_basic policy_accept = false
is_basic policy_drop = false

is_basic_mode : Mode → Bool
is_basic_mode option = true
is_basic_mode table_name = true
is_basic_mode chain_new = true
is_basic_mode chain_delete = true
is_basic_mode rule_number = true
is_basic_mode chain_policy = false
is_basic_mode policy_type = false

keeps_basic : Outcome World Next → Bool
keeps_basic (returns (stop r) w) = true
keeps_basic (returns (go_on mode r) w) = is_basic_mode mode && is_basic r.operation
keeps_basic (exits code w) = true
keeps_basic (faults e) = true

unfoldable pub gives_basic : Outcome World (Option Rule) → Bool
gives_basic (returns none w) = true
gives_basic (returns (some r) w) = is_basic r.operation
gives_basic (exits code w) = true
gives_basic (faults e) = true

module _ (malloc_ok : ℕ → Bool) where
  step-keeps_basic :
      (mode : Mode) (arg : Text) (r : Rule) (w : World)
      → is_basic_mode mode ≡ true
      → is_basic r.operation ≡ true
      → keeps_basic (step malloc_ok mode arg r w) ≡ true
  unfolding step first parse_error keeps_basic is_basic is_basic_mode print s_malloc free_rule
      Parse.argument Parse.only_option
  step-keeps_basic option arg r w m b = ground arith
  step-keeps_basic table_name arg r w m b = ground arith
  step-keeps_basic chain_new arg r w m b = ground arith
  step-keeps_basic chain_delete arg r w m b = ground arith
  step-keeps_basic rule_number arg r w m b = ground arith
  step-keeps_basic chain_policy arg r w m b = cc
  step-keeps_basic policy_type arg r w m b = cc

  at_end-keeps_basic :
      (mode : Mode) (r : Rule) (w : World)
      → is_basic_mode mode ≡ true
      → is_basic r.operation ≡ true
      → keeps_basic (at_end malloc_ok mode r w) ≡ true
  unfolding at_end parse_error print keeps_basic is_basic_mode is_basic
  at_end-keeps_basic option r w m b = ground arith
  at_end-keeps_basic table_name r w m b = refl
  at_end-keeps_basic chain_new r w m b = refl
  at_end-keeps_basic chain_delete r w m b = refl
  at_end-keeps_basic rule_number r w m b = refl
  at_end-keeps_basic chain_policy r w m b = refl
  at_end-keeps_basic policy_type r w m b = refl

  next_keeps_basic :
      (o : Outcome World Next) (f : Mode → Rule → Prog World Next)
      → keeps_basic o ≡ true
      → ((mode : Mode) (r : Rule) (w : World)
          → is_basic_mode mode ≡ true
          → is_basic r.operation ≡ true
          → keeps_basic (f mode r w) ≡ true)
      → keeps_basic (elim o [
        | returns next w ↦
            elim next as (λ _. Prog World Next) [ stop r ↦ pure (stop r) | go_on mode r ↦ f mode r ]
              w
        | exits code w ↦ exits code w
        | faults e ↦ faults e
      ])
        ≡ true
  unfolding keeps_basic
  next_keeps_basic (returns (stop r) w) f k h = refl
  next_keeps_basic (returns (go_on mode r) w) f k h =
      let (m, b) = both (is_basic_mode mode) (is_basic r.operation) k in h mode r w m b
  next_keeps_basic (exits code w) f k h = refl
  next_keeps_basic (faults e) f k h = refl

  parse_loop-keeps_basic :
      (mode : Mode) (args : List Text) (r : Rule) (w : World)
      → is_basic_mode mode ≡ true
      → is_basic r.operation ≡ true
      → keeps_basic (parse_loop malloc_ok mode args r w) ≡ true
  unfolding parse_loop
  parse_loop-keeps_basic mode [] r w m b = at_end-keeps_basic mode r w m b
  parse_loop-keeps_basic mode (arg ∷ args) r w m b =
      next_keeps_basic (step malloc_ok mode arg r w) _ (step-keeps_basic mode arg r w m b)
        λ mode' r' w'. parse_loop-keeps_basic mode' args r' w'

  checked_gives_basic :
      (o : Outcome World Next)
      → keeps_basic o ≡ true
      → gives_basic (elim o [
        | returns next w ↦ check_rule malloc_ok next w
        | exits code w ↦ exits code w
        | faults e ↦ faults e
      ])
        ≡ true
  unfolding keeps_basic gives_basic check_rule free_rule print
  checked_gives_basic (returns (stop r) w) k = ground arith
  checked_gives_basic (returns (go_on mode r) w) k = ground arith
  checked_gives_basic (exits code w) k = refl
  checked_gives_basic (faults e) k = refl

  begun_gives_basic :
      (o : Outcome World (Unit {0})) (args : List Text)
      → gives_basic (elim o [
        | returns u w ↦ (parse_loop malloc_ok option args no_rule >>= check_rule malloc_ok) w
        | exits code w ↦ exits code w
        | faults e ↦ faults e
      ])
        ≡ true
  unfolding gives_basic is_basic is_basic_mode
  begun_gives_basic (returns u w) args =
      checked_gives_basic (parse_loop malloc_ok option args no_rule w)
        (parse_loop-keeps_basic option args no_rule w refl refl)
  begun_gives_basic (exits code w) args = refl
  begun_gives_basic (faults e) args = refl

  -- No command line gives an operation that sets a policy.
  pub parse-gives_basic :
      (argv : List Text) (w : World) → gives_basic (parse malloc_ok argv w) ≡ true
  unfolding parse gives_basic print
  parse-gives_basic [] w = refl
  parse-gives_basic (program ∷ []) w = refl
  parse-gives_basic (program ∷ arg ∷ args) w = begun_gives_basic (s_malloc malloc_ok w) (arg ∷ args)
