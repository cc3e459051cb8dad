-- ===== src/Iptables/Parse/Laws.antt =====
-- What `parse` of Lab07/iptcmod.c returns, and the memory that it leaves allocated.
use pus.Base.{
  ℕ, ◌+◌, ◌≡◌, ◌≢◌, refl, Bool, true, false, ◌&&◌, not, Option, none, some, List, [], ◌∷◌, arith,
}
use pus.Base.Int.{ℤ, pos, negsuc}
use pus.Base.Text.{Text}
use pus.Base.Program.{Prog, returns, >>=-eq-returns, pure}
use pus.Iptables.Rule.{
  Opcode, no_operation, delete_rule, new_chain, policy_accept, policy_drop, Rule, World, s_malloc,
  free_rule, print,
}
use pus.Iptables.Parse.{
  Mode, option, table_name, chain_new, chain_delete, rule_number, chain_policy, policy_type, Next,
  stop, go_on, no_rule, has_text, has_operation, step, parse_loop, check_rule, parse, at_end,
  parse_error,
}

abbrev has_num : Option ℤ → Bool
has_num none = false
has_num (some (pos n)) = true
has_num (some (negsuc n)) = false

abbrev block : Option Text → ℕ
block none = 0
block (some text) = 1

-- The blocks that a rule owns, its own included.
abbrev pub owned : Rule → ℕ
owned r = 1 + block r.chain + block r.table

abbrev complete : Opcode → Rule → Bool
complete no_operation r = not (has_text r.chain)
complete delete_rule r = has_text r.chain && has_num r.rule_num
complete new_chain r = has_text r.chain
complete policy_accept r = has_text r.chain
complete policy_drop r = has_text r.chain

-- What holds of the rule before an argument is read in a mode.
abbrev fits : Mode → Rule → Bool
fits option r = complete r.operation r
fits table_name r = complete r.operation r
fits chain_new r = not (has_operation r.operation) && not (has_text r.chain)
fits chain_delete r = not (has_operation r.operation) && not (has_text r.chain)
fits chain_policy r = not (has_operation r.operation) && not (has_text r.chain)
fits rule_number r = not (has_operation r.operation) && has_text r.chain
fits policy_type r = not (has_operation r.operation) && has_text r.chain

abbrev rule_of : Next → Rule
rule_of (stop r) = r
rule_of (go_on mode r) = r

-- What holds of the rule behind the loop.
abbrev ends_well : Next → Bool
ends_well (stop r) = true
ends_well (go_on mode r) = complete r.operation r

module _ (malloc_ok : ℕ → Bool) (before : ℕ) where
  -- A round that goes on.
  step-go_on :
      (mode : Mode) (arg : Text) (r : Rule) (w : World) {mode' : Mode} {r' : Rule} {w' : World}
      → fits mode r ≡ true
      → w.live ≡ before + owned r
      → step malloc_ok mode arg r w ≡ returns (go_on mode' r') w'
      → (fits mode' r' ≡ true) × (w'.live ≡ before + owned r')
  unfolding step parse_error print s_malloc
  step-go_on option arg r w f l e = ground arith
  step-go_on table_name arg r w f l e = ground arith
  step-go_on chain_new arg r w f l e = ground arith
  step-go_on chain_delete arg r w f l e = ground arith
  step-go_on rule_number arg r w f l e = ground arith
  step-go_on chain_policy arg r w f l e = ground arith
  step-go_on policy_type arg r w f l e = ground arith

  -- A round that breaks.
  step-stop :
      (mode : Mode) (arg : Text) (r : Rule) (w : World) {r' : Rule} {w' : World}
      → fits mode r ≡ true
      → w.live ≡ before + owned r
      → step malloc_ok mode arg r w ≡ returns (stop r') w'
      → w'.live ≡ before + owned r'
  unfolding step parse_error print s_malloc
  step-stop option arg r w f l e = ground arith
  step-stop table_name arg r w f l e = ground arith
  step-stop chain_new arg r w f l e = ground arith
  step-stop chain_delete arg r w f l e = ground arith
  step-stop rule_number arg r w f l e = ground arith
  step-stop chain_policy arg r w f l e = ground arith
  step-stop policy_type arg r w f l e = ground arith

  at_end-fits :
      (mode : Mode) (r : Rule) (w : World) {next : Next} {w' : World}
      → fits mode r ≡ true
      → w.live ≡ before + owned r
      → at_end malloc_ok mode r w ≡ returns next w'
      → (ends_well next ≡ true) × (w'.live ≡ before + owned (rule_of next))
  unfolding at_end parse_error print
  at_end-fits option r w f l e = ground arith
  at_end-fits mode r w f l e = ground arith

  -- One round, with what holds of the rest of the loop.
  round-fits :
      (mode : Mode) (arg : Text) (r : Rule) (w : World) (next : Next) (w1 : World)
      (rest : Mode → Rule → Prog World Next) {end : Next} {w' : World}
      → fits mode r ≡ true
      → w.live ≡ before + owned r
      → ((mode' : Mode) (r' : Rule)
          → fits mode' r' ≡ true
          → w1.live ≡ before + owned r'
          → rest mode' r' w1 ≡ returns end w'
          → (ends_well end ≡ true) × (w'.live ≡ before + owned (rule_of end)))
      → step malloc_ok mode arg r w ≡ returns next w1
      → (let next_step : Prog World Next = elim next [
        | stop r' ↦ pure (stop r')
        | go_on mode' r' ↦ rest mode' r'
      ] in
          next_step w1)
        ≡ returns end w'
      → (ends_well end ≡ true) × (w'.live ≡ before + owned (rule_of end))
  round-fits mode arg r w (stop r') w1 rest f l ih s e =
      ground (arith, step-stop mode arg r w f l s)
  round-fits mode arg r w (go_on mode' r') w1 rest f l ih s e =
      let (f', l') = step-go_on mode arg r w f l s in ih mode' r' f' l' e

  parse_loop-fits :
      (mode : Mode) (args : List Text) (r : Rule) (w : World) {next : Next} {w' : World}
      → fits mode r ≡ true
      → w.live ≡ before + owned r
      → parse_loop malloc_ok mode args r w ≡ returns next w'
      → (ends_well next ≡ true) × (w'.live ≡ before + owned (rule_of next))
  unfolding parse_loop
  parse_loop-fits mode [] r w f l e = at_end-fits mode r w f l e
  parse_loop-fits mode (arg ∷ args) r w f l e =
      let (next, w1, e1, e2) = >>=-eq-returns (step malloc_ok mode arg r) _ e in
      round-fits mode arg r w next w1 (λ mode' r'. parse_loop malloc_ok mode' args r') f l
        (λ mode' r' f' l' q. parse_loop-fits mode' args r' w1 f' l' q) e1 e2

  check_rule-none :
      (next : Next) (w : World) {w' : World}
      → w.live ≡ before + owned (rule_of next)
      → check_rule malloc_ok next w ≡ returns none w'
      → w'.live ≡ before
  unfolding check_rule print free_rule
  check_rule-none (stop r) w l e = ground arith
  check_rule-none (go_on mode r) w l e = ground arith

  check_rule-some :
      (next : Next) (w : World) {r : Rule} {w' : World}
      → ends_well next ≡ true
      → w.live ≡ before + owned (rule_of next)
      → check_rule malloc_ok next w ≡ returns (some r) w'
      → (has_operation r.operation ≡ true)
        × (complete r.operation r ≡ true)
        × (has_text r.table ≡ true)
        × (w'.live ≡ before + owned r)
  unfolding check_rule print free_rule
  check_rule-some (stop r) w c l e = ground arith
  check_rule-some (go_on mode r) w c l e = ground arith

-- A rule that can be carried out: it names a table and a chain, and a rule to be deleted has a
-- number of at least 0.
pub record IsComplete (r : Rule) : Type 0 where
  pub has_table : (t : Text) × (r.table ≡ some t)
  pub has_chain : (c : Text) × (r.chain ≡ some c)
  pub has_operation : r.operation ≢ no_operation
  pub has_number : r.operation ≡ delete_rule → (n : ℕ) × (r.rule_num ≡ some (pos n))

-- What `parse` returned, in a state with the given live blocks.
abbrev pub IsParsed : ℕ → Option Rule → ℕ → Type 0
IsParsed before none after = after ≡ before
IsParsed before (some r) after = IsComplete r × (after ≡ before + 3)

has_text-some : (o : Option Text) → has_text o ≡ true → (t : Text) × (o ≡ some t)
has_text-some none h = cc
has_text-some (some t) h = (t, refl)

has_num-some : (o : Option ℤ) → has_num o ≡ true → (n : ℕ) × (o ≡ some (pos n))
has_num-some none h = cc
has_num-some (some (pos n)) h = (n, refl)
has_num-some (some (negsuc n)) h = cc

complete-IsComplete :
    (r : Rule)
    → has_operation r.operation ≡ true
    → complete r.operation r ≡ true
    → has_text r.table ≡ true
    → IsComplete r × (owned r ≡ 3)
complete-IsComplete r o c t = (
  record {
    has_table = has_text-some r.table t;
    has_chain = has_text-some r.chain (ground arith);
    has_operation = λ e. ground arith;
    has_number = λ e. has_num-some r.rule_num (ground arith);
  },
  ground arith,
)

checked :
    (malloc_ok : ℕ → Bool) (before : ℕ) (next : Next) (w : World) (o : Option Rule) {w' : World}
    → ends_well next ≡ true
    → w.live ≡ before + owned (rule_of next)
    → check_rule malloc_ok next w ≡ returns o w'
    → IsParsed before o w'.live
checked malloc_ok before next w none well live e = check_rule-none malloc_ok before next w live e
checked malloc_ok before next w (some r) well live e =
    let (op, c, t, l) = check_rule-some malloc_ok before next w well live e in
    let (whole, three) = complete-IsComplete r op c t in (whole, ground arith)

-- Whatever the arguments, where `parse` returns NULL it has freed every block that it allocated,
-- and where it returns a rule the rule is complete and its three blocks are all that is left.
pub parse-IsParsed :
    (malloc_ok : ℕ → Bool) (argv : List Text) (w : World) (o : Option Rule) {w' : World}
    → parse malloc_ok argv w ≡ returns o w'
    → IsParsed w.live o w'.live
unfolding parse print s_malloc
parse-IsParsed malloc_ok [] w none e = ground arith
parse-IsParsed malloc_ok [] w (some r) e = cc
parse-IsParsed malloc_ok (program ∷ []) w none e = ground arith
parse-IsParsed malloc_ok (program ∷ []) w (some r) e = cc
parse-IsParsed malloc_ok (program ∷ arg ∷ args) w o e =
    let (_, w1, e1, r1) = >>=-eq-returns (s_malloc malloc_ok) _ e in
    let (next, w2, e2, r2) =
      >>=-eq-returns (parse_loop malloc_ok option (arg ∷ args) no_rule) _ r1 in
    let (well, live) =
      parse_loop-fits malloc_ok w.live option (arg ∷ args) no_rule w1 refl (ground arith) e2 in
    checked malloc_ok w.live next w2 o well live r2
