-- ===== src/Iptables/Rule.antt =====
-- `struct rule` of Lab07/iptcmod.c, the allocation of memory, and what the program prints.
use pus.Base.{ℕ, ◌+◌, ◌-◌, Bool, Option, none, some, List, ◌∷◌, if◌then◌else◌}
use pus.Base.Int.{ℤ}
use pus.Base.Text.{Text}
use pus.Base.Program.{Prog, ◌>>=◌, ◌>>◌, pure, exit, exit_failure, returns}

pub data Opcode : Type 0 where
  no_operation delete_rule new_chain policy_accept policy_drop : Opcode

-- A pointer is NULL or owns a block with a text. `rule_num` is not set before it is parsed.
pub record Rule : Type 0 where
  pub operation : Opcode
  pub chain : Option Text
  pub table : Option Text
  pub rule_num : Option ℤ

pub data Message : Type 0 where
  invalid_arguments expecting_table table_only_once : Message
  other_option_new expecting_chain_new : Message
  other_option_delete expecting_chain_delete expecting_rule_number invalid_rule_number : Message
  other_option_policy expecting_chain_policy expecting_policy_type expecting_accept_or_drop :
      Message
  no_option_specified no_table_specified : Message
  unknown_option : Text → Message
  malloc_failed help help_without_policy : Message
  init_failed no_such_chain not_builtin operation_failed commit_failed : Message

-- The number of blocks that are allocated, of calls of `malloc`, and the lines printed, the latest
-- first.
pub record World : Type 0 where
  pub live : ℕ
  pub mallocs : ℕ
  pub printed : List Message

unfoldable pub print : Message → Prog World (Unit {0})
print m w = returns tt (record w { printed = m ∷ w.printed })

-- `malloc_ok n` says whether the call of `malloc` after the first `n` succeeds.
module _ (malloc_ok : ℕ → Bool) where
  unfoldable pub s_malloc : Prog World (Unit {0})
  unfolding print
  s_malloc w =
      if malloc_ok w.mallocs
      then returns tt (record w { live = w.live + 1; mallocs = w.mallocs + 1 })
      else (do print malloc_failed; exit exit_failure) (record w { mallocs = w.mallocs + 1 })

-- Frees the block, if the pointer is not NULL; the caller's pointer is NULL then.
unfoldable pub s_free : Option Text → Prog World (Option Text)
s_free none = pure none
s_free (some text) = λ w. returns none (record w { live = w.live - 1 })

-- Frees the texts and the structure itself.
unfoldable pub free_rule : Rule → Prog World (Unit {0})
unfolding s_free
free_rule r = do
  _ ← s_free r.chain
  _ ← s_free r.table
  λ w. returns tt (record w { live = w.live - 1 })
