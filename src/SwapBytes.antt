-- ===== src/SwapBytes.antt =====
-- `swap_bytes` of Lab07/libqueue.c. The memory that may be accessed is a list of bytes; a pointer
-- is an offset into it, and an access behind its end is a fault.
use pus.Base.{ℕ, zero, suc, ◌+◌, ◌-◌, ◌%◌, ◌^◌, List, Option, none, some, true, false}
use pus.Base.{ltb, get_elem?, set}
use pus.Base.Program.{Result, ok, fails, bind, out_of_bounds}
pub mod Laws

load : List ℕ → ℕ → Result ℕ
load mem p = elim (get_elem? mem p) [ none ↦ fails out_of_bounds | some b ↦ ok b ]

-- A store follows a load through the same pointer, so it needs no check of its own.
store : List ℕ → ℕ → ℕ → Result (List ℕ)
store mem p b = ok (set mem p b)

-- `while (head < tail)`; the distance shrinks in each round, so `tail` rounds are enough.
swap_loop : ℕ → List ℕ → ℕ → ℕ → Result (List ℕ)
swap_loop zero mem head tail = ok mem
swap_loop (suc fuel) mem head tail = elim (ltb head tail) [
  | false ↦ ok mem
  | true ↦ bind (load mem head) λ tmp. bind (load mem tail) λ last.
      bind (store mem head last)
        λ mem'. bind (store mem' tail tmp) λ mem''. swap_loop fuel mem'' (head + 1) (tail - 1)
]

-- `data_length` is an `unsigned int`, so `data_length - 1` wraps at 2 ^ 32.
unfoldable pub swap_bytes : List ℕ → ℕ → ℕ → Result (List ℕ)
unfolding swap_loop load store
swap_bytes mem data_start data_length =
    let tail = data_start + (data_length + (2 ^ 32 - 1)) % 2 ^ 32 in
    swap_loop tail mem data_start tail
