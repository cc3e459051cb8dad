-- ===== src/Tests/Checksum.antt =====
-- Instances for Lab07/libqueue.c.
use pus.Base.{ℕ, ◌-◌, ◌≡◌, refl, List, [], ◌∷◌, ◌++◌, arith, take, reverse}
use pus.Base.Program.{ok, fails, out_of_bounds}
use pus.Checksum.{internet_checksum}
use pus.Checksum.Sum.{words, total}
use pus.Checksum.Rfc.{ones_sum, internet_checksum-rfc}
use pus.Checksum.Verify.{internet_checksum-append}
use pus.SwapBytes.{swap_bytes}
use pus.SwapBytes.Laws.{swap_bytes-reverse, swap_bytes_outside}

-- An IPv4 header of 20 bytes that carries its checksum.
abbrev pub header : List ℕ
header = 69 ∷ 0 ∷ 0 ∷ 30 ∷ 0 ∷ 0 ∷ 0 ∷ 0 ∷ 64 ∷ 1 ∷ 102 ∷ 221 ∷ 10 ∷ 0 ∷ 0 ∷ 1 ∷ 10 ∷ 0 ∷ 0 ∷ 2 ∷ []

pub header-verifies : internet_checksum header 20 ≡ ok 0
unfolding internet_checksum
header-verifies = refl

-- The sum of these words carries, and the last byte is odd.
abbrev carrying : List ℕ
carrying = 255 ∷ 255 ∷ 255 ∷ 255 ∷ 7 ∷ []

checksum_of_carrying : internet_checksum carrying 5 ≡ ok 65528
unfolding internet_checksum
checksum_of_carrying = refl

checksum_outside : internet_checksum carrying 6 ≡ fails out_of_bounds
unfolding internet_checksum
checksum_outside = refl

internet_checksum-rfc_example :
    internet_checksum carrying 5 ≡ ok (65535 - ones_sum 0 (words (take 5 carrying)))
internet_checksum-rfc_example =
    internet_checksum-rfc carrying 5 (omega arith) (omega arith) (omega arith)

abbrev front : List ℕ
front = 8 ∷ 0 ∷ []

abbrev back : List ℕ
back = 1 ∷ 2 ∷ 3 ∷ 4 ∷ 65 ∷ []

swap_three : swap_bytes (9 ∷ 1 ∷ 2 ∷ 3 ∷ 8 ∷ []) 1 3 ≡ ok (9 ∷ 3 ∷ 2 ∷ 1 ∷ 8 ∷ [])
unfolding swap_bytes
swap_three = refl

swap_bytes-reverse_example :
    swap_bytes (9 ∷ 1 ∷ 2 ∷ 3 ∷ 8 ∷ []) 1 3 ≡ ok (9 ∷ reverse (1 ∷ 2 ∷ 3 ∷ []) ++ 8 ∷ [])
swap_bytes-reverse_example =
    swap_bytes-reverse (9 ∷ []) (1 ∷ 2 ∷ 3 ∷ []) (8 ∷ []) (omega arith) (omega arith)

swap_bytes_outside_run : swap_bytes (9 ∷ 1 ∷ []) 1 0 ≡ fails out_of_bounds
swap_bytes_outside_run = swap_bytes_outside (9 ∷ 1 ∷ []) 1 0 (omega arith) (omega arith)

internet_checksum-append_run :
    internet_checksum (header ++ (front ++ 0 ∷ 0 ∷ back)) 29
    ≡ internet_checksum (front ++ 0 ∷ 0 ∷ back) 9
unfolding words total
internet_checksum-append_run =
    internet_checksum-append header (front ++ 0 ∷ 0 ∷ back) (omega arith) (omega arith) refl
      (omega arith) header-verifies (omega arith)
