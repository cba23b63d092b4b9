-- ===== src/Leb128/Examples.antt =====
-- Runs of the LEB128 writers (src/read.c) at concrete values.
use mao.Prelude.{ℕ, ◌-◌, ◌^◌, ◌≤◌, ◌≡◌, refl, true, false, some, List, [], ◌∷◌, ◌++◌, arith, length}
use mao.Leb128.{output_leb128, output_sleb128, output_uleb128, sizeof_leb128, groups}
use mao.Leb128.Value.{read_leb128, read-output_leb128}

-- -129
abbrev small_negative : ℕ
small_negative = 2 ^ 64 - 129

output_small_negative : output_leb128 small_negative true ≡ some (255 ∷ 126 ∷ [])
unfolding output_leb128 output_sleb128
output_small_negative = refl

output_unsigned : output_leb128 624485 false ≡ some (229 ∷ 142 ∷ 38 ∷ [])
unfolding output_leb128 output_uleb128
output_unsigned = refl

read-output_leb128_example :
    (bytes : List ℕ) × (output_leb128 small_negative true ≡ some bytes)
    × (sizeof_leb128 small_negative true ≡ some (length bytes))
    × (length bytes ≤ groups)
    × ((rest : List ℕ) → read_leb128 true (bytes ++ rest) ≡ some (small_negative, rest))
read-output_leb128_example = read-output_leb128 small_negative true (omega arith)
