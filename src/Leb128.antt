-- ===== src/Leb128.antt =====
-- src/read.c: the LEB128 numbers of the `.uleb128` and `.sleb128` directives. `sizeof_leb128` and
-- `output_leb128` work on 64-bit values; an `offsetT` is kept as its bit pattern below 2 ^ 64.
-- The loops take fuel, and `none` is out of fuel.
pub mod Unsigned
pub mod Signed
pub mod Encoding
pub mod Value
pub mod Big
mod Examples
use mao.Prelude.{
  ℕ, zero, suc, ◌+◌, ◌-◌, ◌*◌, ◌/◌, ◌%◌, ◌^◌, bit_and, bit_or, Bool, true, false, not, ◌&&◌, ◌||◌,
  Option, none, some, List, [], ◌∷◌, length, ltb, ◌==◌, if◌then◌else◌,
}
use mao.Prelude.Checked.{◌>>=◌}

-- `-1`, as an `offsetT`
abbrev pub minus_one : ℕ
minus_one = 2 ^ 64 - 1

-- `sizeof_uleb128`
unfoldable pub sizeof_uleb128_loop : ℕ → ℕ → ℕ → Option ℕ
sizeof_uleb128_loop zero size value = none
sizeof_uleb128_loop (suc fuel) size value =
    let value' = value / 2 ^ 7 in
    let rest = sizeof_uleb128_loop fuel (size + 1) value' in
    if not (value' == 0) then rest else some (size + 1)

-- `value >> 7` of an `offsetT`, which copies the sign
abbrev pub shift_right_7 : ℕ → ℕ
shift_right_7 value =
    if ltb value (2 ^ 63) then value / 2 ^ 7 else value / 2 ^ 7 + (2 ^ 64 - 2 ^ 57)

-- `(value >> 7) | ~(-(offsetT)1 >> 7)`
abbrev pub next_value : ℕ → ℕ
next_value value = bit_or (shift_right_7 value) (minus_one - shift_right_7 minus_one)

-- The test that ends the loops on signed values, on the rest of the value and the last seven bits
abbrev pub is_last : ℕ → ℕ → Bool
is_last value byte =
    ((value == 0) && (bit_and byte 0x40 == 0))
    || ((value == minus_one) && not (bit_and byte 0x40 == 0))

-- `sizeof_sleb128`
unfoldable pub sizeof_sleb128_loop : ℕ → ℕ → ℕ → Option ℕ
sizeof_sleb128_loop zero size value = none
sizeof_sleb128_loop (suc fuel) size value =
    let byte = bit_and value 0x7f in
    let value' = next_value value in
    let rest = sizeof_sleb128_loop fuel (size + 1) value' in
    if not (is_last value' byte) then rest else some (size + 1)

-- The fuel of the loops: 64 bits are ten groups of seven at most.
abbrev pub groups : ℕ
groups = 10

-- `sizeof_leb128`
unfoldable pub sizeof_leb128 : ℕ → Bool → Option ℕ
sizeof_leb128 value sign =
    if sign then sizeof_sleb128_loop groups 0 value else sizeof_uleb128_loop groups 0 value

-- `output_uleb128`: the bytes that it stores from `p` on
unfoldable pub output_uleb128 : ℕ → ℕ → Option (List ℕ)
output_uleb128 zero value = none
output_uleb128 (suc fuel) value =
    let byte = bit_and value 0x7f in
    let value' = value / 2 ^ 7 in
    let rest = output_uleb128 fuel value' >>= λ bytes. some (bit_or byte 0x80 ∷ bytes) in
    if not (value' == 0) then rest else some (byte ∷ [])

-- `output_sleb128`
unfoldable pub output_sleb128 : ℕ → ℕ → Option (List ℕ)
output_sleb128 zero value = none
output_sleb128 (suc fuel) value =
    let byte = bit_and value 0x7f in
    let value' = next_value value in
    let more = not (is_last value' byte) in
    let rest = output_sleb128 fuel value' >>= λ bytes. some (bit_or byte 0x80 ∷ bytes) in
    if more then rest else some (byte ∷ [])

-- `output_leb128`: the bytes, whose number it returns
unfoldable pub output_leb128 : ℕ → Bool → Option (List ℕ)
output_leb128 value sign = if sign then output_sleb128 groups value else output_uleb128 groups value
