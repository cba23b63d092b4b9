-- ===== src/Leb128/Big/Examples.antt =====
-- A number of 80 bits, written by `output_big_uleb128` (src/read.c).
use mao.Leb128.Big.Sleb.{
  sleb_bytes, sleb_rest, sleb_loop, stripped_signed_size, output_big_sleb128, output_big_leb128,
  convert_to_bignum,
}
use mao.Prelude.{ℕ, true, ◌^◌, ◌≡◌, refl, some, List, [], ◌∷◌, ◌++◌, arith}
use mao.Leb128.Big.{stripped_size, load, big_uleb128_loop, output_big_uleb128}
use mao.Leb128.Big.Digits.{big_value}
use mao.Leb128.Big.Unsigned.{read_big_uleb128, read-output_big_uleb128}

-- 3 * 2 ^ 64 + 2 ^ 16 + 5, with a zero on top
abbrev wide : List ℕ
wide = 5 ∷ 1 ∷ 0 ∷ 0 ∷ 3 ∷ 0 ∷ []

wide_bytes :
    output_big_uleb128 wide ≡ some (133 ∷ 128 ∷ 132 ∷ 128 ∷ 128 ∷ 128 ∷ 128 ∷ 128 ∷ 128 ∷ 6 ∷ [])
unfolding output_big_uleb128 stripped_size big_uleb128_loop load
wide_bytes = refl

read-output_big_uleb128_example :
    (bytes : List ℕ) × (output_big_uleb128 wide ≡ some bytes)
    × ((rest : List ℕ) → read_big_uleb128 (bytes ++ rest) ≡ some (big_value wide, rest))
read-output_big_uleb128_example =
    read-output_big_uleb128 wide
      (omega arith, (omega arith, (omega arith, (omega arith, (omega arith, (omega arith, tt))))))

-- -1, and 2 ^ 63, which a constant of 64 bits shows as negative
one_byte : output_big_sleb128 (0xffff ∷ 0xffff ∷ []) ≡ some (0x7f ∷ [])
unfolding output_big_sleb128 sleb_loop sleb_rest sleb_bytes stripped_signed_size
one_byte = refl

ten_bytes :
    output_big_leb128 (convert_to_bignum (2 ^ 63) true) true
    ≡ some (0x80 ∷ 0x80 ∷ 0x80 ∷ 0x80 ∷ 0x80 ∷ 0x80 ∷ 0x80 ∷ 0x80 ∷ 0x80 ∷ 0x01 ∷ [])
unfolding output_big_leb128 output_big_sleb128 sleb_loop sleb_rest sleb_bytes stripped_signed_size
    convert_to_bignum
ten_bytes = refl
