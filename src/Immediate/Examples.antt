-- ===== src/Immediate/Examples.antt =====
-- An unsigned byte, and a negative value of 32 bits (src/tc-i386.c).
use mao.Prelude.{◌-◌, ◌^◌, ◌≡◌, refl, true, false, arith}
use mao.Immediate.{
  only_imm64, smallest_imm_type, fits_in_signed_byte, fits_in_unsigned_byte, fits_in_signed_word,
  fits_in_unsigned_word, fits_in_signed_long,
}
use mao.Immediate.Exact.{IsExactType, smallest_imm_type-IsExactType}

two_hundred :
    smallest_imm_type false 200
    ≡ record only_imm64 { imm8 = true; imm16 = true; imm32 = true; imm32s = true }
unfolding smallest_imm_type fits_in_signed_byte fits_in_unsigned_byte
two_hundred = refl

minus_100000 :
    smallest_imm_type false (2 ^ 64 - 100000) ≡ record only_imm64 { imm32 = true; imm32s = true }
unfolding smallest_imm_type fits_in_signed_byte fits_in_unsigned_byte fits_in_signed_word
    fits_in_unsigned_word fits_in_signed_long
minus_100000 = refl

smallest_imm_type-IsExactType_example : IsExactType 200 (smallest_imm_type true 200)
smallest_imm_type-IsExactType_example = smallest_imm_type-IsExactType true 200 (omega arith)
