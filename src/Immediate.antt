-- ===== src/Immediate.antt =====
-- src/tc-i386.c: the widths that an immediate value fits, `fits_in_signed_byte` and its kin,
-- `smallest_imm_type` and `mode_from_disp_size`. An `offsetT` is a pattern of 64 bits (`BFD64` is defined).
pub mod Masks
pub mod Exact
mod Examples
use mao.Prelude.{
  ℕ, ◌+◌, ◌-◌, ◌*◌, ◌^◌, bit_and, Bool, true, false, not, ◌&&◌, ◌||◌, ltb, leb, ◌==◌, if◌then◌else◌,
}
use mao.InstructionSize.{OperandType}

-- `num >= -n` and `num <= n` for a pattern of 64 bits
abbrev pub at_least_minus : ℕ → ℕ → Bool
at_least_minus n num = ltb num (2 ^ 63) || leb (2 ^ 64 - n) num

abbrev pub at_most : ℕ → ℕ → Bool
at_most n num = not (ltb num (2 ^ 63)) || leb num n

-- `fits_in_signed_byte`
unfoldable pub fits_in_signed_byte : ℕ → Bool
fits_in_signed_byte num = at_least_minus 128 num && at_most 127 num

-- `fits_in_unsigned_byte`
unfoldable pub fits_in_unsigned_byte : ℕ → Bool
fits_in_unsigned_byte num = bit_and num 0xff == num

-- `fits_in_unsigned_word`
unfoldable pub fits_in_unsigned_word : ℕ → Bool
fits_in_unsigned_word num = bit_and num 0xffff == num

-- `fits_in_signed_word`
unfoldable pub fits_in_signed_word : ℕ → Bool
fits_in_signed_word num = at_least_minus 32768 num && at_most 32767 num

-- `(offsetT) -1 << 31`
abbrev pub high_bits : ℕ
high_bits = 2 ^ 64 - 2 ^ 31

-- `fits_in_signed_long`
unfoldable pub fits_in_signed_long : ℕ → Bool
fits_in_signed_long num = (bit_and num high_bits == 0) || (bit_and num high_bits == high_bits)

-- `fits_in_unsigned_long`
unfoldable pub fits_in_unsigned_long : ℕ → Bool
fits_in_unsigned_long num = bit_and num (2 * 2 ^ 31 - 1) == num

-- `fits_in_imm4`
unfoldable pub fits_in_imm4 : ℕ → Bool
fits_in_imm4 num = bit_and num 0xf == num

-- The bits of an `i386_operand_type` that `smallest_imm_type` sets
pub record ImmType : Type 0 where
  pub imm1 : Bool
  pub imm8 : Bool
  pub imm8s : Bool
  pub imm16 : Bool
  pub imm32 : Bool
  pub imm32s : Bool
  pub imm64 : Bool

-- `t` after `operand_type_set (&t, 0)` and `t.bitfield.imm64 = 1`
abbrev pub only_imm64 : ImmType
only_imm64 = record {
  imm1 = false;
  imm8 = false;
  imm8s = false;
  imm16 = false;
  imm32 = false;
  imm32s = false;
  imm64 = true;
}

-- `smallest_imm_type`; `i486` is `cpu_arch_tune == PROCESSOR_I486`.
unfoldable pub smallest_imm_type : Bool → ℕ → ImmType
smallest_imm_type i486 num =
    if not i486 && (num == 1)
    then record only_imm64 {
      imm1 = true;
      imm8 = true;
      imm8s = true;
      imm16 = true;
      imm32 = true;
      imm32s = true;
    }
    else if fits_in_signed_byte num
    then record only_imm64 { imm8 = true; imm8s = true; imm16 = true; imm32 = true; imm32s = true }
    else if fits_in_unsigned_byte num
    then record only_imm64 { imm8 = true; imm16 = true; imm32 = true; imm32s = true }
    else if fits_in_signed_word num || fits_in_unsigned_word num
    then record only_imm64 { imm16 = true; imm32 = true; imm32s = true }
    else if fits_in_signed_long num
    then record only_imm64 { imm32 = true; imm32s = true }
    else if fits_in_unsigned_long num
    then record only_imm64 { imm32 = true }
    else only_imm64

-- `mode_from_disp_size`
unfoldable pub mode_from_disp_size : OperandType → ℕ
mode_from_disp_size t = if t.disp8 then 1 else if t.disp16 || t.disp32 || t.disp32s then 2 else 0
