-- ===== src/Immediate/Exact.antt =====
-- src/tc-i386.c: an immediate value can be read back from every width that `smallest_imm_type` allows.
use mao.Prelude.{ℕ, ◌+◌, ◌-◌, ◌%◌, ◌^◌, ◌<◌, ◌≡◌, Bool, true, arith, ltb, ◌==◌, ◌||◌, if◌then◌else◌}
use mao.Immediate.{ImmType, smallest_imm_type}
use mao.Immediate.Masks.{
  fits_in_signed_byte_lem, fits_in_unsigned_byte_lem, fits_in_signed_word_lem,
  fits_in_unsigned_word_lem, fits_in_signed_long_lem, fits_in_unsigned_long_lem,
}

-- The low `w` bits, with their sign extended to 64 bits
abbrev pub sign_extended : ℕ → ℕ → ℕ
sign_extended w num =
    if ltb (num % 2 ^ w) (2 ^ (w - 1)) then num % 2 ^ w else num % 2 ^ w + (2 ^ 64 - 2 ^ w)

-- Whether a value is what its low `w` bits give, read as signed, or as unsigned
abbrev pub signed_exact : ℕ → ℕ → Bool
signed_exact w num = sign_extended w num == num

abbrev pub unsigned_exact : ℕ → ℕ → Bool
unsigned_exact w num = num % 2 ^ w == num

pub record IsExactType (num : ℕ) (t : ImmType) : Type 0 where
  pub imm8s_is : t.imm8s ≡ signed_exact 8 num
  pub imm8_is : t.imm8 ≡ (signed_exact 8 num || unsigned_exact 8 num)
  pub imm16_is : t.imm16 ≡ (signed_exact 16 num || unsigned_exact 16 num)
  pub imm32s_is : t.imm32s ≡ signed_exact 32 num
  pub imm32_is : t.imm32 ≡ (signed_exact 32 num || unsigned_exact 32 num)
  pub imm64_is : t.imm64 ≡ true

-- `smallest_imm_type` marks a width exactly where the value is what its low bits of that width give: for
-- `imm8s` and `imm32s` with their sign extended, for `imm8`, `imm16` and `imm32` so or with zeros above.
-- 64 bits always do.
pub smallest_imm_type-IsExactType :
    (i486 : Bool) (num : ℕ) → num < 2 ^ 64 → IsExactType num (smallest_imm_type i486 num)
unfolding smallest_imm_type
smallest_imm_type-IsExactType i486 num h =
    let sb = fits_in_signed_byte_lem num h in
    let ub = fits_in_unsigned_byte_lem num in
    let sw = fits_in_signed_word_lem num h in
    let uw = fits_in_unsigned_word_lem num in
    let sl = fits_in_signed_long_lem num h in
    let ul = fits_in_unsigned_long_lem num in
    record {
      imm8s_is = rw (sb, ub, sw, uw, sl, ul) (ground arith);
      imm8_is = rw (sb, ub, sw, uw, sl, ul) (ground arith);
      imm16_is = rw (sb, ub, sw, uw, sl, ul) (ground arith);
      imm32s_is = rw (sb, ub, sw, uw, sl, ul) (ground arith);
      imm32_is = rw (sb, ub, sw, uw, sl, ul) (ground arith);
      imm64_is = rw (sb, ub, sw, uw, sl, ul) (ground arith);
    }
