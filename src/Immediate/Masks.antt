-- ===== src/Immediate/Masks.antt =====
-- src/tc-i386.c: the masks of the `fits_in_` functions as bounds.
use native.Mathlib.Nat.{div-div-eq-div-mul, mul_assoc, pow-suc, mul_comm}
use mao.Prelude.{
  ℕ, zero, suc, ◌-◌, ◌*◌, ◌/◌, ◌%◌, ◌^◌, ◌<◌, ◌≡◌, sym, ◌∙◌, ap, bit_and, arith, ltb, leb, ◌||◌,
}
use mao.Prelude.Bits.{bit_and_halves}
use mao.Prelude.Masks.{bit_and-mask}
use mao.Immediate.{
  fits_in_signed_byte, fits_in_unsigned_byte, fits_in_unsigned_word, fits_in_signed_word, high_bits,
  fits_in_signed_long, fits_in_unsigned_long,
}

-- A mask without its lowest bits
pub bit_and_shifted : (k a m : ℕ) → bit_and a (m * 2 ^ k) ≡ bit_and (a / 2 ^ k) m * 2 ^ k
bit_and_shifted zero a m =
    let e : m * 2 ^ 0 ≡ m = omega arith in
    let d : a / 2 ^ 0 ≡ a = omega arith in rw (e, d) (omega arith)
bit_and_shifted (suc k) a m =
    let double : m * 2 ^ suc k ≡ m * 2 ^ k * 2 =
      ap (λ (x : ℕ). m * x) (pow-suc 2 k) ∙ sym (mul_assoc m (2 ^ k) 2) in
    let half : m * 2 ^ k * 2 / 2 ≡ m * 2 ^ k = omega arith in
    let even : m * 2 ^ k * 2 % 2 ≡ 0 = omega arith in
    let quotient : a / 2 / 2 ^ k ≡ a / 2 ^ suc k =
      div-div-eq-div-mul a 2 (2 ^ k)
      ∙ ap (λ (x : ℕ). a / x) (mul_comm 2 (2 ^ k) ∙ sym (pow-suc 2 k)) in
    let rest = bit_and_shifted k (a / 2) m in
    let step = bit_and_halves a (m * 2 ^ k * 2) in
    let both : bit_and (a / 2 ^ suc k) m * 2 ^ suc k ≡ bit_and (a / 2 ^ suc k) m * 2 ^ k * 2 =
      ap (λ (x : ℕ). bit_and (a / 2 ^ suc k) m * x) (pow-suc 2 k) ∙ sym (mul_assoc _ (2 ^ k) 2) in
    let rest' = rw quotient at rest in
    rw (double, both) (step ∙ rw (half, even) (omega (arith, rest')))

high : (num : ℕ) → num < 2 ^ 64 → bit_and num high_bits ≡ num / 2 ^ 31 * 2 ^ 31
high num h =
    let mask = bit_and-mask 33 (num / 2 ^ 31) in
    let shifted = bit_and_shifted 31 num (2 ^ 33 - 1) in omega (arith, mask, shifted)

pub fits_in_signed_byte_lem :
    (num : ℕ) → num < 2 ^ 64 → fits_in_signed_byte num ≡ (ltb num 128 || leb (2 ^ 64 - 128) num)
unfolding fits_in_signed_byte
fits_in_signed_byte_lem num h = ground arith

pub fits_in_signed_word_lem :
    (num : ℕ)
    → num < 2 ^ 64
    → fits_in_signed_word num ≡ (ltb num (2 ^ 15) || leb (2 ^ 64 - 2 ^ 15) num)
unfolding fits_in_signed_word
fits_in_signed_word_lem num h = ground arith

pub fits_in_signed_long_lem :
    (num : ℕ)
    → num < 2 ^ 64
    → fits_in_signed_long num ≡ (ltb num (2 ^ 31) || leb (2 ^ 64 - 2 ^ 31) num)
unfolding fits_in_signed_long
fits_in_signed_long_lem num h = rw (high num h) (ground arith)

pub fits_in_unsigned_byte_lem : (num : ℕ) → fits_in_unsigned_byte num ≡ ltb num (2 ^ 8)
unfolding fits_in_unsigned_byte
fits_in_unsigned_byte_lem num = ground (arith, bit_and-mask 8 num)

pub fits_in_unsigned_word_lem : (num : ℕ) → fits_in_unsigned_word num ≡ ltb num (2 ^ 16)
unfolding fits_in_unsigned_word
fits_in_unsigned_word_lem num = ground (arith, bit_and-mask 16 num)

pub fits_in_unsigned_long_lem : (num : ℕ) → fits_in_unsigned_long num ≡ ltb num (2 ^ 32)
unfolding fits_in_unsigned_long
fits_in_unsigned_long_lem num = ground (arith, bit_and-mask 32 num)
