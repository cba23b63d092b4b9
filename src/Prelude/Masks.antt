-- ===== src/Prelude/Masks.antt =====
-- Masks and shifts of native numbers: `& (2 ^ k - 1)`, `| 2 ^ k` and `| (b << k)` as arithmetic.
use Prim.Native.Nat.{
  ℕ, zero, suc, ◌+◌, ◌-◌, ◌*◌, ◌/◌, ◌%◌, ◌^◌, ◌≤◌, ◌<◌, bit_and, bit_or, bit_or-bitwise,
}
use mathlib.Core.Path.{◌≡◌, sym, ap, ◌∙◌}
use native.Mathlib.Omega.{arith}
use native.Mathlib.Nat.{
  pow-suc, one-le-pow, div-add-mod, mul-add-mod_self_left, mod-eq_of_lt, mod-lt, mul_assoc,
}
use mao.Prelude.Bits.{bit_and_halves, bit_or_halves, bit_and-zero}

mod-double : (p a : ℕ) → 1 ≤ p → a % (2 * p) ≡ a / 2 % p * 2 + a % 2
mod-double p a h =
    let c : ℕ = a / 2 % p * 2 + a % 2 in
    let small : a / 2 % p < p = mod-lt (a / 2) h in
    let e : a ≡ 2 * p * (a / 2 / p) + c = grind (arith, div-add-mod (a / 2) p) in
    ap (λ (x : ℕ). x % (2 * p)) e
    ∙ mul-add-mod_self_left (2 * p) (a / 2 / p) c
    ∙ mod-eq_of_lt (omega arith)

-- `& (2 ^ k - 1)` keeps the remainder by `2 ^ k`.
pub bit_and-mask : (k a : ℕ) → bit_and a (2 ^ k - 1) ≡ a % 2 ^ k
bit_and-mask zero a = bit_and-zero a ∙ omega arith
bit_and-mask (suc k) a =
    let e : (2 ^ suc k - 1) / 2 ≡ 2 ^ k - 1 =
      omega (arith, pow-suc 2 k, one-le-pow k 2 (omega arith)) in
    let o : (2 ^ suc k - 1) % 2 ≡ 1 = omega (arith, pow-suc 2 k, one-le-pow k 2 (omega arith)) in
    rw (bit_and_halves a (2 ^ suc k - 1), e, o, bit_and-mask k (a / 2))
      (grind (arith, pow-suc 2 k, mod-double (2 ^ k) a (one-le-pow k 2 (omega arith))))

-- `| (1 << k)` adds `2 ^ k` to a number below it.
pub bit_or_above : (k a : ℕ) → a < 2 ^ k → bit_or a (2 ^ k) ≡ a + 2 ^ k
bit_or_above zero a h = let e : a ≡ 0 = omega arith in rw (e, bit_or-bitwise) (omega arith)
bit_or_above (suc k) a h =
    let e : 2 ^ suc k / 2 ≡ 2 ^ k = omega (arith, pow-suc 2 k) in
    let rest : bit_or (a / 2) (2 ^ k) ≡ a / 2 + 2 ^ k =
      bit_or_above k (a / 2) (omega (arith, pow-suc 2 k)) in
    rw (bit_or_halves a (2 ^ suc k), e, rest) (omega (arith, pow-suc 2 k))

pub bit_or-zero : (n a : ℕ) → a < 2 ^ n → bit_or a 0 ≡ a
bit_or-zero zero a h = let e : a ≡ 0 = omega arith in rw (e, bit_or-bitwise) (omega arith)
bit_or-zero (suc n) a h =
    omega
      (arith, pow-suc 2 n, bit_or_halves a 0, bit_or-zero n (a / 2) (omega (arith, pow-suc 2 n)))

-- `a | (b << k)` is a sum where `a` stays below `2 ^ k`.
pub bit_or_shifted : (n k a b : ℕ) → b < 2 ^ n → a < 2 ^ k → bit_or a (b * 2 ^ k) ≡ a + b * 2 ^ k
bit_or_shifted n zero a b w h = let e : a ≡ 0 = omega arith in rw (e, bit_or-bitwise) (omega arith)
bit_or_shifted n (suc k) a b w h =
    let double : b * 2 ^ suc k ≡ b * 2 ^ k * 2 =
      ap (λ (x : ℕ). b * x) (pow-suc 2 k) ∙ sym (mul_assoc b (2 ^ k) 2) in
    let e : b * 2 ^ suc k / 2 ≡ b * 2 ^ k = omega (arith, double) in
    let rest : bit_or (a / 2) (b * 2 ^ k) ≡ a / 2 + b * 2 ^ k =
      bit_or_shifted n k (a / 2) b w (omega (arith, pow-suc 2 k)) in
    rw (bit_or_halves a (b * 2 ^ suc k), e, rest) (omega (arith, double))

pub pow-add : (a k : ℕ) → 2 ^ (a + k) ≡ 2 ^ a * 2 ^ k
pow-add a zero = let e : a + zero ≡ a = omega arith in rw e (omega arith)
pow-add a (suc k) =
    let e : a + suc k ≡ suc (a + k) = omega arith in
    rw (e, pow-suc 2 (a + k), pow-add a k, pow-suc 2 k) (mul_assoc (2 ^ a) (2 ^ k) 2)
