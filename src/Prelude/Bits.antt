-- ===== src/Prelude/Bits.antt =====
-- The binary digits of native numbers: what `&`, `|`, `~` and `1 << k` do to each of them.
use Prim.Native.Nat.{
  ℕ, zero, suc, ◌+◌, ◌-◌, ◌*◌, ◌/◌, ◌%◌, ◌^◌, ◌≤◌, ◌<◌, min, max, bit_and, bit_or, digits,
  bit_and-bitwise, bit_or-bitwise,
}
use mathlib.Core.Path.{◌≡◌, refl, ◌∙◌}
use mathlib.Core.Bool.{Bool, false, not, ◌&&◌, ◌||◌}
use native.Mathlib.Omega.{arith}
use native.Mathlib.Nat.{pow-suc, one-le-pow}
use mathlib.Core.Logic.{inl, inr}
use mao.Prelude.Tests.{◌==◌, Bool-cases}

-- Digit `k` of `a`.
unfoldable pub bit : ℕ → ℕ → Bool
bit zero a = a % 2 == 1
bit (suc k) a = bit k (a / 2)

-- The count of digits to go does not matter once it is large enough.
enough_digits :
    (z : ℕ → ℕ) (f : ℕ → ℕ → ℕ) (n m a b : ℕ) → a ≤ n → a ≤ m → digits z f n a b ≡ digits z f m a b
enough_digits z f zero zero zero b p q = refl
enough_digits z f zero zero (suc a) b p q = absurd (omega arith)
enough_digits z f zero (suc m) zero b p q = refl
enough_digits z f zero (suc m) (suc a) b p q = absurd (omega arith)
enough_digits z f (suc n) zero zero b p q = refl
enough_digits z f (suc n) zero (suc a) b p q = absurd (omega arith)
enough_digits z f (suc n) (suc m) zero b p q = refl
enough_digits z f (suc n) (suc m) (suc a) b p q =
    rw (enough_digits z f n m (suc a / 2) (b / 2) (omega arith) (omega arith))

-- The lowest digit of `a & b`, and the rest.
pub bit_and_halves : (a b : ℕ) → bit_and a b ≡ bit_and (a / 2) (b / 2) * 2 + min (a % 2) (b % 2)
bit_and_halves zero b = simp bit_and-bitwise (omega arith)
bit_and_halves (suc a) b = simp bit_and-bitwise (
    omega (
      arith,
      enough_digits (λ y. 0) min a (suc a / 2) (suc a / 2) (b / 2) (omega arith) (omega arith),
    ))

-- The lowest digit of `a | b`, and the rest.
pub bit_or_halves : (a b : ℕ) → bit_or a b ≡ bit_or (a / 2) (b / 2) * 2 + max (a % 2) (b % 2)
bit_or_halves zero b = simp bit_or-bitwise (omega arith)
bit_or_halves (suc a) b = simp bit_or-bitwise (
    omega (
      arith,
      enough_digits (λ y. y) max a (suc a / 2) (suc a / 2) (b / 2) (omega arith) (omega arith),
    ))

pub bit-and : (k a b : ℕ) → bit k (bit_and a b) ≡ (bit k a && bit k b)
unfolding bit
bit-and zero a b = ground (arith, bit_and_halves a b)
bit-and (suc k) a b =
    let e : bit_and a b / 2 ≡ bit_and (a / 2) (b / 2) = omega (arith, bit_and_halves a b) in
    rw e (bit-and k (a / 2) (b / 2))

pub bit-or : (k a b : ℕ) → bit k (bit_or a b) ≡ (bit k a || bit k b)
unfolding bit
bit-or zero a b = ground (arith, bit_or_halves a b)
bit-or (suc k) a b =
    let e : bit_or a b / 2 ≡ bit_or (a / 2) (b / 2) = omega (arith, bit_or_halves a b) in
    rw e (bit-or k (a / 2) (b / 2))

pub bit-zero : (k : ℕ) → bit k 0 ≡ false
unfolding bit
bit-zero zero = refl
bit-zero (suc k) = bit-zero k

-- A number below `2 ^ n` has no digit at `n` or above.
pub bit_high : (n k a : ℕ) → a < 2 ^ n → n ≤ k → bit k a ≡ false
unfolding bit
bit_high zero k a h le = let e : a ≡ 0 = omega arith in rw e (bit-zero k)
bit_high (suc n) zero a h le = absurd (omega arith)
bit_high (suc n) (suc k) a h le = bit_high n k (a / 2) (omega (arith, pow-suc 2 n)) (omega arith)

-- `2 ^ n - 1 - a` is `~a` in `n` digits.
pub bit-complement : (n k a : ℕ) → a < 2 ^ n → k < n → bit k (2 ^ n - 1 - a) ≡ not (bit k a)
unfolding bit
bit-complement zero k a h lt = absurd (omega arith)
bit-complement (suc n) zero a h lt = ground (arith, pow-suc 2 n)
bit-complement (suc n) (suc k) a h lt =
    let e : (2 ^ suc n - 1 - a) / 2 ≡ 2 ^ n - 1 - a / 2 = omega (arith, pow-suc 2 n) in
    rw e (bit-complement n k (a / 2) (omega (arith, pow-suc 2 n)) (omega arith))

pub bit-pow : (j k : ℕ) → bit j (2 ^ k) ≡ (j == k)
unfolding bit
bit-pow zero zero = refl
bit-pow zero (suc k) = ground (arith, pow-suc 2 k)
bit-pow (suc j) zero = rw (bit-zero j) (ground arith)
bit-pow (suc j) (suc k) =
    let e : 2 ^ suc k / 2 ≡ 2 ^ k = omega (arith, pow-suc 2 k) in rw e (bit-pow j k ∙ ground arith)

digits-min_zero : (n a : ℕ) → digits (λ y. 0) min n a 0 ≡ 0
digits-min_zero zero a = refl
digits-min_zero (suc n) zero = refl
digits-min_zero (suc n) (suc a) = omega (arith, digits-min_zero n (suc a / 2))

pub bit_and-zero : (a : ℕ) → bit_and a 0 ≡ 0
bit_and-zero a = simp bit_and-bitwise (digits-min_zero a a)

-- `a & (1 << k)` is not zero exactly when digit `k` is set.
pub bit_and-pow : (k a : ℕ) → not (bit_and a (2 ^ k) == 0) ≡ bit k a
unfolding bit
bit_and-pow zero a = ground (arith, bit_and_halves a 1, bit_and-zero (a / 2))
bit_and-pow (suc k) a =
    ground (arith, pow-suc 2 k, bit_and_halves a (2 ^ suc k), bit_and-pow k (a / 2))

pub bit_and-le : (n a b : ℕ) → a < 2 ^ n → bit_and a b ≤ a
bit_and-le zero a b h = let e : a ≡ 0 = omega arith in rw (e, bit_and-bitwise) (omega arith)
bit_and-le (suc n) a b h = omega (
  arith,
  pow-suc 2 n,
  bit_and_halves a b,
  bit_and-le n (a / 2) (b / 2) (omega (arith, pow-suc 2 n)),
)

pub bit_or-lt : (n a b : ℕ) → a < 2 ^ n → b < 2 ^ n → bit_or a b < 2 ^ n
bit_or-lt zero a b h k = let e : a ≡ 0 = omega arith in rw (e, bit_or-bitwise) (omega arith)
bit_or-lt (suc n) a b h k = omega (
  arith,
  pow-suc 2 n,
  bit_or_halves a b,
  bit_or-lt n (a / 2) (b / 2) (omega (arith, pow-suc 2 n)) (omega (arith, pow-suc 2 n)),
)

-- Numbers with the same digits are equal.
pub bit_ext : (n a b : ℕ) → a < 2 ^ n → b < 2 ^ n → ((k : ℕ) → k < n → bit k a ≡ bit k b) → a ≡ b
unfolding bit
bit_ext zero a b h k e = omega arith
bit_ext (suc n) a b h k e =
    let same : a / 2 ≡ b / 2 =
      bit_ext n (a / 2) (b / 2) (omega (arith, pow-suc 2 n)) (omega (arith, pow-suc 2 n))
        (λ j lt. e (suc j) (omega arith)) in
    ground (arith, e 0, same)

-- `v & (v - 1)` clears the lowest digit of `v` that is set.
unfoldable pub popcount : ℕ → ℕ → ℕ
popcount zero a = 0
popcount (suc n) a = a % 2 + popcount n (a / 2)

pub popcount-zero : (n : ℕ) → popcount n 0 ≡ 0
unfolding popcount
popcount-zero zero = refl
popcount-zero (suc n) = omega (arith, popcount-zero n)

bit_and_self : (n a : ℕ) → a < 2 ^ n → bit_and a a ≡ a
bit_and_self zero a h = let e : a ≡ 0 = omega arith in rw (e, bit_and-zero)
bit_and_self (suc n) a h =
    omega
      (arith, pow-suc 2 n, bit_and_halves a a, bit_and_self n (a / 2) (omega (arith, pow-suc 2 n)))

pub popcount-clear_lowest :
    (n a : ℕ) → a < 2 ^ n → 0 < a → popcount n (bit_and a (a - 1)) + 1 ≡ popcount n a
unfolding popcount
popcount-clear_lowest zero a h p = absurd (omega arith)
popcount-clear_lowest (suc n) a h p = elim (Bool-cases (a % 2 == 0)) [
  | inl even ↦
      let e : (a - 1) / 2 ≡ a / 2 - 1 = ground arith in
      let f : bit_and a (a - 1) ≡ bit_and (a / 2) (a / 2 - 1) * 2 =
        rw (← e) (ground (arith, bit_and_halves a (a - 1))) in
      let g : bit_and a (a - 1) / 2 ≡ bit_and (a / 2) (a / 2 - 1) = omega arith in
      rw g (ground (arith, popcount-clear_lowest n (a / 2), pow-suc 2 n))
  | inr odd ↦
      let e : (a - 1) / 2 ≡ a / 2 = ground arith in
      let f : bit_and a (a - 1) ≡ a - 1 =
        rw (bit_and_halves a (a - 1), e) (ground (arith, pow-suc 2 n, bit_and_self n (a / 2))) in
      rw (f, e) (ground arith)
]

-- Powers of two grow.
pub pow_lt : (k n : ℕ) → k < n → 2 ^ k < 2 ^ n
pow_lt k zero h = absurd (omega arith)
pow_lt zero (suc n) h = omega (arith, pow-suc 2 n, one-le-pow n 2)
pow_lt (suc k) (suc n) h = omega (arith, pow-suc 2 n, pow-suc 2 k, pow_lt k n)
