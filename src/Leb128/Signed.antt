-- ===== src/Leb128/Signed.antt =====
-- The `.sleb128` values (src/read.c): `output_sleb128` and `sizeof_sleb128` on the bit patterns of
-- `offsetT`.
use native.Mathlib.Nat.{pow-suc}
use mao.Prelude.{
  ℕ, zero, suc, ◌+◌, ◌-◌, ◌*◌, ◌/◌, ◌%◌, ◌^◌, ◌≤◌, ◌<◌, ◌≡◌, bit_and, true, not, inl, inr, ◌⊎◌,
  ◌||◌, arith, ltb, if◌then◌else◌, Bool-cases,
}
use mao.Prelude.Masks.{bit_or-zero}
use mao.Leb128.{sizeof_sleb128_loop, output_sleb128, next_value, is_last}
use mao.Leb128.Encoding.{Encoded, more_bytes, last_byte, last_signed, bit_and_0x7f, bit_and_0x40}

-- The value of the pattern lies in `- 64 * 128 ^ n` to `64 * 128 ^ n - 1`.
abbrev pub InGroups : ℕ → ℕ → Type 0
InGroups n v = (v < 64 * 128 ^ n) ⊎ (2 ^ 64 ≤ v + 64 * 128 ^ n)

next_value_lem :
    (v : ℕ)
    → v < 2 ^ 64
    → next_value v ≡ (if ltb v (2 ^ 63) then v / 128 else v / 128 + (2 ^ 64 - 2 ^ 57))
next_value_lem v h = bit_or-zero 64 _ (ground arith)

is_last_lem :
    (v : ℕ)
    → v < 2 ^ 64
    → is_last (next_value v) (bit_and v 0x7f) ≡ (ltb v 64 || not (ltb v (2 ^ 64 - 64)))
is_last_lem v h =
    rw (bit_and_0x7f v, bit_and_0x40 (v % 128) (omega arith), next_value_lem v h) (ground arith)

next_value-InGroups : (n v : ℕ) → v < 2 ^ 64 → InGroups (suc n) v → InGroups n (next_value v)
next_value-InGroups n v w h =
    let step : 128 ^ suc n ≡ 128 ^ n * 128 = pow-suc 128 n in
    elim (Bool-cases (ltb v (2 ^ 63))) [
      | inl e ↦ rw (next_value_lem v w, e) (inl (ground (arith, h)))
      | inr e ↦ rw (next_value_lem v w, e) (inr (ground (arith, h)))
    ]

next_value-lt : (v : ℕ) → v < 2 ^ 64 → next_value v < 2 ^ 64
next_value-lt v w = rw (next_value_lem v w) (ground arith)

next_value-restores : (v : ℕ) → v < 2 ^ 64 → (v % 128 + 128 * next_value v) % 2 ^ 64 ≡ v
next_value-restores v w = rw (next_value_lem v w) (ground arith)

last_signed_lem :
    (v : ℕ)
    → v < 2 ^ 64
    → (ltb v 64 || not (ltb v (2 ^ 64 - 64))) ≡ true
    → last_signed (v % 128) ≡ v
unfolding last_signed
last_signed_lem v w h = ground arith

-- With fuel for the groups of the value, the loops end, and the bytes are an encoding of it.
pub output_sleb128-Encoded :
    (n v : ℕ)
    → v < 2 ^ 64
    → InGroups n v
    → Encoded last_signed
        (suc n)
        v
        (output_sleb128 (suc n) v)
        (λ s. sizeof_sleb128_loop (suc n) s v)
unfolding output_sleb128 sizeof_sleb128_loop
output_sleb128-Encoded zero v w h =
    let e : (ltb v 64 || not (ltb v (2 ^ 64 - 64))) ≡ true = ground arith in
    rw (is_last_lem v w, e) (last_byte last_signed 0 v (last_signed_lem v w e))
output_sleb128-Encoded (suc n) v w h = elim (Bool-cases (ltb v 64 || not (ltb v (2 ^ 64 - 64)))) [
  | inl e ↦ rw (is_last_lem v w, e) (last_byte last_signed (suc n) v (last_signed_lem v w e))
  | inr e ↦
      rw (is_last_lem v w, e)
        (more_bytes last_signed (suc n) v (next_value v) (next_value-restores v w) (
          output_sleb128-Encoded n (next_value v) (next_value-lt v w)
            (next_value-InGroups n v w h)))
]
