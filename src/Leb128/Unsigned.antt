-- ===== src/Leb128/Unsigned.antt =====
-- The `.uleb128` values (src/read.c): `output_uleb128` and `sizeof_uleb128`.
use native.Mathlib.Nat.{pow-suc}
use mao.Prelude.{ℕ, zero, suc, ◌/◌, ◌^◌, ◌<◌, ◌≡◌, true, inl, inr, arith, ◌==◌, Bool-cases}
use mao.Leb128.{sizeof_uleb128_loop, output_uleb128}
use mao.Leb128.Encoding.{Encoded, more_bytes, last_byte, last_unsigned}

-- With fuel for the groups of `v`, the loops end, and the bytes are an encoding of `v`.
pub output_uleb128-Encoded :
    (n v : ℕ)
    → v < 2 ^ 64
    → v < 128 ^ suc n
    → Encoded last_unsigned
        (suc n)
        v
        (output_uleb128 (suc n) v)
        (λ s. sizeof_uleb128_loop (suc n) s v)
unfolding output_uleb128 sizeof_uleb128_loop last_unsigned
output_uleb128-Encoded zero v w h =
    let e : (v / 128 == 0) ≡ true = ground arith in rw e (last_byte last_unsigned 0 v (omega arith))
output_uleb128-Encoded (suc n) v w h = elim (Bool-cases (v / 128 == 0)) [
  | inl e ↦ rw e (last_byte last_unsigned (suc n) v (ground arith))
  | inr e ↦ rw e (
      more_bytes last_unsigned (suc n) v (v / 128) (omega arith)
        (output_uleb128-Encoded n (v / 128) (omega arith) (omega (arith, pow-suc 128 (suc n)))))
]
