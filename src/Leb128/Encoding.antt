-- ===== src/Leb128/Encoding.antt =====
-- The two LEB128 formats (src/read.c): what their readers do with a byte that is followed by others
-- and with the last one.
use mao.Prelude.{
  ℕ, suc, ◌+◌, ◌-◌, ◌*◌, ◌%◌, ◌^◌, ◌≤◌, ◌<◌, ◌≡◌, refl, ◌∙◌, ap, bit_and, bit_or, true, false,
  Option, none, some, List, [], ◌∷◌, ◌++◌, arith, length, ltb, lt→ltb, ◌==◌, if◌then◌else◌,
}
use mao.Prelude.Checked.{◌>>=◌}
use mao.Prelude.Bits.{bit_and-pow, bit}
use mao.Prelude.Masks.{bit_and-mask, bit_or_above}

-- The standard's decoder: seven bits a byte, lowest first, up to the first byte without its high bit,
-- whose value `last` gives.
unfoldable pub read_groups : (ℕ → ℕ) → List ℕ → Option (ℕ × List ℕ)
read_groups last [] = none
read_groups last (b ∷ bs) =
    let rest = read_groups last bs >>= λ (v, r). some ((b % 128 + 128 * v) % 2 ^ 64, r) in
    if ltb b 128 then some (last b, bs) else rest

-- The last byte of an unsigned number, and of a signed one, whose bit 6 is copied into all higher bits.
unfoldable pub last_unsigned : ℕ → ℕ
last_unsigned b = b

unfoldable pub last_signed : ℕ → ℕ
last_signed b = if ltb b 64 then b else b + (2 ^ 64 - 128)

-- `output` is an encoding of `v` in `limit` bytes at most, and `size` counts its bytes.
pub record Encoded (last : ℕ → ℕ) (limit v : ℕ) (output : Option (List ℕ)) (size : ℕ → Option ℕ)
    : Type 0 where
  pub bytes : List ℕ
  pub output_is : output ≡ some bytes
  pub size_is : (s : ℕ) → size s ≡ some (s + length bytes)
  pub read_back : (rest : List ℕ) → read_groups last (bytes ++ rest) ≡ some (v, rest)
  pub short : length bytes ≤ limit

-- `& 0x7f` keeps the remainder by 128.
pub bit_and_0x7f : (a : ℕ) → bit_and a 0x7f ≡ a % 128
bit_and_0x7f a = bit_and-mask 7 a

-- `| 0x80` on seven bits adds 128.
pub bit_or_0x80 : (a : ℕ) → bit_or (a % 128) 0x80 ≡ a % 128 + 128
bit_or_0x80 a = bit_or_above 7 (a % 128) (omega arith)

-- `& 0x40` tests bit 6 of seven bits.
pub bit_and_0x40 : (a : ℕ) → a < 128 → (bit_and a 0x40 == 0) ≡ ltb a 64
unfolding bit
bit_and_0x40 a h = ground (arith, bit_and-pow 6 a)

-- A byte in front.
pub more_bytes :
    (last : ℕ → ℕ) (limit v w : ℕ) {output : Option (List ℕ)} {size : ℕ → Option ℕ}
    → (v % 128 + 128 * w) % 2 ^ 64 ≡ v
    → Encoded last limit w output size
    → Encoded last
        (suc limit)
        v
        (output >>= λ bytes. some (bit_or (bit_and v 0x7f) 0x80 ∷ bytes))
        (λ s. size (s + 1))
unfolding read_groups
more_bytes last limit v w e r = record {
  bytes = (v % 128 + 128) ∷ r.bytes;
  output_is = rw (r.output_is, bit_and_0x7f v, bit_or_0x80 v) refl;
  size_is = λ s. r.size_is (s + 1) ∙ ap (λ (n : ℕ). some n) (omega arith);
  read_back = λ rest.
      (let high : ltb (v % 128 + 128) 128 ≡ false = ground arith in
        let low : (v % 128 + 128) % 128 ≡ v % 128 = omega arith in
        rw (high, r.read_back rest, low, e) refl);
  short = omega (arith, r.short);
}

-- The last byte.
pub last_byte :
    (last : ℕ → ℕ) (limit v : ℕ)
    → last (v % 128) ≡ v
    → Encoded last (suc limit) v (some (bit_and v 0x7f ∷ [])) (λ s. some (s + 1))
unfolding read_groups
last_byte last limit v e = record {
  bytes = v % 128 ∷ [];
  output_is = rw (bit_and_0x7f v) refl;
  size_is = λ s. refl;
  read_back =
      λ rest. (let low : ltb (v % 128) 128 ≡ true = lt→ltb _ _ (omega arith) in rw (low, e) refl);
  short = omega arith;
}
