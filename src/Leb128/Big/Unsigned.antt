-- ===== src/Leb128/Big/Unsigned.antt =====
-- The bytes of `output_big_uleb128` (src/read.c) are those of the number that the bignum stands for.
use native.Mathlib.Nat.{pow-le-pow_right, mul-le-mul_right}
use mao.Prelude.{
  ℕ, zero, suc, ◌+◌, ◌-◌, ◌*◌, ◌/◌, ◌%◌, ◌^◌, ◌≤◌, ◌<◌, ◌≡◌, refl, ◌∙◌, ap, inl, inr, ◌⊎◌, true,
  false, not, ◌||◌, Option, none, some, List, [], ◌∷◌, ◌++◌, arith, length, ltb, lt→ltb, ◌==◌,
  if◌then◌else◌, Bool-cases, All,
}
use mao.Prelude.Checked.{◌>>=◌}
use mao.Prelude.Lists.{take}
use mao.Prelude.Masks.{bit_or_shifted, pow-add}
use mao.Leb128.Encoding.{bit_and_0x7f, bit_or_0x80}
use mao.Leb128.Big.Digits.{
  big_value, IsLittlenum, no_littlenums, big_value-stripped, take_all, length-take, All-take,
}
use mao.Leb128.Big.{stripped_size, load, big_uleb128_loop, big_rounds, output_big_uleb128}

-- The standard's decoder of unsigned numbers of any size.
unfoldable pub read_big_uleb128 : List ℕ → Option (ℕ × List ℕ)
read_big_uleb128 [] = none
read_big_uleb128 (b ∷ bs) =
    let rest = read_big_uleb128 bs >>= λ (v, r). some (b % 128 + 128 * v, r) in
    if ltb b 128 then some (b, bs) else rest

-- What `load` leaves, and the number that is still to be written.
record Loaded (val loaded : ℕ) (bignum : List ℕ) (s : ℕ × ℕ × List ℕ) : Type 0 where
  fits : s.0 < 2 ^ s.1
  same : s.0 + 2 ^ s.1 * big_value s.2 ≡ val + 2 ^ loaded * big_value bignum
  bits : s.1 + 16 * length s.2 ≡ loaded + 16 * length bignum
  enough : (7 ≤ s.1) ⊎ (s.2 ≡ [])
  littlenums : All IsLittlenum s.2

-- The sums of the two steps, with `p` for the power of 2.
load_fits : (val p x : ℕ) → val < p → x < 2 ^ 16 → val + x * p < p * 2 ^ 16
load_fits val p x h l =
    let le : x * p ≤ 65535 * p = mul-le-mul_right p (omega arith) in omega (arith, le)

load_same : (val p x v : ℕ) → val + x * p + p * 2 ^ 16 * v ≡ val + p * (x + 2 ^ 16 * v)
load_same val p x v = grind arith

load-Loaded :
    (val loaded : ℕ) (bignum : List ℕ)
    → val < 2 ^ loaded
    → All IsLittlenum bignum
    → Loaded val loaded bignum (load val loaded bignum)
unfolding load big_value
load-Loaded val loaded [] h a = record {
  fits = h;
  same = refl;
  bits = refl;
  enough = inr refl;
  littlenums = tt;
}
load-Loaded val loaded (x ∷ xs) h a =
    let power : 2 ^ (loaded + 16) ≡ 2 ^ loaded * 2 ^ 16 = pow-add loaded 16 in
    elim (Bool-cases (ltb loaded 7)) [
      | inl e ↦
          rw (e, bit_or_shifted 16 loaded val x a.0 h)
            (record {
              fits = rw power (load_fits val (2 ^ loaded) x h a.0);
              same = rw power (load_same val (2 ^ loaded) x (big_value xs));
              bits = omega arith;
              enough = inl (omega arith);
              littlenums = a.1;
            })
      | inr e ↦ rw e (record {
        fits = h;
        same = refl;
        bits = refl;
        enough = inl (ground arith);
        littlenums = a;
      })
    ]

-- One byte taken from what is loaded.
record Taken (val loaded : ℕ) (bignum : List ℕ) : Type 0 where
  low : val % 128 ≡ (val + 2 ^ loaded * big_value bignum) % 128
  high :
      val / 128 + 2 ^ (loaded - 7) * big_value bignum ≡ (val + 2 ^ loaded * big_value bignum) / 128
  left : val / 128 < 2 ^ (loaded - 7)

regroup : (q v : ℕ) → q * 2 ^ 7 * v ≡ 128 * (q * v)
regroup q v = grind arith

val_left : (val loaded : ℕ) → val < 2 ^ loaded → val / 128 < 2 ^ (loaded - 7)
val_left val loaded h =
    let more : 2 ^ loaded ≤ 2 ^ ((loaded - 7) + 7) = pow-le-pow_right (omega arith) (omega arith) in
    omega (arith, more, pow-add (loaded - 7) 7)

taken :
    (val loaded : ℕ) (bignum : List ℕ)
    → val < 2 ^ loaded
    → (7 ≤ loaded) ⊎ (bignum ≡ [])
    → Taken val loaded bignum
unfolding big_value
taken val loaded bignum h (inl seven) =
    let e : loaded ≡ (loaded - 7) + 7 = omega arith in
    let power : 2 ^ loaded ≡ 2 ^ (loaded - 7) * 2 ^ 7 =
      ap (λ (n : ℕ). 2 ^ n) e ∙ pow-add (loaded - 7) 7 in
    let split : 2 ^ loaded * big_value bignum ≡ 128 * (2 ^ (loaded - 7) * big_value bignum) =
      ap (λ (x : ℕ). x * big_value bignum) power ∙ regroup (2 ^ (loaded - 7)) (big_value bignum) in
    record { low = omega (arith, split); high = omega (arith, split); left = val_left val loaded h }
taken val loaded bignum h (inr none_left) =
    rw none_left (record { low = omega arith; high = omega arith; left = val_left val loaded h })

-- The loop ends with bytes that are read back as `v`.
abbrev Writes : ℕ → ℕ → ℕ → List ℕ → ℕ → Type 0
Writes fuel val loaded bignum v =
    (bytes : List ℕ) × (big_uleb128_loop fuel val loaded bignum ≡ some bytes)
    × ((rest : List ℕ) → read_big_uleb128 (bytes ++ rest) ≡ some (v, rest))

-- One round, before a loop that writes what is left.
round-Writes :
    (fuel val loaded : ℕ) (bignum : List ℕ) (s : ℕ × ℕ × List ℕ)
    → load val loaded bignum ≡ s
    → Loaded val loaded bignum s
    → (ltb 0 (length s.2) || not (s.0 / 128 == 0) ≡ true
        → Writes fuel (s.0 / 128) (s.1 - 7) s.2 (s.0 / 128 + 2 ^ (s.1 - 7) * big_value s.2))
    → Writes (suc fuel) val loaded bignum (val + 2 ^ loaded * big_value bignum)
unfolding big_uleb128_loop read_big_uleb128
round-Writes fuel val loaded bignum s loads r next =
    let t = taken s.0 s.1 s.2 r.fits r.enough in
    elim (Bool-cases (ltb 0 (length s.2) || not (s.0 / 128 == 0))) [
      | inl more ↦
          let (bytes, e, reads) = next more in
          let high_bit : ltb (s.0 % 128 + 128) 128 ≡ false = ground arith in
          let low : (s.0 % 128 + 128) % 128 ≡ s.0 % 128 = omega arith in
          let all : s.0 % 128 + 128 * (s.0 / 128 + 2 ^ (s.1 - 7) * big_value s.2)
              ≡ val + 2 ^ loaded * big_value bignum =
            omega (arith, t.low, t.high, r.same) in
          (
            (s.0 % 128 + 128) ∷ bytes,
            rw (loads, more, e, bit_and_0x7f s.0, bit_or_0x80 s.0) refl,
            λ rest. rw (high_bit, reads rest, low, all) refl,
          )
      | inr e ↦
          let none_left : big_value s.2 ≡ 0 = no_littlenums s.2 (ground arith) in
          let all : s.0 ≡ val + 2 ^ loaded * big_value bignum =
            omega (arith, r.same, ap (λ (v : ℕ). 2 ^ s.1 * v) none_left) in
          let small : s.0 % 128 ≡ s.0 = ground arith in
          (
            s.0 % 128 ∷ [],
            rw (loads, e, bit_and_0x7f s.0) refl,
            λ rest.
                rw (lt→ltb (s.0 % 128) 128 (omega arith))
                  (ap (λ (v : ℕ). some (v, rest)) (small ∙ all)),
          )
    ]

big_uleb128_loop-Writes :
    (n val loaded : ℕ) (bignum : List ℕ)
    → val < 2 ^ loaded
    → All IsLittlenum bignum
    → loaded + 16 * length bignum < 7 * suc n
    → Writes (suc n) val loaded bignum (val + 2 ^ loaded * big_value bignum)
big_uleb128_loop-Writes zero val loaded bignum h a enough =
    let s = load val loaded bignum in
    let r = load-Loaded val loaded bignum h a in
    let few : s.1 - 7 ≡ 0 = omega (arith, r.bits) in
    let small : s.0 / 128 < 1 = rw few at (val_left s.0 s.1 r.fits) in
    round-Writes zero val loaded bignum s refl r (λ more. absurd (ground (arith, r.bits, more)))
big_uleb128_loop-Writes (suc n) val loaded bignum h a enough =
    let s = load val loaded bignum in
    let r = load-Loaded val loaded bignum h a in
    round-Writes (suc n) val loaded bignum s refl r (λ more.
      big_uleb128_loop-Writes n (s.0 / 128) (s.1 - 7) s.2 (val_left s.0 s.1 r.fits) r.littlenums
        (ground (arith, r.bits, r.enough)))

-- On littlenums of 16 bits `output_big_uleb128` ends, and its bytes are read back as the number that the
-- littlenums stand for, whatever follows.
pub read-output_big_uleb128 :
    (bignum : List ℕ)
    → All IsLittlenum bignum
    → (bytes : List ℕ) × (output_big_uleb128 bignum ≡ some bytes)
      × ((rest : List ℕ) → read_big_uleb128 (bytes ++ rest) ≡ some (big_value bignum, rest))
unfolding output_big_uleb128
read-output_big_uleb128 bignum a =
    let size = stripped_size (length bignum) bignum in
    let kept = take size bignum in
    let rounds : big_rounds size ≡ suc (16 * size / 7) = omega arith in
    let value : 0 + 2 ^ 0 * big_value kept ≡ big_value bignum =
      omega (arith, big_value-stripped (length bignum) bignum, ap big_value (take_all bignum)) in
    let (bytes, e, reads) =
      big_uleb128_loop-Writes (16 * size / 7) 0 0 kept (omega arith) (All-take size bignum a)
        (omega (arith, length-take size bignum)) in
    (bytes, rw rounds e, λ rest. reads rest ∙ ap (λ (v : ℕ). some (v, rest)) value)
