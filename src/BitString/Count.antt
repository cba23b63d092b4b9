-- ===== src/BitString/Count.antt =====
-- `NumOfBitsSet` of src/MaoUtil.h counts the members.
use mao.Prelude.{
  ℕ, zero, suc, ◌+◌, ◌-◌, ◌*◌, ◌/◌, ◌%◌, ◌^◌, ◌≤◌, ◌<◌, ◌≡◌, refl, ap, bit_and, inl, inr, Bool,
  true, false, some, List, [], ◌∷◌, arith, ◌==◌, if◌then◌else◌, Bool-cases, length, get_or, All,
}
use mao.Prelude.Bits.{bit, bit_and-le, popcount, popcount-zero, popcount-clear_lowest}
use mao.BitString.{BitString, count_word, count_words, num_of_bits_set}
use mao.BitString.Members.{member, IsWord, IsValid}

-- How many numbers below `n` pass `f`.
unfoldable pub count_below : (ℕ → Bool) → ℕ → ℕ
count_below f zero = 0
count_below f (suc n) = (if f n then 1 else 0) + count_below f n

count_below_ext :
    (f g : ℕ → Bool) (n : ℕ) → ((i : ℕ) → i < n → f i ≡ g i) → count_below f n ≡ count_below g n
unfolding count_below
count_below_ext f g zero h = refl
count_below_ext f g (suc n) h =
    rw (h n (omega arith), count_below_ext f g n (λ i lt. h i (omega arith)))

count_below-suc :
    (f : ℕ → Bool) (n : ℕ)
    → count_below f (suc n) ≡ (if f 0 then 1 else 0) + count_below (λ i. f (suc i)) n
unfolding count_below
count_below-suc f zero = refl
count_below-suc f (suc n) = omega (arith, count_below-suc f n)

count_below-add :
    (f : ℕ → Bool) (n m k : ℕ)
    → n + m ≡ k
    → count_below f k ≡ count_below f n + count_below (λ i. f (n + i)) m
unfolding count_below
count_below-add f n zero k e = let e' : n ≡ k = omega arith in rw e' (omega arith)
count_below-add f n (suc m) zero e = absurd (omega arith)
count_below-add f n (suc m) (suc k) e =
    let e' : n + m ≡ k = omega arith in rw e' (omega (arith, count_below-add f n m k e'))

popcount-count_below : (n w : ℕ) → popcount n w ≡ count_below (λ i. bit i w) n
unfolding popcount count_below bit
popcount-count_below zero w = refl
popcount-count_below (suc n) w =
    rw (count_below-suc (λ i. bit i w) n) (ground (arith, popcount-count_below n (w / 2)))

popcount-le : (n w : ℕ) → popcount n w ≤ n
unfolding popcount
popcount-le zero w = omega arith
popcount-le (suc n) w = omega (arith, popcount-le n (w / 2))

count_word-popcount :
    (fuel v c : ℕ)
    → v < 2 ^ 64
    → popcount 64 v < fuel
    → count_word fuel v c ≡ some (c + popcount 64 v)
unfolding count_word
count_word-popcount zero v c h enough = absurd (omega arith)
count_word-popcount (suc fuel) v c h enough = elim (Bool-cases (v == 0)) [
  | inl done ↦
      let e : v ≡ 0 = ground arith in rw (e, count_word) (ap some (omega (arith, popcount-zero 64)))
  | inr more ↦
      let less : popcount 64 (bit_and v (v - 1)) + 1 ≡ popcount 64 v =
        popcount-clear_lowest 64 v h (ground arith) in
      rw
        (
          more,
          count_word-popcount fuel (bit_and v (v - 1)) (c + 1)
              (omega (arith, bit_and-le 64 v (v - 1) h)) (omega arith),
        )
        (ap some (omega arith))
]

abbrev bit_of : List ℕ → ℕ → Bool
bit_of ws i = bit (i % 64) (get_or ws (i / 64) 0)

module _ (w : ℕ) (ws : List ℕ) where
  bit_of-low : (i : ℕ) → i < 64 → bit_of (w ∷ ws) i ≡ bit i w
  bit_of-low i lt =
      let e : i / 64 ≡ 0 = omega arith in let e' : i % 64 ≡ i = omega arith in rw (e, e')

  bit_of-high : (i : ℕ) → bit_of (w ∷ ws) (64 + i) ≡ bit_of ws i
  bit_of-high i =
      let e : (64 + i) / 64 ≡ suc (i / 64) = omega arith in
      let e' : (64 + i) % 64 ≡ i % 64 = omega arith in rw (e, e')

-- No number passes, so none is counted.
pub count_below-none :
    (f : ℕ → Bool) (n : ℕ) → ((i : ℕ) → i < n → f i ≡ false) → count_below f n ≡ 0
unfolding count_below
count_below-none f zero h = refl
count_below-none f (suc n) h =
    rw (h n (omega arith), count_below-none f n (λ i lt. h i (omega arith)))

count_words-lem :
    (ws : List ℕ) (c : ℕ)
    → All IsWord ws
    → count_words ws c ≡ some (c + count_below (bit_of ws) (length ws * 64))
unfolding count_words
count_words-lem [] c h = ap some (unfold count_below in omega arith)
count_words-lem (w ∷ ws) c h =
    rw
      (
        count_word-popcount 65 w c h.0 (omega (arith, popcount-le 64 w)),
        count_words-lem ws (c + popcount 64 w) h.1,
        count_below-add (bit_of (w ∷ ws)) 64 (length ws * 64) (suc (length ws) * 64) (omega arith),
        popcount-count_below,
        count_below_ext (λ i. bit_of (w ∷ ws) i) (λ i. bit i w) 64 (bit_of-low w ws),
        count_below_ext (λ i. bit_of (w ∷ ws) (64 + i)) (bit_of ws) (length ws * 64)
            (λ i _. bit_of-high w ws i),
      )
      (ap some (omega arith))

-- On a valid string `NumOfBitsSet` ends within its fuel of 65 rounds a word, and returns how many
-- numbers below `number_of_bits_` are members.
pub num_of_bits_set-count :
    (b : BitString) → IsValid b → num_of_bits_set b ≡ some (count_below (member b) b.number_of_bits)
unfolding num_of_bits_set
num_of_bits_set-count b v =
    let width = b.number_of_bits in
    let spare = length b.word * 64 - width in
    rw
      (
        count_words-lem b.word 0 v.words,
        count_below-add (member b) width spare (length b.word * 64)
            (omega (arith, v.size, v.positive)),
        count_below-none (λ i. member b (width + i)) spare
            (λ i _. v.unused (width + i) (omega arith)),
      )
      (ap some (omega arith))

pub count_below-le : (f : ℕ → Bool) (n : ℕ) → count_below f n ≤ n
unfolding count_below
count_below-le f zero = omega arith
count_below-le f (suc n) = ground (arith, count_below-le f n)

-- A larger set has at least as many members.
pub count_below_mono :
    (f g : ℕ → Bool) (n : ℕ)
    → ((i : ℕ) → f i ≡ true → g i ≡ true)
    → count_below f n ≤ count_below g n
unfolding count_below
count_below_mono f g zero h = omega arith
count_below_mono f g (suc n) h = ground (arith, h n, count_below_mono f g n h)

-- A larger set with no more members is the same set.
pub count_below_tight :
    (f g : ℕ → Bool) (n : ℕ)
    → ((i : ℕ) → f i ≡ true → g i ≡ true)
    → count_below g n ≤ count_below f n
    → (i : ℕ) → i < n
    → f i ≡ g i
unfolding count_below
count_below_tight f g zero h le i lt = absurd (omega arith)
count_below_tight f g (suc n) h le i lt = elim (Bool-cases (i == n)) [
  | inl e ↦
      let same : i ≡ n = ground arith in rw same (ground (arith, h n, count_below_mono f g n h))
  | inr e ↦
      count_below_tight f g n h (ground (arith, h n, count_below_mono f g n h)) i (ground arith)
]
