-- ===== src/Leb128/Big/Digits.antt =====
-- The number that the littlenums of a bignum stand for (src/read.c), and the loop of
-- `output_big_uleb128` that strips zeros.
use mao.Prelude.{
  ℕ, zero, suc, ◌+◌, ◌*◌, ◌^◌, ◌≤◌, ◌<◌, ◌≡◌, refl, sym, ◌∙◌, ap, inl, inr, List, [], ◌∷◌, arith,
  length, get_or, ◌==◌, Bool-cases, All,
}
use mao.Prelude.Lists.{take}
use mao.Leb128.Big.{stripped_size}

-- The number that littlenums stand for.
unfoldable pub big_value : List ℕ → ℕ
big_value [] = 0
big_value (x ∷ xs) = x + 2 ^ 16 * big_value xs

abbrev pub IsLittlenum : ℕ → Type 0
IsLittlenum x = x < 2 ^ 16

pub no_littlenums : (xs : List ℕ) → length xs ≡ 0 → big_value xs ≡ 0
unfolding big_value
no_littlenums [] e = refl
no_littlenums (x ∷ xs) e = absurd (omega arith)

take_zero :
    (n : ℕ) (bignum : List ℕ)
    → get_or bignum n 0 ≡ 0
    → big_value (take (suc n) bignum) ≡ big_value (take n bignum)
unfolding big_value
take_zero zero [] e = refl
take_zero zero (x ∷ xs) e = omega arith
take_zero (suc n) [] e = refl
take_zero (suc n) (x ∷ xs) e = omega (arith, take_zero n xs e)

-- Stripping the zeros at the top leaves the number as it is.
pub big_value-stripped :
    (n : ℕ) (bignum : List ℕ)
    → big_value (take (stripped_size n bignum) bignum) ≡ big_value (take n bignum)
unfolding stripped_size
big_value-stripped zero bignum = refl
big_value-stripped (suc n) bignum = elim (Bool-cases (get_or bignum n 0 == 0)) [
  | inl e ↦ rw e (big_value-stripped n bignum ∙ sym (take_zero n bignum (ground arith)))
  | inr e ↦ rw e refl
]

pub take_all : (bignum : List ℕ) → take (length bignum) bignum ≡ bignum
take_all [] = refl
take_all (x ∷ xs) = ap (λ (ys : List ℕ). x ∷ ys) (take_all xs)

pub length-take : (n : ℕ) (xs : List ℕ) → length (take n xs) ≤ n
length-take zero xs = omega arith
length-take (suc n) [] = omega arith
length-take (suc n) (x ∷ xs) = omega (arith, length-take n xs)

pub All-take : (n : ℕ) (xs : List ℕ) → All IsLittlenum xs → All IsLittlenum (take n xs)
All-take zero xs a = tt
All-take (suc n) [] a = tt
All-take (suc n) (x ∷ xs) a = (a.0, All-take n xs a.1)
