-- ===== src/BitString/Algebra.antt =====
-- Union, intersection, difference and equality of `BitString`s (src/MaoUtil.h) are those of the
-- sets of members.
use mao.Prelude.{
  ℕ, zero, suc, ◌+◌, ◌-◌, ◌*◌, ◌/◌, ◌%◌, ◌<◌, ◌≡◌, refl, sym, ◌∙◌, ap, bit_and, bit_or, ◌↔◌, Bool,
  true, false, not, ◌&&◌, ◌||◌, some, List, [], ◌∷◌, arith, length, get_or, All,
}
use mao.Prelude.Bits.{bit, bit-and, bit-or, bit-complement, bit_and-le, bit_or-lt, bit_ext}
use mao.BitString.{
  union, intersect, minus, BitString, all_ones, word_at, init_obj, zip_words, combine, words_eq,
  equals,
}
use mao.Prelude.Checked.{Checked}
use mao.BitString.Members.{member, IsWord, IsValid, word_at-IsWord}

-- What a word operation must do for `combine` to act on members.
pub record IsDigitwise (f : ℕ → ℕ → ℕ) (g : Bool → Bool → Bool) : Type 0 where
  pub none_of_none : g false false ≡ false
  pub zeros : f 0 0 ≡ 0
  pub keeps_words : (x y : ℕ) → IsWord x → IsWord y → IsWord (f x y)
  pub digit : (k x y : ℕ) → k < 64 → IsWord y → bit k (f x y) ≡ g (bit k x) (bit k y)

module _ (f : ℕ → ℕ → ℕ) where
  length-zip_words : (xs ys : List ℕ) → length (zip_words f xs ys) ≡ length xs
  unfolding zip_words
  length-zip_words [] ys = refl
  length-zip_words (x ∷ xs) [] = ap suc (length-zip_words xs [])
  length-zip_words (x ∷ xs) (y ∷ ys) = ap suc (length-zip_words xs ys)

  get_or-zip_words :
      (xs ys : List ℕ) (i : ℕ)
      → f 0 0 ≡ 0
      → length xs ≡ length ys
      → get_or (zip_words f xs ys) i 0 ≡ f (get_or xs i 0) (get_or ys i 0)
  unfolding zip_words
  get_or-zip_words [] [] i z e = sym z
  get_or-zip_words [] (y ∷ ys) i z e = absurd (omega arith)
  get_or-zip_words (x ∷ xs) [] i z e = absurd (omega arith)
  get_or-zip_words (x ∷ xs) (y ∷ ys) zero z e = refl
  get_or-zip_words (x ∷ xs) (y ∷ ys) (suc i) z e = get_or-zip_words xs ys i z (omega arith)

  All-zip_words :
      (xs ys : List ℕ)
      → ((x y : ℕ) → IsWord x → IsWord y → IsWord (f x y))
      → All IsWord xs
      → All IsWord ys
      → All IsWord (zip_words f xs ys)
  unfolding zip_words
  All-zip_words [] ys k hx hy = tt
  All-zip_words (x ∷ xs) [] k hx hy = (k x 0 hx.0 (omega arith), All-zip_words xs [] k hx.1 tt)
  All-zip_words (x ∷ xs) (y ∷ ys) k hx hy = (k x y hx.0 hy.0, All-zip_words xs ys k hx.1 hy.1)

module _ {f : ℕ → ℕ → ℕ} {g : Bool → Bool → Bool} (d : IsDigitwise f g) (a b : BitString)
    (va : IsValid a) (vb : IsValid b) (same : b.number_of_bits ≡ a.number_of_bits) where
  abbrev combined : BitString
  combined = record { word = zip_words f a.word b.word; number_of_bits = a.number_of_bits }

  same_length : length a.word ≡ length b.word
  same_length = omega (arith, va.size, vb.size)

  member-combined : (i : ℕ) → member combined i ≡ g (member a i) (member b i)
  member-combined i = rw (get_or-zip_words f a.word b.word (i / 64) d.zeros same_length) (
      d.digit (i % 64) (word_at a (i / 64)) (word_at b (i / 64)) (omega arith)
        (word_at-IsWord b (i / 64) vb.words))

  -- A digitwise operation on two valid strings of one width returns a valid string of that width,
  -- whose members are given by `g`.
  pub combine_lem :
      (c : BitString) × (combine f a b ≡ some c)
      × IsValid c
      × (c.number_of_bits ≡ a.number_of_bits)
      × ((i : ℕ) → member c i ≡ g (member a i) (member b i))
  unfolding combine init_obj
  combine_lem = (
    combined,
    ground (arith, va.positive),
    record {
      positive = va.positive;
      size = length-zip_words f a.word b.word ∙ va.size;
      words = All-zip_words f a.word b.word d.keeps_words va.words vb.words;
      unused =
          λ i le. rw (member-combined, va.unused i le, vb.unused i (omega arith)) d.none_of_none;
    },
    refl,
    member-combined,
  )

pub or-IsDigitwise : IsDigitwise bit_or ◌||◌
or-IsDigitwise = record {
  none_of_none = refl;
  zeros = refl;
  keeps_words = bit_or-lt 64;
  digit = λ k x y lt h. bit-or k x y;
}

pub and-IsDigitwise : IsDigitwise bit_and ◌&&◌
and-IsDigitwise = record {
  none_of_none = refl;
  zeros = refl;
  keeps_words = λ x y hx hy. omega (arith, bit_and-le 64 x y hx);
  digit = λ k x y lt h. bit-and k x y;
}

pub minus-IsDigitwise : IsDigitwise (λ x y. bit_and x (all_ones - y)) (λ p q. p && not q)
minus-IsDigitwise = record {
  none_of_none = refl;
  zeros = refl;
  keeps_words = λ x y hx hy. omega (arith, bit_and-le 64 x (all_ones - y) hx);
  digit = λ k x y lt h. rw (bit-and, bit-complement 64 k y h lt);
}

-- The two words agree everywhere exactly when the loop of `==` says so.
words_eq→get_or :
    (xs ys : List ℕ) (i : ℕ)
    → length xs ≡ length ys
    → words_eq xs ys ≡ true
    → get_or xs i 0 ≡ get_or ys i 0
unfolding words_eq
words_eq→get_or [] [] i e h = refl
words_eq→get_or [] (y ∷ ys) i e h = absurd (omega arith)
words_eq→get_or (x ∷ xs) [] i e h = absurd (omega arith)
words_eq→get_or (x ∷ xs) (y ∷ ys) zero e h = ground arith
words_eq→get_or (x ∷ xs) (y ∷ ys) (suc i) e h = words_eq→get_or xs ys i (omega arith) (ground arith)

get_or→words_eq :
    (xs ys : List ℕ)
    → ((i : ℕ) → get_or xs i 0 ≡ get_or ys i 0)
    → length xs ≡ length ys
    → words_eq xs ys ≡ true
unfolding words_eq
get_or→words_eq [] ys h e = refl
get_or→words_eq (x ∷ xs) [] h e = absurd (omega arith)
get_or→words_eq (x ∷ xs) (y ∷ ys) h e =
    ground (arith, h 0, get_or→words_eq xs ys (λ i. h (suc i)) (omega arith))

-- Strings with the same members have the same words.
pub words_of_members :
    (a b : BitString)
    → All IsWord a.word
    → All IsWord b.word
    → ((i : ℕ) → member a i ≡ member b i)
    → (j : ℕ) → word_at a j ≡ word_at b j
words_of_members a b ha hb h j =
    bit_ext 64 (word_at a j) (word_at b j) (word_at-IsWord a j ha) (word_at-IsWord b j hb) λ k lt.
      let e : (j * 64 + k) / 64 ≡ j = omega arith in
      let e' : (j * 64 + k) % 64 ≡ k = omega arith in rw (e, e') at (h (j * 64 + k))

-- `==` on valid strings of one width decides whether they have the same members.
pub equals_lem :
    (a b : BitString)
    → IsValid a
    → IsValid b
    → b.number_of_bits ≡ a.number_of_bits
    → (r : Bool) × (equals a b ≡ some r) × ((r ≡ true) ↔ ((i : ℕ) → member a i ≡ member b i))
unfolding equals
equals_lem a b va vb same =
    let sizes : length a.word ≡ length b.word = omega (arith, va.size, vb.size) in
    (
      words_eq a.word b.word,
      ground arith,
      (
        λ h i. ap (bit (i % 64)) (words_eq→get_or a.word b.word (i / 64) sizes h),
        λ h. get_or→words_eq a.word b.word (words_of_members a b va.words vb.words h) sizes,
      ),
    )

-- The run `r` returns a valid string of `n` bits with the members that `f` says.
abbrev pub Yields : Checked BitString → ℕ → (ℕ → Bool) → Type 0
Yields r n f =
    (c : BitString) × (r ≡ some c)
    × IsValid c
    × (c.number_of_bits ≡ n)
    × ((i : ℕ) → member c i ≡ f i)

-- `|`, `&` and `-` on two valid strings of one width pass their assertions and return valid strings
-- of that width: the union, the intersection and the difference of the members.
pub set_operations :
    (a b : BitString)
    → IsValid a
    → IsValid b
    → b.number_of_bits ≡ a.number_of_bits
    → Yields (union a b) a.number_of_bits (λ i. member a i || member b i)
      × Yields (intersect a b) a.number_of_bits (λ i. member a i && member b i)
      × Yields (minus a b) a.number_of_bits (λ i. member a i && not (member b i))
unfolding union intersect minus
set_operations a b va vb same = (
  combine_lem or-IsDigitwise a b va vb same,
  combine_lem and-IsDigitwise a b va vb same,
  combine_lem minus-IsDigitwise a b va vb same,
)
