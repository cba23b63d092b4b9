-- ===== src/BitString.antt =====
-- src/MaoUtil.h: class `BitString`, a set of small numbers kept in 64-bit words.
-- `number_of_words_` is the length of `word`: every constructor allocates exactly that many.
-- Indices are `int` in the source; those below zero fail its first assertion and have no
-- counterpart here.
pub mod Members
pub mod Algebra
pub mod Search
pub mod Count
pub mod Undef
mod Examples
use mao.Prelude.Lists
use mao.Prelude.{
  ℕ, zero, suc, ◌+◌, ◌-◌, ◌*◌, ◌/◌, ◌%◌, ◌^◌, bit_and, bit_or, Bool, true, false, not, ◌&&◌, ◌||◌,
  Option, none, some, List, [], ◌∷◌, map, ltb, leb, ◌==◌, if◌then◌else◌, length, get_or, replicate,
}
use mao.Prelude.Checked.{Checked, ◌>>=◌, ◌>>◌, mao_assert}

pub record BitString : Type 0 where
  pub word : List ℕ
  pub number_of_bits : ℕ

-- `-1ULL`
abbrev pub all_ones : ℕ
all_ones = 2 ^ 64 - 1

abbrev pub word_at : BitString → ℕ → ℕ
word_at b i = get_or b.word i 0

-- `InitObj`, the body of the constructors without words
unfoldable pub init_obj : ℕ → Checked BitString
init_obj n = do
  mao_assert (ltb 0 n)
  some (record { word = replicate ((n - 1) / 64 + 1) 0; number_of_bits = n })

-- `Set`
unfoldable pub set : ℕ → BitString → Checked BitString
set i b = do
  mao_assert (ltb i b.number_of_bits)
  some (record b { word = Lists.set b.word (i / 64) (bit_or (word_at b (i / 64)) (2 ^ (i % 64))) })

-- `Clear`; `~(1ULL << k)` is `all_ones - 2 ^ k`.
unfoldable pub clear : ℕ → BitString → Checked BitString
clear i b = do
  mao_assert (ltb i b.number_of_bits)
  some (record b {
    word = Lists.set b.word (i / 64) (bit_and (word_at b (i / 64)) (all_ones - 2 ^ (i % 64)));
  })

-- `Get`
unfoldable pub get : ℕ → BitString → Checked Bool
get i b = do
  mao_assert (ltb i b.number_of_bits)
  some (not (bit_and (word_at b (i / 64)) (2 ^ (i % 64)) == 0))

-- `GetWord`
unfoldable pub get_word : ℕ → BitString → Checked ℕ
get_word i b = do mao_assert (ltb i (length b.word)); some (word_at b i)

-- The loops `bs_new.word_[i] = f(word_[i], b.word_[i])`. Both arrays have the same length where the
-- numbers of bits agree; a missing word of the second one reads as 0 here.
unfoldable pub zip_words : (ℕ → ℕ → ℕ) → List ℕ → List ℕ → List ℕ
zip_words f [] ys = []
zip_words f (x ∷ xs) [] = f x 0 ∷ zip_words f xs []
zip_words f (x ∷ xs) (y ∷ ys) = f x y ∷ zip_words f xs ys

-- The assertion, the fresh object and the loop that `|`, `&` and `-` share.
unfoldable pub combine : (ℕ → ℕ → ℕ) → BitString → BitString → Checked BitString
combine f a b = do
  mao_assert (b.number_of_bits == a.number_of_bits)
  bs_new ← init_obj a.number_of_bits
  some (record bs_new { word = zip_words f a.word b.word })

-- `operator |`
unfoldable pub union : BitString → BitString → Checked BitString
union = combine bit_or

-- `operator &`
unfoldable pub intersect : BitString → BitString → Checked BitString
intersect = combine bit_and

-- `operator -`
unfoldable pub minus : BitString → BitString → Checked BitString
minus = combine (λ x y. bit_and x (all_ones - y))

-- `ClearUnusedBits`: the loop from `i`, with `left` rounds to go
unfoldable pub clear_unused_from : ℕ → ℕ → BitString → Checked BitString
clear_unused_from zero i b = some b
clear_unused_from (suc left) i b = do
  b' ← clear (b.number_of_bits + i) b
  clear_unused_from left (i + 1) b'

unfoldable pub clear_unused_bits : BitString → Checked BitString
clear_unused_bits b = clear_unused_from (64 - b.number_of_bits % 64) 0 b

-- `operator ~`
unfoldable pub complement : BitString → Checked BitString
complement b = do
  bs_new ← init_obj b.number_of_bits
  clear_unused_bits (record bs_new { word = map (λ w. all_ones - w) b.word })

unfoldable pub words_eq : List ℕ → List ℕ → Bool
words_eq [] ys = true
words_eq (x ∷ xs) [] = (x == 0) && words_eq xs []
words_eq (x ∷ xs) (y ∷ ys) = (x == y) && words_eq xs ys

-- `operator ==`
unfoldable pub equals : BitString → BitString → Checked Bool
unfolding words_eq
equals a b = do mao_assert (b.number_of_bits == a.number_of_bits); some (words_eq a.word b.word)

unfoldable pub all_words : (ℕ → Bool) → List ℕ → Bool
all_words p [] = true
all_words p (w ∷ ws) = p w && all_words p ws

-- `IsNull`
unfoldable pub is_null : BitString → Bool
unfolding all_words
is_null b = all_words (λ w. w == 0) b.word

-- `IsNonNull`
unfoldable pub is_non_null : BitString → Bool
unfolding all_words
is_non_null b = not (all_words (λ w. w == 0) b.word)

-- `IsUndef`
unfoldable pub is_undef : BitString → Bool
unfolding all_words
is_undef b = all_words (λ w. w == all_ones) b.word

-- `SetUndef`
unfoldable pub set_undef : BitString → BitString
set_undef b = record b { word = map (λ _. all_ones) b.word }

-- `NextSetBit`: the inner loop over one word, from `bit_pos` with `left` rounds to 64
unfoldable pub scan_word : ℕ → ℕ → ℕ → Option ℕ
scan_word zero bit_pos w = none
scan_word (suc left) bit_pos w =
    let rest = scan_word left (bit_pos + 1) w in
    if w == 0 then none else if not (bit_and w (2 ^ bit_pos) == 0) then some bit_pos else rest

-- The outer loop over the words from `word_pos` on
unfoldable pub scan_words : List ℕ → ℕ → ℕ → Option ℕ
unfolding scan_word
scan_words [] word_pos bit_pos = none
scan_words (w ∷ ws) word_pos bit_pos =
    let rest = scan_words ws (word_pos + 1) 0 in
    elim (scan_word (64 - bit_pos) bit_pos w) [ some k ↦ some (word_pos * 64 + k) | none ↦ rest ]

-- `NextSetBit`; `none` inside is the result -1.
unfoldable pub next_set_bit : ℕ → BitString → Checked (Option ℕ)
unfolding scan_words
next_set_bit from_index b = do
  mao_assert (leb from_index b.number_of_bits)
  some (scan_words (Lists.drop (from_index / 64) b.word) (from_index / 64) (from_index % 64))

-- `NumOfBitsSet`: the loop over one word; `none` is out of fuel.
unfoldable pub count_word : ℕ → ℕ → ℕ → Option ℕ
count_word zero v c = none
count_word (suc fuel) v c =
    let rest = count_word fuel (bit_and v (v - 1)) (c + 1) in if v == 0 then some c else rest

unfoldable pub count_words : List ℕ → ℕ → Option ℕ
count_words [] c = some c
count_words (w ∷ ws) c = do c' ← count_word 65 w c; count_words ws c'

-- `NumOfBitsSet`
unfoldable pub num_of_bits_set : BitString → Option ℕ
num_of_bits_set b = count_words b.word 0
