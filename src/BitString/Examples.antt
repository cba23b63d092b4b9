-- ===== src/BitString/Examples.antt =====
-- A string of 70 bits, and the theorems about src/MaoUtil.h at it.
use mao.Prelude.{
  ℕ, suc, ◌-◌, ◌*◌, ◌/◌, ◌%◌, ◌^◌, ◌<◌, ◌≡◌, refl, ◌↔◌, Bool, true, not, ◌&&◌, ◌||◌, Option, some,
  none, [], ◌∷◌, arith, ◌==◌, Bool-cases, inl, inr,
}
use mao.Prelude.Bits.{bit_high, bit-zero}
use mao.BitString.{
  BitString, get, union, intersect, minus, complement, equals, is_undef, set_undef, next_set_bit,
  scan_words, scan_word, num_of_bits_set,
}
use mao.BitString.Members.{member, IsValid, get-member}
use mao.BitString.Algebra.{Yields, set_operations, equals_lem}
use mao.BitString.Search.{IsNextBelow, next_set_bit-IsNextBelow}
use mao.BitString.Count.{count_below, num_of_bits_set-count}
use mao.BitString.Undef.{is_undef_iff, complement-fails}

-- 70 bits: those of `w`, and bit 65.
abbrev two_words : ℕ → BitString
two_words w = record { word = w ∷ 2 ∷ []; number_of_bits = 70 }

two_words-IsValid : (w : ℕ) → w < 2 ^ 64 → IsValid (two_words w)
two_words-IsValid w h = record {
  positive = omega arith;
  size = refl;
  words = (h, (omega arith, tt));
  unused = λ i le. elim (Bool-cases (i / 64 == 1)) [
    | inl e ↦
        let second : i / 64 ≡ 1 = ground arith in
        rw second (bit_high 2 (i % 64) 2 (omega arith) (omega arith))
    | inr e ↦
        let above : i / 64 ≡ suc (suc (i / 64 - 2)) = ground arith in rw above (bit-zero (i % 64))
  ];
}

get-member_example : get 65 (two_words 5) ≡ some (member (two_words 5) 65)
get-member_example = get-member (two_words 5) 65 (omega arith)

set_operations_example :
    Yields
      (union (two_words 5) (two_words 3))
      70
      (λ i. member (two_words 5) i || member (two_words 3) i)
    × Yields
        (intersect (two_words 5) (two_words 3))
        70
        (λ i. member (two_words 5) i && member (two_words 3) i)
    × Yields
        (minus (two_words 5) (two_words 3))
        70
        (λ i. member (two_words 5) i && not (member (two_words 3) i))
set_operations_example =
    set_operations (two_words 5) (two_words 3) (two_words-IsValid 5 (omega arith))
      (two_words-IsValid 3 (omega arith)) refl

equals_lem_example :
    (r : Bool) × (equals (two_words 5) (two_words 3) ≡ some r)
    × ((r ≡ true) ↔ ((i : ℕ) → member (two_words 5) i ≡ member (two_words 3) i))
equals_lem_example =
    equals_lem (two_words 5) (two_words 3) (two_words-IsValid 5 (omega arith))
      (two_words-IsValid 3 (omega arith)) refl

found : next_set_bit 3 (two_words 5) ≡ some (some 65)
unfolding next_set_bit scan_words scan_word
found = refl

next_set_bit-IsNextBelow_example :
    (r : Option ℕ) × (next_set_bit 3 (two_words 5) ≡ some r)
    × IsNextBelow (member (two_words 5)) 70 3 r
next_set_bit-IsNextBelow_example =
    next_set_bit-IsNextBelow (two_words 5) 3 (two_words-IsValid 5 (omega arith)) (omega arith)

-- After `SetUndef` there is a member at the width.
at_width : next_set_bit 70 (set_undef (two_words 5)) ≡ some (some 70)
unfolding next_set_bit scan_words scan_word set_undef
at_width = refl

num_of_bits_set-count_example :
    num_of_bits_set (two_words 5) ≡ some (count_below (member (two_words 5)) 70)
num_of_bits_set-count_example =
    num_of_bits_set-count (two_words 5) (two_words-IsValid 5 (omega arith))

is_undef_iff_example :
    (is_undef (set_undef (two_words 5)) ≡ true)
    × ((is_undef (two_words 5) ≡ true) ↔ ((i : ℕ) → i < 2 * 64 → member (two_words 5) i ≡ true))
is_undef_iff_example = is_undef_iff (two_words 5) (two_words-IsValid 5 (omega arith)).words

complement-fails_example : complement (two_words 5) ≡ none
complement-fails_example = complement-fails (two_words 5)
