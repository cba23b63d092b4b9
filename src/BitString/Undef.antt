-- ===== src/BitString/Undef.antt =====
-- The undefined value of `BitString` (src/MaoUtil.h), and `operator ~`.
use mathlib.Core.List.{map}
use mao.Prelude.{
  ℕ, zero, suc, ◌+◌, ◌*◌, ◌/◌, ◌%◌, ◌<◌, ◌≡◌, ◌≢◌, refl, ◌∙◌, inl, inr, Bool, true, false, none,
  List, [], ◌∷◌, arith, ◌==◌, Bool-cases, length, get_or, ltb, ==_iff, sym, All, ◌↔◌,
}
use mao.Prelude.Bits.{bit, bit-zero, bit-complement, bit_ext}
use mao.BitString.{
  BitString, all_ones, all_words, is_undef, set_undef, complement, clear_unused_bits,
  clear_unused_from, clear, init_obj,
}
use mao.BitString.Members.{member, IsValid, IsWord}

all_words-get_or :
    (p : ℕ → Bool) (ws : List ℕ) (i : ℕ)
    → i < length ws
    → all_words p ws ≡ true
    → p (get_or ws i 0) ≡ true
unfolding all_words
all_words-get_or p [] i lt h = absurd (omega arith)
all_words-get_or p (w ∷ ws) zero lt h = ground arith
all_words-get_or p (w ∷ ws) (suc i) lt h = all_words-get_or p ws i (omega arith) (ground arith)

all_words-map : (ws : List ℕ) → all_words (λ w. w == all_ones) (map (λ _. all_ones) ws) ≡ true
unfolding all_words
all_words-map [] = refl
all_words-map (w ∷ ws) = all_words-map ws

bit-all_ones : (k : ℕ) → k < 64 → bit k all_ones ≡ true
bit-all_ones k lt = bit-complement 64 k 0 (omega arith) lt ∙ rw bit-zero

-- All bits of the words are set.
abbrev Full : List ℕ → Type 0
Full ws = (i : ℕ) → i < length ws * 64 → bit (i % 64) (get_or ws (i / 64) 0) ≡ true

all_words-Full : (ws : List ℕ) → all_words (λ w. w == all_ones) ws ≡ true → Full ws
all_words-Full ws h i lt =
    let word : get_or ws (i / 64) 0 ≡ all_ones =
      (==_iff _ _).0 (all_words-get_or (λ w. w == all_ones) ws (i / 64) (omega arith) h) in
    rw word (bit-all_ones (i % 64) (omega arith))

Full-head : (w : ℕ) (ws : List ℕ) → Full (w ∷ ws) → (k : ℕ) → k < 64 → bit k w ≡ true
Full-head w ws h k lt =
    let e : k % 64 ≡ k = omega arith in
    let e' : k / 64 ≡ 0 = omega arith in rw (e, e') at (h k (omega arith))

Full-tail : (w : ℕ) (ws : List ℕ) → Full (w ∷ ws) → Full ws
Full-tail w ws h i lt =
    let e : (64 + i) % 64 ≡ i % 64 = omega arith in
    let e' : (64 + i) / 64 ≡ suc (i / 64) = omega arith in rw (e, e') at (h (64 + i) (omega arith))

Full-all_words : (ws : List ℕ) → All IsWord ws → Full ws → all_words (λ w. w == all_ones) ws ≡ true
unfolding all_words
Full-all_words [] a h = refl
Full-all_words (w ∷ ws) a h =
    let e : w ≡ all_ones =
      bit_ext 64 w all_ones a.0 (omega arith)
        (λ k lt. Full-head w ws h k lt ∙ sym (bit-all_ones k lt)) in
    let here : (w == all_ones) ≡ true = ground (arith, e) in
    rw here (Full-all_words ws a.1 (Full-tail w ws h))

-- For a string of 64-bit words: `IsUndef` holds after `SetUndef`, and it holds of the string itself exactly
-- where all bits of all its words are set.
pub is_undef_iff :
    (b : BitString)
    → All IsWord b.word
    → (is_undef (set_undef b) ≡ true)
      × ((is_undef b ≡ true) ↔ ((i : ℕ) → i < length b.word * 64 → member b i ≡ true))
unfolding is_undef set_undef
is_undef_iff b words =
    (all_words-map b.word, (λ h. all_words-Full b.word h, λ h. Full-all_words b.word words h))

-- A valid string of a width that is no multiple of 64 is not undefined.
pub is_undef-valid : (b : BitString) → IsValid b → b.number_of_bits % 64 ≢ 0 → is_undef b ≡ false
is_undef-valid b v partial = elim (Bool-cases (is_undef b)) [
  | inl full ↦
      let n = b.number_of_bits in
      let bits = (is_undef_iff b v.words).1.0 full in
      let set_bit : member b n ≡ true = bits n (omega (arith, v.size, v.positive)) in
      let clear_bit : member b n ≡ false = v.unused n (omega arith) in
      let both : true ≡ false = sym set_bit ∙ clear_bit in cc both
  | inr e ↦ e
]

clear_unused_from-fails :
    (left i : ℕ) (b : BitString) → 0 < left → clear_unused_from left i b ≡ none
unfolding clear_unused_from clear
clear_unused_from-fails zero i b h = absurd (omega arith)
clear_unused_from-fails (suc left) i b h =
    let e : ltb (b.number_of_bits + i) b.number_of_bits ≡ false = ground arith in rw e

-- The first `Clear` of `ClearUnusedBits` is at `number_of_bits_` itself, and `Clear` asserts that
-- its index is below `number_of_bits_`: on every string `operator ~` ends in a failed assertion.
pub complement-fails : (b : BitString) → complement b ≡ none
unfolding complement clear_unused_bits init_obj
complement-fails b = elim (Bool-cases (ltb 0 b.number_of_bits)) [
  | inl e ↦ rw e (clear_unused_from-fails _ 0 _ (omega arith))
  | inr e ↦ rw e
]
