-- ===== src/BitString/Search.antt =====
-- `NextSetBit` of src/MaoUtil.h finds the least member that is not below its argument.
use mathlib.Core.Option
use mao.Prelude.{
  ℕ, zero, suc, ◌+◌, ◌-◌, ◌*◌, ◌/◌, ◌%◌, ◌≤◌, ◌<◌, ◌≡◌, refl, sym, ◌∙◌, ap, inl, inr, Bool, true,
  false, Option, some, none, List, [], ◌∷◌, arith, ◌==◌, Bool-cases, get_or, ltb,
}
use mao.Prelude.Lists.{drop, get_or-drop}
use mao.Prelude.Bits.{bit, bit-zero, bit_and-pow}
use mao.BitString.{BitString, scan_word, scan_words, next_set_bit}
use mao.BitString.Members.{member, IsValid}

-- `r` is the least number from `from` on that passes `f`, or `none` where no number does.
abbrev IsNext : (ℕ → Bool) → ℕ → Option ℕ → Type 0
IsNext f from none = (i : ℕ) → from ≤ i → f i ≡ false
IsNext f from (some k) = (from ≤ k) × (f k ≡ true) × ((i : ℕ) → from ≤ i → i < k → f i ≡ false)

-- The same within one word.
abbrev InWord : ℕ → ℕ → Option ℕ → Type 0
InWord w p none = (i : ℕ) → p ≤ i → i < 64 → bit i w ≡ false
InWord w p (some k) =
    (p ≤ k) × (k < 64) × (bit k w ≡ true) × ((i : ℕ) → p ≤ i → i < k → bit i w ≡ false)

InWord-step : (w p : ℕ) (r : Option ℕ) → bit p w ≡ false → InWord w (p + 1) r → InWord w p r
InWord-step w p none no_bit h = λ i le lt. elim (Bool-cases (i == p)) [
  | inl e ↦ let e' : i ≡ p = ground arith in rw e' no_bit
  | inr e ↦ h i (ground arith) lt
]
InWord-step w p (some k) no_bit h = (
  omega arith,
  h.1,
  h.2,
  λ i le lt. elim (Bool-cases (i == p)) [
    | inl e ↦ let e' : i ≡ p = ground arith in rw e' no_bit
    | inr e ↦ h.3 i (ground arith) lt
  ],
)

scan_word-InWord : (left p w : ℕ) → p + left ≡ 64 → InWord w p (scan_word left p w)
unfolding scan_word
scan_word-InWord zero p w e = λ i le lt. absurd (omega arith)
scan_word-InWord (suc left) p w e = elim (Bool-cases (w == 0)) [
  | inl zero_word ↦ let e' : w ≡ 0 = ground arith in rw (e', scan_word) (λ i le lt. bit-zero i)
  | inr other ↦
      rw (other, bit_and-pow)
        (elim (Bool-cases (bit p w)) [
          | inl found ↦
              rw found ((omega arith, omega arith, found, λ i le lt. absurd (omega arith)))
          | inr missing ↦ rw missing (
              InWord-step w p (scan_word left (p + 1) w) missing
                (scan_word-InWord left (p + 1) w (omega arith)))
        ])
]

-- Bit `i` of a list of words.
abbrev bit_of : List ℕ → ℕ → Bool
bit_of ws i = bit (i % 64) (get_or ws (i / 64) 0)

abbrev Scanned : List ℕ → ℕ → ℕ → Type 0
Scanned ws word_pos bit_pos =
    (r : Option ℕ) × (scan_words ws word_pos bit_pos ≡ Option.map (λ k. word_pos * 64 + k) r)
    × IsNext (bit_of ws) bit_pos r

shift_twice :
    (n : ℕ) (r : Option ℕ)
    → Option.map (λ k. (n + 1) * 64 + k) r
      ≡ Option.map (λ k. n * 64 + k) (Option.map (λ k. 64 + k) r)
shift_twice n none = refl
shift_twice n (some k) = ap some (omega arith)

module _ (w : ℕ) (ws : List ℕ) where
  bit_of-low : (i : ℕ) → i < 64 → bit_of (w ∷ ws) i ≡ bit i w
  bit_of-low i lt =
      let e : i / 64 ≡ 0 = omega arith in let e' : i % 64 ≡ i = omega arith in rw (e, e')

  bit_of-high : (i : ℕ) → bit_of (w ∷ ws) (64 + i) ≡ bit_of ws i
  bit_of-high i =
      let e : (64 + i) / 64 ≡ suc (i / 64) = omega arith in
      let e' : (64 + i) % 64 ≡ i % 64 = omega arith in rw (e, e')

  bit_of-above : (i : ℕ) → 64 ≤ i → bit_of (w ∷ ws) i ≡ bit_of ws (i - 64)
  bit_of-above i le = let e : 64 + (i - 64) ≡ i = omega arith in rw e at (bit_of-high (i - 64))

  -- No bit of the first word from `p` on, and none of the rest below `k`.
  none_below :
      (p k : ℕ)
      → InWord w p none
      → ((i : ℕ) → i < k → bit_of ws i ≡ false)
      → (i : ℕ) → p ≤ i
      → i < 64 + k
      → bit_of (w ∷ ws) i ≡ false
  none_below p k no_low h i le lt = elim (Bool-cases (ltb i 64)) [
    | inl low ↦ let lt' : i < 64 = ground arith in bit_of-low i lt' ∙ no_low i le lt'
    | inr high ↦ bit_of-above i (ground arith) ∙ h (i - 64) (ground arith)
  ]

  IsNext-high :
      (p : ℕ) (r : Option ℕ)
      → InWord w p none
      → p < 64
      → IsNext (bit_of ws) 0 r
      → IsNext (bit_of (w ∷ ws)) p (Option.map (λ k. 64 + k) r)
  IsNext-high p none no_low lt h =
      λ i le. none_below p (i + 1) no_low (λ j _. h j (omega arith)) i le (omega arith)
  IsNext-high p (some k) no_low lt h = (
    omega arith,
    rw bit_of-high h.1,
    none_below p k no_low (λ j below. h.2 j (omega arith) below),
  )

  Scanned-cons :
      (word_pos p : ℕ) (here : Option ℕ)
      → scan_word (64 - p) p w ≡ here
      → InWord w p here
      → p < 64
      → Scanned ws (word_pos + 1) 0
      → Scanned (w ∷ ws) word_pos p
  unfolding scan_words
  Scanned-cons word_pos p (some k) e found lt rest = (
    some k,
    rw (e, scan_words),
    (
      found.0,
      bit_of-low k found.1 ∙ found.2,
      λ i le below. bit_of-low i (omega (arith, found.1)) ∙ found.3 i le below,
    ),
  )
  Scanned-cons word_pos p none e missing lt (r, e', h) = (
    Option.map (λ k. 64 + k) r,
    rw (e, scan_words) (e' ∙ shift_twice word_pos r),
    IsNext-high p r missing lt h,
  )

scan_words-Scanned : (ws : List ℕ) (word_pos p : ℕ) → p < 64 → Scanned ws word_pos p
unfolding scan_words
scan_words-Scanned [] word_pos p lt = (none, refl, λ i le. bit-zero (i % 64))
scan_words-Scanned (w ∷ ws) word_pos p lt =
    Scanned-cons w ws word_pos p (scan_word (64 - p) p w) refl
      (scan_word-InWord (64 - p) p w (omega arith)) lt
      (scan_words-Scanned ws (word_pos + 1) 0 (omega arith))

-- The members from `from` on are the bits of the words that are left.
member-drop :
    (b : BitString) (from i : ℕ)
    → member b (from / 64 * 64 + i) ≡ bit_of (drop (from / 64) b.word) i
member-drop b from i =
    let e : (from / 64 * 64 + i) / 64 ≡ from / 64 + i / 64 = omega arith in
    let e' : (from / 64 * 64 + i) % 64 ≡ i % 64 = omega arith in
    rw (e, e', get_or-drop (from / 64) (i / 64) b.word 0)

member-from :
    (b : BitString) (from i : ℕ)
    → from ≤ i
    → member b i ≡ bit_of (drop (from / 64) b.word) (i - from / 64 * 64)
member-from b from i le =
    let e : from / 64 * 64 + (i - from / 64 * 64) ≡ i = omega arith in
    rw e at (member-drop b from (i - from / 64 * 64))

IsNext-drop :
    (b : BitString) (from : ℕ) (r : Option ℕ)
    → IsNext (bit_of (drop (from / 64) b.word)) (from % 64) r
    → IsNext (member b) from (Option.map (λ k. from / 64 * 64 + k) r)
IsNext-drop b from none h = λ i le. member-from b from i le ∙ h (i - from / 64 * 64) (omega arith)
IsNext-drop b from (some k) h = (
  omega arith,
  member-drop b from k ∙ h.1,
  λ i le lt. member-from b from i le ∙ h.2 (i - from / 64 * 64) (omega arith) (omega arith),
)

next_set_bit-some :
    (b : BitString) (from : ℕ)
    → from ≤ b.number_of_bits
    → (r : Option ℕ) × (next_set_bit from b ≡ some r) × IsNext (member b) from r
unfolding next_set_bit
next_set_bit-some b from le =
    let (r, e, h) =
      scan_words-Scanned (drop (from / 64) b.word) (from / 64) (from % 64) (omega arith) in
    (Option.map (λ k. from / 64 * 64 + k) r, rw e (ground arith), IsNext-drop b from r h)

-- `r` is the least number from `from` on and below `n` that passes `f`, or `none` where no number does.
abbrev pub IsNextBelow : (ℕ → Bool) → ℕ → ℕ → Option ℕ → Type 0
IsNextBelow f n from none = (i : ℕ) → from ≤ i → f i ≡ false
IsNextBelow f n from (some k) =
    (from ≤ k) × (k < n) × (f k ≡ true) × ((i : ℕ) → from ≤ i → i < k → f i ≡ false)

IsNextBelow-valid :
    (b : BitString) (from : ℕ) (r : Option ℕ)
    → IsValid b
    → IsNext (member b) from r
    → IsNextBelow (member b) b.number_of_bits from r
IsNextBelow-valid b from none v h = h
IsNextBelow-valid b from (some k) v h = (
  h.0,
  elim (Bool-cases (ltb k b.number_of_bits)) [
    | inl e ↦ ground arith
    | inr e ↦
        let out : member b k ≡ false = v.unused k (ground arith) in
        let both : false ≡ true = sym out ∙ h.1 in cc both
  ],
  h.1,
  h.2,
)

-- On a valid string and an index up to the width, `NextSetBit` returns the least member from there on,
-- which is below the width, and -1 exactly where there is none, so at the width itself.
pub next_set_bit-IsNextBelow :
    (b : BitString) (from : ℕ)
    → IsValid b
    → from ≤ b.number_of_bits
    → (r : Option ℕ) × (next_set_bit from b ≡ some r)
      × IsNextBelow (member b) b.number_of_bits from r
next_set_bit-IsNextBelow b from v le =
    let (r, e, h) = next_set_bit-some b from le in (r, e, IsNextBelow-valid b from r v h)
