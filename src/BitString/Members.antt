-- ===== src/BitString/Members.antt =====
-- The set of numbers that a `BitString` (src/MaoUtil.h) stands for, and its operations on one
-- element: the constructor, `Set`, `Clear` and `Get`.
use mao.Prelude.Lists
use mao.Prelude.{
  ℕ, zero, suc, ◌+◌, ◌-◌, ◌/◌, ◌%◌, ◌^◌, ◌≤◌, ◌<◌, ◌≡◌, refl, ◌∙◌, ap, bit_and, bit_or, inl, inr,
  Bool, false, not, ◌&&◌, ◌||◌, some, arith, ◌==◌, if◌then◌else◌, Bool-cases, length, replicate,
  All, All-get_or, All-set, length-set, length-replicate, get_or-replicate, get_or-set_self,
  get_or-set_ne,
}
use mao.Prelude.Bits.{
  bit, bit-and, bit-or, bit-zero, bit-pow, bit-complement, bit_and-pow, bit_and-le, bit_or-lt,
  pow_lt,
}
use mao.BitString.{BitString, all_ones, word_at, init_obj, set, clear, get}

-- Bit `i` of the words, whatever `number_of_bits` says.
abbrev pub member : BitString → ℕ → Bool
member b i = bit (i % 64) (word_at b (i / 64))

abbrev pub IsWord : ℕ → Type 0
IsWord w = w < 2 ^ 64

-- What the class keeps: words of 64 bits, as many as are needed, and no bit at or above
-- `number_of_bits_`. (`SetUndef` alone breaks the last.)
pub record IsValid (b : BitString) : Type 0 where
  pub positive : 0 < b.number_of_bits
  pub size : length b.word ≡ (b.number_of_bits - 1) / 64 + 1
  pub words : All IsWord b.word
  pub unused : (i : ℕ) → b.number_of_bits ≤ i → member b i ≡ false

IsWord-zero : IsWord 0
IsWord-zero = omega arith

pub word_at-IsWord : (b : BitString) (i : ℕ) → All IsWord b.word → IsWord (word_at b i)
word_at-IsWord b i h = All-get_or IsWord b.word i 0 h IsWord-zero

-- A bit position is its word and its place in the word.
pub position_ext : (i j : ℕ) → ((i == j) ≡ ((i % 64 == j % 64) && (i / 64 == j / 64)))
position_ext i j = ground arith

All-replicate_zero : (n : ℕ) → All IsWord (replicate n 0)
All-replicate_zero zero = tt
All-replicate_zero (suc n) = (IsWord-zero, All-replicate_zero n)

member_of_zeros :
    (n m i : ℕ) → member (record { word = replicate n 0; number_of_bits = m }) i ≡ false
member_of_zeros n m i = rw (get_or-replicate {A = ℕ} n (i / 64) 0) (bit-zero (i % 64))

-- A new bit string of `n > 0` bits is valid and has no members.
pub init_obj_lem :
    (n : ℕ)
    → 0 < n
    → (b : BitString) × (init_obj n ≡ some b)
      × (b.number_of_bits ≡ n)
      × IsValid b
      × ((i : ℕ) → member b i ≡ false)
unfolding init_obj
init_obj_lem n h = (
  record { word = replicate ((n - 1) / 64 + 1) 0; number_of_bits = n },
  ground arith,
  refl,
  record {
    positive = h;
    size = length-replicate ((n - 1) / 64 + 1) 0;
    words = All-replicate_zero ((n - 1) / 64 + 1);
    unused = λ i le. member_of_zeros ((n - 1) / 64 + 1) n i;
  },
  member_of_zeros ((n - 1) / 64 + 1) n,
)

module _ (b : BitString) (v : IsValid b) (i : ℕ) (lt : i < b.number_of_bits) where
  abbrev old : ℕ
  old = word_at b (i / 64)

  abbrev patched : ℕ → BitString
  patched w = record b { word = Lists.set b.word (i / 64) w }

  in_array : i / 64 < length b.word
  in_array = omega (arith, v.size)

  -- Writing one word changes the bits of that word only.
  member-patched :
      (w j : ℕ) → member (patched w) j ≡ (if j / 64 == i / 64 then bit (j % 64) w else member b j)
  member-patched w j = elim (Bool-cases (j / 64 == i / 64)) [
    | inl e ↦
        let same : j / 64 ≡ i / 64 = ground arith in
        rw (e, same) (ap (bit (j % 64)) (get_or-set_self b.word (i / 64) w 0 in_array))
    | inr e ↦ rw e (ap (bit (j % 64)) (get_or-set_ne b.word (i / 64) (j / 64) w 0 (ground arith)))
  ]

  IsValid-patched :
      (w : ℕ)
      → IsWord w
      → ((j : ℕ) → b.number_of_bits ≤ j → member (patched w) j ≡ false)
      → IsValid (patched w)
  IsValid-patched w h none_above = record {
    positive = v.positive;
    size = length-set b.word (i / 64) w ∙ v.size;
    words = All-set IsWord b.word (i / 64) w v.words h;
    unused = none_above;
  }

  abbrev bit_mask : ℕ
  bit_mask = 2 ^ (i % 64)

  member-set_word : (j : ℕ) → member (patched (bit_or old bit_mask)) j ≡ ((j == i) || member b j)
  member-set_word j = elim (Bool-cases (j / 64 == i / 64)) [
    | inl e ↦
        let same : j / 64 ≡ i / 64 = ground arith in
        rw (member-patched, e, same, bit-or, bit-pow, position_ext j i) (ground arith)
    | inr e ↦ rw (member-patched, e, position_ext j i) (ground arith)
  ]

  bit_mask-IsWord : IsWord bit_mask
  bit_mask-IsWord = pow_lt (i % 64) 64 (omega arith)

  -- On a valid string and an index below its width, `Set` returns a valid string of the same width:
  -- it adds the index as a member and keeps the rest.
  pub set_lem :
      (b' : BitString) × (set i b ≡ some b')
      × IsValid b'
      × (b'.number_of_bits ≡ b.number_of_bits)
      × ((j : ℕ) → member b' j ≡ ((j == i) || member b j))
  unfolding set
  set_lem = (
    patched (bit_or old bit_mask),
    ground arith,
    IsValid-patched _
        (bit_or-lt 64 old bit_mask (word_at-IsWord b (i / 64) v.words) bit_mask-IsWord)
        (λ j le. ground (arith, member-set_word j, v.unused j)),
    refl,
    member-set_word,
  )

  member-clear_word :
      (j : ℕ)
      → member (patched (bit_and old (all_ones - bit_mask))) j ≡ (not (j == i) && member b j)
  member-clear_word j = elim (Bool-cases (j / 64 == i / 64)) [
    | inl e ↦
        let same : j / 64 ≡ i / 64 = ground arith in
        rw
          (
            member-patched,
            e,
            same,
            bit-and,
            bit-complement 64 (j % 64) bit_mask bit_mask-IsWord (omega arith),
            bit-pow,
            position_ext j i,
          )
          (ground arith)
    | inr e ↦ rw (member-patched, e, position_ext j i) (ground arith)
  ]

  -- On a valid string and an index below its width, `Clear` returns a valid string of the same width:
  -- it removes the index as a member and keeps the rest.
  pub clear_lem :
      (b' : BitString) × (clear i b ≡ some b')
      × IsValid b'
      × (b'.number_of_bits ≡ b.number_of_bits)
      × ((j : ℕ) → member b' j ≡ (not (j == i) && member b j))
  unfolding clear
  clear_lem = (
    patched (bit_and old (all_ones - bit_mask)),
    ground arith,
    IsValid-patched _
        (omega (arith, bit_and-le 64 old (all_ones - bit_mask), word_at-IsWord b (i / 64) v.words))
        (λ j le. ground (arith, member-clear_word j, v.unused j)),
    refl,
    member-clear_word,
  )

-- `Get` tests membership.
pub get-member : (b : BitString) (i : ℕ) → i < b.number_of_bits → get i b ≡ some (member b i)
unfolding get
get-member b i lt = rw (bit_and-pow (i % 64) (word_at b (i / 64))) (ground arith)
