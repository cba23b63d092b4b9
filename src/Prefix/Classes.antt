-- ===== src/Prefix/Classes.antt =====
-- The classes of prefixes of the architecture, against which src/tc-i386.c sorts them.
use mao.Prelude.{
  ℕ, ◌/◌, ◌%◌, ◌≡◌, refl, sym, ◌∙◌, bit_and, Bool, false, not, ◌&&◌, ◌||◌, Option, some, none, List,
  [], ◌∷◌, arith, ◌==◌, if◌then◌else◌, get_or, Bool-cases, Option-cases, inl, inr,
}
use mao.Prelude.Bits.{bit, bit-and, bit_and-pow}
use mao.Prelude.Masks.{bit_and-mask}
use mao.InstructionSize.{FlagCode, code_64bit, code_32bit, code_16bit}
use mao.Prefix.{
  PrefixGroup, prefix_exist, prefix_lock, prefix_rep, prefix_other, is_64bit, is_rex, classify,
  rex_taken, rex_w, slot_of,
}

record Row : Type 0 where
  byte : ℕ
  place : ℕ
  group : PrefixGroup

abbrev row : ℕ → ℕ → PrefixGroup → Row
row b p g = record { byte = b; place = p; group = g }

-- Each prefix byte, with the place of its class: wait 0, segment 1, address size 2, operand size 3,
-- repetition 4, lock 5
unfoldable class_table : List Row
class_table =
    row 0x9b 0 prefix_other
    ∷ row 0x26 1 prefix_other
    ∷ row 0x2e 1 prefix_other
    ∷ row 0x36 1 prefix_other
    ∷ row 0x3e 1 prefix_other
    ∷ row 0x64 1 prefix_other
    ∷ row 0x65 1 prefix_other
    ∷ row 0x67 2 prefix_other
    ∷ row 0x66 3 prefix_other
    ∷ row 0xf2 4 prefix_rep
    ∷ row 0xf3 4 prefix_rep
    ∷ row 0xf0 5 prefix_lock
    ∷ []

unfoldable look_up : ℕ → List Row → Option (ℕ × PrefixGroup)
look_up b [] = none
look_up b (r ∷ rows) = if r.byte == b then some (r.place, r.group) else look_up b rows

-- The place and the group of a prefix. A REX prefix, of place 6, is 0x40 to 0x4f in 64-bit code.
unfoldable pub class_of : FlagCode → ℕ → Option (ℕ × PrefixGroup)
unfolding class_table look_up
class_of flag prefix =
    if is_64bit flag && (prefix / 16 == 4)
    then some (6, prefix_other)
    else look_up prefix class_table

-- What the place holds and the prefix do not go together: two REX prefixes where both have the digit 3,
-- or both have some of the digits 0 to 2; other prefixes always.
unfoldable pub clashes : ℕ → ℕ → ℕ → Bool
clashes q old prefix =
    if q == 6
    then (bit 3 old && bit 3 prefix) || (not (old % 8 == 0) && not (prefix % 8 == 0))
    else not (old == 0)

classify-class : (prefix : ℕ) → classify prefix ≡ look_up prefix class_table
unfolding classify class_table look_up
classify-class prefix = ground arith

is_rex-range :
    (flag : FlagCode) (prefix : ℕ) → is_rex flag prefix ≡ (is_64bit flag && (prefix / 16 == 4))
is_rex-range code_64bit prefix = ground arith
is_rex-range code_32bit prefix = ground arith
is_rex-range code_16bit prefix = ground arith

classify-place :
    (prefix q : ℕ) (group : PrefixGroup) → classify prefix ≡ some (q, group) → (q == 6) ≡ false
unfolding classify
classify-place prefix q group h = ground arith

rex_taken-clashes : (old prefix : ℕ) → rex_taken old prefix ≡ clashes 6 old prefix
unfolding rex_taken clashes
rex_taken-clashes old prefix =
    let high : not (bit_and (bit_and old prefix) rex_w == 0) ≡ (bit 3 old && bit 3 prefix) =
      bit_and-pow 3 (bit_and old prefix) ∙ bit-and 3 old prefix in
    rw (high, bit_and-mask 3 old, bit_and-mask 3 prefix)

clash_other :
    (q old prefix : ℕ)
    → (q == 6) ≡ false
    → (g : PrefixGroup)
    → (if not (old == 0) then prefix_exist else g)
      ≡ (if clashes q old prefix then prefix_exist else g)
unfolding clashes
clash_other q old prefix e g = rw e refl

-- The place and the group that `add_prefix` finds are those of the class, unless the prefix clashes.
pub slot_of-class :
    (flag : FlagCode) (prefix : ℕ) (old : List ℕ) (q : ℕ) (group : PrefixGroup)
    → slot_of flag prefix old ≡ some (q, group)
    → (own : PrefixGroup) × (class_of flag prefix ≡ some (q, own))
      × (group ≡ (if clashes q (get_or old q 0) prefix then prefix_exist else own))
unfolding slot_of class_of
slot_of-class flag prefix old q group h = elim (Bool-cases (is_rex flag prefix)) [
  | inl rex ↦
      let h' = rw rex at h in
      let same : 6 ≡ q = cc h' in
      let found : (if rex_taken (get_or old 6 0) prefix then prefix_exist else prefix_other)
          ≡ group =
        cc h' in
      let range = sym (is_rex-range flag prefix) ∙ rex in
      (
        prefix_other,
        rw (range, ← same) refl,
        rw (← same, ← rex_taken-clashes (get_or old 6 0) prefix) (sym found),
      )
  | inr other ↦ elim (Option-cases (classify prefix)) [
    | inl nothing ↦ cc (rw (other, nothing) at h)
    | inr ((p, g), known) ↦
        let h' = rw (other, known) at h in
        let same : p ≡ q = cc h' in
        let found : (if not (get_or old p 0 == 0) then prefix_exist else g) ≡ group = cc h' in
        let range = sym (is_rex-range flag prefix) ∙ other in
        let not_rex = classify-place prefix p g known in
        (
          g,
          rw (range, ← same) (sym (classify-class prefix) ∙ known),
          rw (← same) (sym found ∙ clash_other p (get_or old p 0) prefix not_rex g),
        )
  ]
]
