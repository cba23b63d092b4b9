-- ===== src/Prefix/Slots.antt =====
-- src/tc-i386.c: `add_prefix` counts the prefixes that it keeps.
use mao.Prelude.Lists
use mao.Prelude.{
  ℕ, zero, suc, ◌+◌, ◌/◌, ◌^◌, ◌<◌, ◌≡◌, ◌≢◌, refl, sym, ◌∙◌, bit_or, Bool, true, false, List, [],
  ◌∷◌, some, arith, ◌==◌, if◌then◌else◌, get_or, length, length-set, get_or-set_self, get_or-set_ne,
  Bool-cases, Option-cases, inl, inr,
}
use mao.Prelude.Checked.{>>=-eq-some}
use mao.Prelude.Bits.{bit_or_halves}
use native.Mathlib.Nat.{pow-suc}
use mao.InstructionSize.{FlagCode}
use mao.Prefix.{
  PrefixGroup, prefix_exist, prefix_lock, prefix_rep, prefix_other, Prefixes, is_rex, classify,
  slot_of, store_prefix, add_prefix,
}
use mao.Prefix.Classes.{class_of, clashes, slot_of-class}

-- The places that hold a prefix
unfoldable pub used : List ℕ → ℕ
used [] = 0
used (p ∷ prefix) = (if p == 0 then 0 else 1) + used prefix

-- Seven places, and their number of prefixes
pub record IsCounted (i : Prefixes) : Type 0 where
  pub seven : length i.prefix ≡ 7
  pub counted : i.prefixes ≡ used i.prefix

used-set :
    (prefix : List ℕ) (q v : ℕ)
    → q < length prefix
    → v ≢ 0
    → used (Lists.set prefix q v) ≡ used prefix + (if get_or prefix q 0 == 0 then 1 else 0)
unfolding used
used-set [] q v h n = absurd (omega arith)
used-set (p ∷ prefix) zero v h n = ground arith
used-set (p ∷ prefix) (suc q) v h n = omega (arith, used-set prefix q v (omega arith) n)

bit_or_pos : (n a b : ℕ) → b < 2 ^ n → b ≢ 0 → bit_or a b ≢ 0
bit_or_pos zero a b h nz e = nz (omega arith)
bit_or_pos (suc n) a b h nz e =
    let halves = bit_or_halves a b in
    elim (Bool-cases (b / 2 == 0)) [
      | inl y ↦ nz (ground (arith, halves, e, y))
      | inr n' ↦
          bit_or_pos n (a / 2) (b / 2) (omega (arith, pow-suc 2 n)) (λ z. ground (arith, z, n'))
            (omega (arith, halves, e))
    ]

-- A prefix byte with a place
record IsPlaced (prefix q : ℕ) : Type 0 where
  pub place : q < 7
  pub byte : prefix < 2 ^ 8
  pub not_zero : prefix ≢ 0

classify-IsPlaced :
    (prefix q : ℕ) (group : PrefixGroup) → classify prefix ≡ some (q, group) → IsPlaced prefix q
unfolding classify
classify-IsPlaced prefix q group h = record {
  place = ground arith;
  byte = ground arith;
  not_zero = λ z. ground arith;
}

slot_of-IsPlaced :
    (flag : FlagCode) (prefix : ℕ) (old : List ℕ) (q : ℕ) (group : PrefixGroup)
    → slot_of flag prefix old ≡ some (q, group)
    → IsPlaced prefix q
unfolding slot_of
slot_of-IsPlaced flag prefix old q group h = elim (Bool-cases (is_rex flag prefix)) [
  | inl rex ↦
      let h' = rw rex at h in
      let same : q ≡ 6 = cc h' in
      record {
        place = omega (arith, same);
        byte = ground (arith, rex);
        not_zero = λ z. ground (arith, rex);
      }
  | inr other ↦ elim (Option-cases (classify prefix)) [
    | inl nothing ↦ cc (rw (other, nothing) at h)
    | inr ((p, g), known) ↦
        let h' = rw (other, known) at h in
        let same : p ≡ q = cc h' in rw (sym same) (classify-IsPlaced prefix p g known)
  ]
]

-- `ret == PREFIX_EXIST`
abbrev pub already_there : PrefixGroup → Bool
already_there prefix_exist = true
already_there _ = false

-- What storing a prefix keeps and changes
pub record Stored (q prefix : ℕ) (group : PrefixGroup) (i i' : Prefixes) : Type 0 where
  pub counted : IsCounted i'
  pub effect :
      if already_there group
      then (i' ≡ i)
      else (get_or i'.prefix q 0 ≡ bit_or (get_or i.prefix q 0) prefix)
  pub others : (k : ℕ) → k ≢ q → get_or i'.prefix k 0 ≡ get_or i.prefix k 0

module _ (q prefix : ℕ) (i : Prefixes) (c : IsCounted i) (p : IsPlaced prefix q) where
  abbrev new : Prefixes
  new = record {
    prefix = Lists.set i.prefix q (bit_or (get_or i.prefix q 0) prefix);
    prefixes = (if get_or i.prefix q 0 == 0 then i.prefixes + 1 else i.prefixes);
  }

  new-IsCounted : IsCounted new
  new-IsCounted =
      let more =
        used-set i.prefix q (bit_or (get_or i.prefix q 0) prefix) (omega (arith, p.place, c.seven))
          (bit_or_pos 8 (get_or i.prefix q 0) prefix p.byte p.not_zero) in
      record {
        seven = length-set i.prefix q _ ∙ c.seven;
        counted = ground (arith, more, c.counted);
      }

  stored : (group : PrefixGroup) → already_there group ≡ false → Stored q prefix group i new
  stored group other = record {
    counted = new-IsCounted;
    effect = rw other (get_or-set_self i.prefix q _ 0 (omega (arith, p.place, c.seven)));
    others = λ k ne. get_or-set_ne i.prefix q k _ 0 (λ e. ne (sym e));
  }

  store_prefix-Stored :
      (group : PrefixGroup) → Stored q prefix group i (store_prefix q prefix group i)
  unfolding store_prefix
  store_prefix-Stored prefix_exist = record { counted = c; effect = refl; others = λ k ne. refl }
  store_prefix-Stored prefix_lock = stored prefix_lock refl
  store_prefix-Stored prefix_rep = stored prefix_rep refl
  store_prefix-Stored prefix_other = stored prefix_other refl

-- Where `add_prefix` returns on seven places of which `prefixes` are used, this still holds, and the prefix
-- has a class, with a place and a group. It reports `PREFIX_EXIST` exactly where the prefix clashes with
-- what the place of its class holds, and else its group. Where it reports `PREFIX_EXIST` nothing changes,
-- otherwise the place holds the bits of the prefix beside those that it had. The other places stay.
pub add_prefix-Stored :
    (flag : FlagCode) (prefix : ℕ) (i i' : Prefixes) (group : PrefixGroup)
    → IsCounted i
    → add_prefix flag prefix i ≡ some (i', group)
    → (q : ℕ) × (own : PrefixGroup) × (class_of flag prefix ≡ some (q, own))
      × (group ≡ (if clashes q (get_or i.prefix q 0) prefix then prefix_exist else own))
      × (q < 7)
      × Stored q prefix group i i'
unfolding add_prefix
add_prefix-Stored flag prefix i i' group c h =
    let ((q, g), slot, stored_) = >>=-eq-some (slot_of flag prefix i.prefix) _ h in
    let same_group : g ≡ group = cc stored_ in
    let same : store_prefix q prefix g i ≡ i' = cc stored_ in
    let placed = slot_of-IsPlaced flag prefix i.prefix q g slot in
    let (own, class, reported) = slot_of-class flag prefix i.prefix q g slot in
    (
      q,
      own,
      class,
      sym same_group ∙ reported,
      placed.place,
      rw (sym same_group, sym same) (store_prefix-Stored q prefix i c placed g),
    )
