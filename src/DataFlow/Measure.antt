-- ===== src/DataFlow/Measure.antt =====
-- Every change that the solver of src/MaoDataFlow.cc makes adds a member to some entry set, so the
-- number of bits still missing falls.
use mao.Prelude.{
  ℕ, ◌+◌, ◌-◌, ◌*◌, ◌≤◌, ◌<◌, ◌≡◌, sym, ◌∙◌, inl, inr, true, List, [], ◌∷◌, arith, leb, ltb, ◌==◌,
  Bool-cases, length, ==_refl,
}
use mao.BitString.Members.{member}
use mao.BitString.Count.{count_below, count_below-le, count_below_mono, count_below_tight}
use mao.DataFlow.{DfProblem, Maps}
use mao.DataFlow.Invariant.{elem, IsUnionProblem, IsGood, Moves}
use mao.DataFlow.Moves.{entry_at, entry_grows, moved_grows}

unfoldable pub sum_over : (ℕ → ℕ) → List ℕ → ℕ
sum_over f [] = 0
sum_over f (b ∷ bs) = f b + sum_over f bs

sum_over_mono : (f g : ℕ → ℕ) (bs : List ℕ) → ((b : ℕ) → f b ≤ g b) → sum_over f bs ≤ sum_over g bs
unfolding sum_over
sum_over_mono f g [] h = omega arith
sum_over_mono f g (b ∷ bs) h = omega (arith, h b, sum_over_mono f g bs h)

sum_over-lt :
    (f g : ℕ → ℕ) (b : ℕ) (bs : List ℕ)
    → ((c : ℕ) → f c ≤ g c)
    → f b < g b
    → elem b bs ≡ true
    → sum_over f bs < sum_over g bs
unfolding sum_over
sum_over-lt f g b [] h lt e = absurd (cc)
sum_over-lt f g b (c ∷ bs) h lt e = elim (Bool-cases (b == c)) [
  | inl here ↦
      let same : b ≡ c = ground arith in omega (arith, rw same at lt, sum_over_mono f g bs h)
  | inr there ↦ omega (arith, h c, sum_over-lt f g b bs h lt (ground arith))
]

pub sum_over-const :
    (f : ℕ → ℕ) (n : ℕ) (bs : List ℕ)
    → ((b : ℕ) → elem b bs ≡ true → f b ≤ n)
    → sum_over f bs ≤ n * length bs
unfolding sum_over
sum_over-const f n [] h = omega arith
sum_over-const f n (b ∷ bs) h =
    omega (arith, h b (ground arith), sum_over-const f n bs (λ c e. h c (ground arith)))

module _ (p : DfProblem) where
  abbrev pub gap : Maps → ℕ → ℕ
  gap m b = p.num_bits - count_below (member (m.entry_map b)) p.num_bits

  -- The bits that the entry sets may still gain.
  abbrev pub missing : Maps → ℕ
  missing m = sum_over (gap m) p.cfg.blocks

  module _ (ok : IsUnionProblem p) {m : Maps} (good : IsGood p m) {b : ℕ} {m' : Maps}
      (v : Moves p m b m') (inside : elem b p.cfg.blocks ≡ true) where
    gap-le : (c : ℕ) → gap m' c ≤ gap m c
    gap-le c = omega (
      arith,
      count_below_mono (member (m.entry_map c)) (member (m'.entry_map c)) p.num_bits
          (entry_grows p ok good v inside c),
    )

    -- Were there no new member, the sets would not differ.
    gains :
        count_below (member (m.entry_map b)) p.num_bits < count_below (member v.entry) p.num_bits
    gains =
        let old = m.entry_map b in
        let grows = moved_grows p ok good v inside in
        elim (Bool-cases
          (leb (count_below (member v.entry) p.num_bits) (count_below (member old) p.num_bits))) [
            | inl no_more ↦ absurd (
                v.differs (λ i. elim (Bool-cases (ltb i p.num_bits)) [
                  | inl low ↦ sym (
                      count_below_tight (member old) (member v.entry) p.num_bits grows
                        (ground arith) i (ground arith))
                  | inr high ↦ same_above i (ground arith)
                ]))
            | inr more ↦ ground arith
          ]
      where
        same_above : (i : ℕ) → p.num_bits ≤ i → member v.entry i ≡ member (m.entry_map b) i
        same_above i le =
            v.entry_fits.valid.unused i (omega (arith, v.entry_fits.width))
            ∙ sym (
                (good b inside).entry_fits.valid.unused i
                  (omega (arith, (good b inside).entry_fits.width)))

    gap-lt : gap m' b < gap m b
    gap-lt =
        rw (entry_at p ok good v inside b, ==_refl)
          (omega (arith, gains, count_below-le (member v.entry) p.num_bits))

    pub missing-lt : missing m' < missing m
    missing-lt = sum_over-lt (gap m') (gap m) b p.cfg.blocks gap-le gap-lt inside
