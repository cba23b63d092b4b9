-- ===== src/DataFlow/Moves.antt =====
-- A visit that changes a block keeps the invariant of the solver of src/MaoDataFlow.cc: the sets only
-- grow.
use mao.Prelude.{
  ℕ, ◌≡◌, sym, ◌∙◌, ap, inl, inr, Bool, true, List, [], ◌∷◌, arith, ◌==◌, if◌then◌else◌, Bool-cases,
  All, ==_refl,
}
use mao.BitString.{BitString}
use mao.BitString.Members.{member}
use mao.DataFlow.{DfProblem, Maps}
use mao.DataFlow.Sets.{any}
use mao.DataFlow.Invariant.{elem, edges, far, IsUnionProblem, joined, flow, IsGood, Moves}

pub any_mono {ℓ} :
    {A : Type ℓ} (f g : A → Bool) (xs : List A)
    → ((x : A) → f x ≡ true → g x ≡ true)
    → any f xs ≡ true
    → any g xs ≡ true
any_mono f g [] h e = e
any_mono f g (x ∷ xs) h e = elim (Bool-cases (f x)) [
  | inl here ↦ rw (h x here)
  | inr there ↦ ground (arith, any_mono f g xs h)
]

-- An element-wise implication along a list on which `P` holds.
pub any_mono_on {ℓ κ} :
    {A : Type ℓ} (P : A → Type κ) (f g : A → Bool) (xs : List A)
    → All P xs
    → ((x : A) → P x → f x ≡ true → g x ≡ true)
    → any f xs ≡ true
    → any g xs ≡ true
any_mono_on P f g [] a h e = e
any_mono_on P f g (x ∷ xs) a h e = elim (Bool-cases (f x)) [
  | inl here ↦ rw (h x a.0 here)
  | inr there ↦ ground (arith, any_mono_on P f g xs a.1 h)
]

module _ (p : DfProblem) (ok : IsUnionProblem p) {m : Maps} (good : IsGood p m) {b : ℕ} {m' : Maps}
    (v : Moves p m b m') (inside : elem b p.cfg.blocks ≡ true) where
  pub entry_at : (c : ℕ) → m'.entry_map c ≡ (if c == b then v.entry else m.entry_map c)
  entry_at c = ap (λ (f : ℕ → BitString). f c) v.entries

  pub exit_at : (c : ℕ) → m'.exit_map c ≡ (if c == b then v.exit else m.exit_map c)
  exit_at c = ap (λ (f : ℕ → BitString). f c) v.exits

  -- The new entry set of the visited block holds the old one.
  pub moved_grows : (i : ℕ) → member (m.entry_map b) i ≡ true → member v.entry i ≡ true
  moved_grows i t = v.entry_joined i ∙ (good b inside).supported i t

  pub entry_grows : (c i : ℕ) → member (m.entry_map c) i ≡ true → member (m'.entry_map c) i ≡ true
  entry_grows c i t = elim (Bool-cases (c == b)) [
    | inl e ↦ let same : c ≡ b = ground arith in rw (entry_at, e) (moved_grows i (rw same at t))
    | inr e ↦ rw (entry_at, e) t
  ]

  pub exit_grows : (c i : ℕ) → member (m.exit_map c) i ≡ true → member (m'.exit_map c) i ≡ true
  exit_grows c i t = elim (Bool-cases (c == b)) [
    | inl e ↦
        let same : c ≡ b = ground arith in
        let t' : flow p b (m.entry_map b) i ≡ true =
          sym ((good b inside).exit_flow i) ∙ (rw same at t) in
        rw (exit_at, e) (v.exit_flow i ∙ ground (arith, moved_grows i))
    | inr e ↦ rw (exit_at, e) t
  ]

  pub joined_grows : (c i : ℕ) → joined p m c i ≡ true → joined p m' c i ≡ true
  joined_grows c i = any_mono _ _ (edges p c) (λ e. exit_grows (far p e) i)

  -- The invariant after the change.
  pub IsGood-moved : IsGood p m'
  IsGood-moved c h = elim (Bool-cases (c == b)) [
    | inl e ↦
        let same : c ≡ b = ground arith in
        rw same (record {
          entry_fits = rw (entry_at, ==_refl) v.entry_fits;
          exit_fits = rw (exit_at, ==_refl) v.exit_fits;
          exit_flow = λ i. rw (exit_at, entry_at, ==_refl) (v.exit_flow i);
          supported =
              λ i t. joined_grows b i (sym (v.entry_joined i) ∙ (rw (entry_at, ==_refl) at t));
        })
    | inr e ↦ record {
      entry_fits = rw (entry_at, e) (good c h).entry_fits;
      exit_fits = rw (exit_at, e) (good c h).exit_fits;
      exit_flow = λ i. rw (exit_at, entry_at, e) ((good c h).exit_flow i);
      supported = λ i t. joined_grows c i ((good c h).supported i (rw (entry_at, e) at t));
    }
  ]
