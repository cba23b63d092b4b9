-- ===== src/DataFlow/Visit.antt =====
-- One visit of a block by the solver of src/MaoDataFlow.cc passes its assertions, reports whether it
-- changed anything, and keeps the invariant.
use mao.Prelude.{
  ℕ, ◌≡◌, refl, sym, ◌∙◌, inl, inr, Bool, true, some, List, [], ◌∷◌, map, arith, Bool-cases,
  Bool-ext, All,
}
use mao.Prelude.Checked.{Checked}
use mao.BitString.Members.{member}
use mao.DataFlow.{DfProblem, Maps, update, confluence_blocks, recompute, visit}
use mao.DataFlow.Sets.{Fits, any, transfer-Yields, union_all-Yields, equals-Fits}
use mao.DataFlow.Invariant.{
  elem, edges, far, IsUnionProblem, joined, IsGood, Visited, stays, moves,
  confluence_blocks-Collected,
}

any-map {ℓ κ} :
    {A : Type ℓ} {B : Type κ} (f : B → Bool) (g : A → B) (xs : List A)
    → any f (map g xs) ≡ any (λ x. f (g x)) xs
any-map f g [] = refl
any-map f g (x ∷ xs) = rw (any-map f g xs)

module _ (p : DfProblem) (ok : IsUnionProblem p) (m : Maps) (good : IsGood p m) where
  exits_fit :
      (cs : List ℕ)
      → All (λ c. elem c p.cfg.blocks ≡ true) cs
      → All (Fits p.num_bits) (map m.exit_map cs)
  exits_fit [] h = tt
  exits_fit (c ∷ cs) h = ((good c h.0).exit_fits, exits_fit cs h.1)

  module _ (dirty : Bool) (b : ℕ) (inside : elem b p.cfg.blocks ≡ true) where
    open good b inside use {entry_fits, supported}

    abbrev VisitedBy : Checked (Maps × Bool) → Type 0
    VisitedBy r = (s : Maps × Bool) × (r ≡ some s) × Visited p m dirty b s

    recompute-Visited :
        (c : ℕ) (cs : List ℕ)
        → All (λ c. elem c p.cfg.blocks ≡ true) (c ∷ cs)
        → ((f : ℕ → Bool) → any f (c ∷ cs) ≡ any (λ e. f (far p e)) (edges p b))
        → VisitedBy (recompute p b (c ∷ cs) (m, dirty))
    unfolding recompute
    recompute-Visited c cs h same =
        let (new, e, v, w, hn) =
          union_all-Yields p.num_bits (m.exit_map c) (map m.exit_map cs) (exits_fit (c ∷ cs) h) in
        let new_fits : Fits p.num_bits new = record { valid = v; width = w } in
        let entry_joined : (i : ℕ) → member new i ≡ joined p m b i = λ i.
          hn i
          ∙ any-map (λ y. member y i) m.exit_map (c ∷ cs)
          ∙ same (λ c. member (m.exit_map c) i) in
        let (r, er, yes_same, no_same) =
          equals-Fits p.num_bits new (m.entry_map b) new_fits entry_fits in
        let (exit, ex, vx, wx, hx) =
          transfer-Yields p.num_bits new (p.create_gen_set b) (p.create_kill_set b) new_fits
            (ok.gen_fits b) (ok.kill_fits b) in
        elim (Bool-cases r) [
          | inl unchanged ↦ (
            (m, dirty),
            rw (ok.by_union, e, er, unchanged),
            stays refl (λ i. sym (yes_same unchanged i) ∙ entry_joined i),
          )
          | inr changed ↦
              let m' : Maps = record {
                entry_map = update m.entry_map b new;
                exit_map = update m.exit_map b exit;
              } in
              (
                (m', true),
                rw (ok.by_union, e, er, changed, ex),
                moves m' refl (record {
                  entry = new;
                  exit = exit;
                  entries = refl;
                  exits = refl;
                  entry_fits = new_fits;
                  exit_fits = record { valid = vx; width = wx };
                  entry_joined = entry_joined;
                  exit_flow = hx;
                  differs = λ d. cc (changed, no_same d);
                }),
              )
        ]

    visit_by :
        (cs : List ℕ)
        → confluence_blocks p b ≡ some cs
        → All (λ c. elem c p.cfg.blocks ≡ true) cs
        → ((f : ℕ → Bool) → any f cs ≡ any (λ e. f (far p e)) (edges p b))
        → VisitedBy (visit p b (m, dirty))
    unfolding visit
    visit_by [] q h same = (
      (m, dirty),
      rw q,
      stays refl
          (λ i. Bool-ext _ _ (supported i) (λ t. cc (t, same (λ c. member (m.exit_map c) i)))),
    )
    visit_by (c ∷ cs) q h same =
        let (s, e, v) = recompute-Visited c cs h same in (s, rw q (ground (arith, e)), v)

    -- The visit of a block of the graph.
    pub visit-Visited : VisitedBy (visit p b (m, dirty))
    visit-Visited =
        let (cs, q, same, h) = confluence_blocks-Collected p ok b inside in visit_by cs q h same
