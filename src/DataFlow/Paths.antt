-- ===== src/DataFlow/Paths.antt =====
-- What `DFProblem::Solve` (src/MaoDataFlow.cc) computes, in terms of paths through the graph: a bit is
-- in the set at a block exactly when some path, against the direction of the analysis, leads to a
-- block that generates it through blocks that do not kill it.
use mathlib.Core.List.{Memᴰ}
use mathlib.Core.List.Memᴰ
use mao.Prelude.{
  ℕ, ◌≡◌, refl, sym, ◌∙◌, ◌↔◌, inl, inr, Bool, true, false, some, List, [], ◌∷◌, arith, ◌==◌,
  Bool-cases, All,
}
use mao.BitString.Members.{member}
use mao.DataFlow.{BasicBlockEdge, DfProblem, Maps, solve}
use mao.DataFlow.Sets.{any}
use mao.DataFlow.Invariant.{elem, edges, far, IsUnionProblem, joined, flow, IsGood}
use mao.DataFlow.Moves.{entry_at}
use mao.DataFlow.Least.{entry_sets, IsLeastSolution}
use mao.DataFlow.Rounds.{IsKept}
use mao.DataFlow.Solution.{solve-IsLeastSolution, solve_keeps}

-- Bit `i` flows to the entry of `b`.
pub data Flows (p : DfProblem) (i : ℕ) : ℕ → Type 0 where
  generated :
      {b : ℕ} (e : BasicBlockEdge)
      → Memᴰ e (edges p b)
      → member (p.create_gen_set (far p e)) i ≡ true
      → Flows p i b
  passed :
      {b : ℕ} (e : BasicBlockEdge)
      → Memᴰ e (edges p b)
      → member (p.create_kill_set (far p e)) i ≡ false
      → Flows p i (far p e)
      → Flows p i b

any_witness {ℓ} :
    {A : Type ℓ} (f : A → Bool) (xs : List A) → any f xs ≡ true → (x : A) × Memᴰ x xs × (f x ≡ true)
any_witness f [] e = absurd (cc)
any_witness f (x ∷ xs) e = elim (Bool-cases (f x)) [
  | inl here ↦ (x, Memᴰ.head refl, here)
  | inr there ↦ let (y, m, h) = any_witness f xs (ground arith) in (y, Memᴰ.tail m, h)
]

any_of_mem {ℓ} :
    {A : Type ℓ} (f : A → Bool) (x : A) (xs : List A) → Memᴰ x xs → f x ≡ true → any f xs ≡ true
any_of_mem f x (y ∷ ys) m h = elim (Memᴰ.cases_cons m) [
  | inl e ↦ let here : f y ≡ true = rw e at h in rw here
  | inr m' ↦ ground (arith, any_of_mem f x ys m' h)
]
any_of_mem f x [] m h = elim m [ ]

All-mem {ℓ κ} : {A : Type ℓ} (P : A → Type κ) (x : A) (xs : List A) → Memᴰ x xs → All P xs → P x
All-mem P x (y ∷ ys) m h = elim (Memᴰ.cases_cons m) [
  | inl e ↦ rw e h.0
  | inr m' ↦ All-mem P x ys m' h.1
]
All-mem P x [] m h = elim m [ ]

module _ (p : DfProblem) (ok : IsUnionProblem p) where
  Found : Maps → Type 0
  Found m = (b : ℕ) → elem b p.cfg.blocks ≡ true → (i : ℕ) → entry_sets p m b i ≡ true → Flows p i b

  joined→Flows :
      (m : Maps)
      → IsGood p m
      → Found m
      → (b : ℕ) → elem b p.cfg.blocks ≡ true
      → (i : ℕ) → joined p m b i ≡ true
      → Flows p i b
  unfolding Found
  joined→Flows m good found b inside i t =
      let (e, at, h) = any_witness _ (edges p b) t in
      let far_inside = (All-mem _ e (edges p b) at (ok.own_edges b inside)).1 in
      let flows : flow p (far p e) (m.entry_map (far p e)) i ≡ true =
        sym ((good (far p e) far_inside).exit_flow i) ∙ h in
      elim (Bool-cases (member (p.create_gen_set (far p e)) i)) [
        | inl gen ↦ generated e at gen
        | inr none_here ↦ passed e at (ground arith) (found (far p e) far_inside i (ground arith))
      ]

  Found-kept : IsKept p Found
  unfolding Found
  Found-kept m m' b good inside v found c ic i t = elim (Bool-cases (c == b)) [
    | inl s ↦
        let same : c ≡ b = ground arith in
        let t' : member v.entry i ≡ true = rw (entry_at p ok good v inside, s) at t in
        rw same (joined→Flows m good found b inside i (sym (v.entry_joined i) ∙ t'))
    | inr s ↦ found c ic i (rw (entry_at p ok good v inside, s) at t)
  ]

  Flows→entry :
      (r : Maps)
      → IsLeastSolution p (entry_sets p r)
      → {i b : ℕ} → Flows p i b
      → elem b p.cfg.blocks ≡ true
      → entry_sets p r b i ≡ true
  Flows→entry r l {i} {b} (generated e at gen) inside =
      l.solves b inside i ∙ any_of_mem _ e (edges p b) at (rw gen)
  Flows→entry r l {i} {b} (passed e at keep w) inside =
      let far_inside = (All-mem _ e (edges p b) at (ok.own_edges b inside)).1 in
      let there = Flows→entry r l w far_inside in
      l.solves b inside i ∙ any_of_mem _ e (edges p b) at (ground arith)

  -- On a union problem, if `Solve` returns, a bit is in the entry set of a block of the graph exactly
  -- when it flows there.
  pub solve-iff-Flows :
      (r : Maps)
      → solve p false ≡ some r
      → (b i : ℕ) → elem b p.cfg.blocks ≡ true
      → (entry_sets p r b i ≡ true) ↔ Flows p i b
  unfolding Found
  solve-iff-Flows r e b i inside = (
    λ t.
        solve_keeps p ok Found Found-kept
          (λ m first c ic j t. cc (ok.initial_empty j, rw (first c ic) at t)) r e b inside i t,
    λ w. Flows→entry r (solve-IsLeastSolution p ok r e) w inside,
  )
