-- ===== src/DataFlow/Solution.antt =====
-- `DFProblem::Solve` (src/MaoDataFlow.cc): it computes the least solution of the data flow equations,
-- whatever the order of the blocks and of the confluence sets, and it ends on small problems.
use mao.Prelude.{
  ℕ, ◌*◌, ◌<◌, ◌≡◌, refl, sym, ◌∙◌, Bool, true, false, some, List, [], ◌∷◌, arith, Bool-ext, length,
  All, lt→ltb, All-mono,
}
use mao.DataFlow.{DfProblem, Maps, iterate, no_sets, max_number_of_iterations, solve}
use mao.DataFlow.Sets.{any}
use mao.DataFlow.Invariant.{elem, edges, far, IsUnionProblem, IsGood, IsBalanced}
use mao.DataFlow.Measure.{gap, sum_over-const}
use mao.DataFlow.Least.{
  elem-All, All-elem, entering, entry_sets, IsLeastSolution, IsInitial, initialize-IsInitial,
  IsGood-initial, Below, Below-kept,
}
use mao.DataFlow.Rounds.{Inside, IsKept, Solved, iterate-Solved, iterate_returns}

any_congr_on {ℓ κ} :
    {A : Type ℓ} (P : A → Type κ) (f g : A → Bool) (xs : List A)
    → All P xs
    → ((x : A) → P x → f x ≡ g x)
    → any f xs ≡ any g xs
any_congr_on P f g [] a h = refl
any_congr_on P f g (x ∷ xs) a h = rw (h x a.0, any_congr_on P f g xs a.1 h)

-- The same problem with its blocks in another order and at other addresses.
abbrev pub reordered : DfProblem → List ℕ → (ℕ → ℕ) → DfProblem
reordered p blocks address =
    let cfg = p.cfg in record p { cfg = record cfg { blocks = blocks }; address = address }

module _ (p : DfProblem) (ok : IsUnionProblem p) where
  everywhere : Inside p p.cfg.blocks
  everywhere = elem-All p.cfg.blocks p.cfg.blocks (λ b e. e)

  abbrev start : Maps
  start = (initialize-IsInitial p ok p.cfg.blocks no_sets).0

  start-IsInitial : (c : ℕ) → elem c p.cfg.blocks ≡ true → IsInitial p start c
  start-IsInitial = (initialize-IsInitial p ok p.cfg.blocks no_sets).3

  solve-iterate : solve p false ≡ iterate p max_number_of_iterations start
  unfolding solve
  solve-iterate = rw ((initialize-IsInitial p ok p.cfg.blocks no_sets).1, lt→ltb _ _ ok.positive)

  start-IsGood : IsGood p start
  start-IsGood = IsGood-initial p ok start start-IsInitial

  -- What holds of the initial sets and survives every change holds of a returned result.
  pub solve_keeps {ℓ} :
      (Q : Maps → Type ℓ)
      → IsKept p Q
      → ((m : Maps)
          → ((c : ℕ) → elem c p.cfg.blocks ≡ true → m.entry_map c ≡ p.get_initial_entry_state)
          → Q m)
      → (r : Maps) → solve p false ≡ some r
      → Q r
  solve_keeps Q keep first r e =
      (iterate-Solved p ok Q keep max_number_of_iterations start r start-IsGood
        (first start (λ c ic. (start-IsInitial c ic).entry)) everywhere
        (sym solve-iterate ∙ e)).kept

  -- A returned result is settled, and below all closed sets.
  solve-Solved :
      (g : ℕ → ℕ → Bool)
      (closed : (b : ℕ)
        → elem b p.cfg.blocks ≡ true
        → (i : ℕ) → entering p g b i ≡ true
        → g b i ≡ true)
      → (r : Maps) → solve p false ≡ some r
      → Solved p ok (Below p ok g) (Below-kept p ok g closed) r
  solve-Solved g closed r e =
      iterate-Solved p ok (Below p ok g) (Below-kept p ok g closed) max_number_of_iterations start r
        start-IsGood
        (λ b inside i t. cc (ok.initial_empty i, rw (start-IsInitial b inside).entry at t))
        everywhere (sym solve-iterate ∙ e)

  -- On a union problem, if `Solve` returns, its entry sets are the least solution of the data flow
  -- equations.
  pub solve-IsLeastSolution :
      (r : Maps) → solve p false ≡ some r → IsLeastSolution p (entry_sets p r)
  solve-IsLeastSolution r e =
      let all = solve-Solved (λ b i. true) (λ b inside i t. refl) r e in
      record {
        solves = λ b inside i.
            All-elem (IsBalanced p r) b p.cfg.blocks all.balanced inside i
            ∙ any_congr_on _ _ _ (edges p b) (ok.own_edges b inside)
                (λ e h. (all.good (far p e) h.1).exit_flow i);
        least = λ g closed. (solve-Solved g closed r e).kept;
      }

  -- On a union problem `Solve` returns, with no failed assertion, where the bits of all blocks
  -- together are fewer than the iterations it allows.
  pub solve_returns :
      p.num_bits * length p.cfg.blocks < max_number_of_iterations
      → (r : Maps) × (solve p false ≡ some r)
  solve_returns small =
      let (r, e) =
        iterate_returns p ok (λ m. Unit {0}) (λ m m' b good inside v q. tt) max_number_of_iterations
          start start-IsGood tt everywhere
          (omega (
            arith,
            sum_over-const (gap p start) p.num_bits p.cfg.blocks (λ b inside. omega arith),
          )) in
      (r, solve-iterate ∙ e)

reordered-IsUnionProblem :
    (p : DfProblem) (blocks : List ℕ) (address : ℕ → ℕ)
    → IsUnionProblem p
    → ((b : ℕ) → elem b blocks ≡ elem b p.cfg.blocks)
    → ((x y : ℕ) → address x ≡ address y → x ≡ y)
    → IsUnionProblem (reordered p blocks address)
reordered-IsUnionProblem p blocks address ok same distinct = record {
  positive = ok.positive;
  gen_fits = ok.gen_fits;
  kill_fits = ok.kill_fits;
  initial_fits = ok.initial_fits;
  initial_empty = ok.initial_empty;
  by_union = ok.by_union;
  own_edges = λ b h.
      All-mono _ _ (edges p b) (λ e k. (k.0, same (far p e) ∙ k.1))
        (ok.own_edges b (sym (same b) ∙ h));
  distinct = distinct;
}

-- On a union problem, let the same blocks stand in another order and at other addresses, by which the
-- confluence sets are ordered, all different: where `Solve` returns on both, the entry sets of every
-- block have the same members.
pub solve_order :
    (p : DfProblem) (blocks : List ℕ) (address : ℕ → ℕ)
    → IsUnionProblem p
    → ((b : ℕ) → elem b blocks ≡ elem b p.cfg.blocks)
    → ((x y : ℕ) → address x ≡ address y → x ≡ y)
    → (r s : Maps) → solve p false ≡ some r
    → solve (reordered p blocks address) false ≡ some s
    → (b : ℕ) → elem b p.cfg.blocks ≡ true
    → (i : ℕ) → entry_sets p r b i ≡ entry_sets p s b i
solve_order p blocks address ok same distinct r s e e' b inside i =
    let one = solve-IsLeastSolution p ok r e in
    let two =
      solve-IsLeastSolution (reordered p blocks address)
        (reordered-IsUnionProblem p blocks address ok same distinct) s e' in
    let other : (c : ℕ)
        → elem c p.cfg.blocks ≡ true
        → (j : ℕ) → entry_sets p s c j ≡ entering p (entry_sets p s) c j =
      λ c ic. two.solves c (same c ∙ ic) in
    Bool-ext (entry_sets p r b i) (entry_sets p s b i)
      (one.least (entry_sets p s) (λ c ic j t. other c ic j ∙ t) b inside i)
      (two.least (entry_sets p r) (λ c ic j t. one.solves c (sym (same c) ∙ ic) j ∙ t) b
        (same b ∙ inside) i)
