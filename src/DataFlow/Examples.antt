-- ===== src/DataFlow/Examples.antt =====
-- A loop of two blocks behind a third, as a liveness problem: the theorems about the solver of
-- src/MaoDataFlow.cc at it.
use mao.Prelude.{
  ℕ, zero, suc, ◌↔◌, ◌+◌, ◌-◌, ◌/◌, ◌%◌, ◌<◌, ◌^◌, ◌≡◌, refl, Bool, true, false, some, List, [],
  ◌∷◌, arith, ltb, ◌==◌, if◌then◌else◌, All, get_or, Bool-cases, inl, inr,
}
use mao.Prelude.Bits.{bit, bit-zero}
use mao.BitString.{BitString, init_obj, combine, zip_words, union, minus, equals, words_eq}
use mao.BitString.Members.{member}
use mao.DataFlow.{
  BasicBlockEdge, DfProblem, df_backward, Maps, union_all, fold_sets, insert, collect,
  confluence_blocks, transfer, initialize, recompute, visit, round, iterate, solve,
}
use mao.DataFlow.Sets.{Fits}
use mao.DataFlow.Invariant.{elem, IsUnionProblem}
use mao.DataFlow.Least.{IsLeastSolution, entry_sets}
use mao.DataFlow.Paths.{Flows, solve-iff-Flows}
use mao.DataFlow.Solution.{solve-IsLeastSolution, solve_returns, solve_order, reordered}

abbrev one_word : ℕ → BitString
one_word w = record { word = w ∷ []; number_of_bits = 64 }

one_word-Fits : (w : ℕ) → w < 2 ^ 64 → Fits 64 (one_word w)
one_word-Fits w h = record {
  valid = record {
    positive = omega arith;
    size = refl;
    words = (h, tt);
    unused = λ i le. let e : i / 64 ≡ suc (i / 64 - 1) = omega arith in rw e (bit-zero (i % 64));
  };
  width = refl;
}

-- Block 2 leads to 3, 3 to itself and to 4, and 4 to 3.
abbrev out_edges : ℕ → List BasicBlockEdge
out_edges b =
    if b == 2
    then record { source = 2; dest = 3 } ∷ []
    else if b == 3
    then record { source = 3; dest = 3 } ∷ record { source = 3; dest = 4 } ∷ []
    else record { source = b; dest = 3 } ∷ []

abbrev problem : DfProblem
problem = record {
  cfg = record { blocks = 2 ∷ 3 ∷ 4 ∷ []; in_edges = λ b. []; out_edges = out_edges };
  direction = df_backward;
  num_bits = 64;
  create_gen_set = λ b. if b == 4 then one_word 5 else one_word 0;
  create_kill_set = λ b. if b == 3 then one_word 1 else one_word 0;
  get_initial_entry_state = one_word 0;
  confluence = union_all;
  address = λ b. b;
}

choice_Fits :
    (c : Bool) (v w : ℕ) → v < 2 ^ 64 → w < 2 ^ 64 → Fits 64 (if c then one_word v else one_word w)
choice_Fits true v w hv hw = one_word-Fits v hv
choice_Fits false v w hv hw = one_word-Fits w hw

one_word_0 : (i : ℕ) → member (one_word 0) i ≡ false
one_word_0 i = zeros (i / 64)
  where
    zeros : (k : ℕ) → bit (i % 64) (get_or (0 ∷ []) k 0) ≡ false
    zeros zero = bit-zero (i % 64)
    zeros (suc k) = bit-zero (i % 64)

edges_own :
    (b : ℕ) → All (λ e. (e.source ≡ b) × (elem e.dest problem.cfg.blocks ≡ true)) (out_edges b)
edges_own b = elim (Bool-cases (b == 2)) [
  | inl e ↦ rw e ((ground arith, refl), tt)
  | inr e ↦ elim (Bool-cases (b == 3)) [
    | inl f ↦ rw (e, f) ((ground arith, refl), ((ground arith, refl), tt))
    | inr f ↦ rw (e, f) ((ground arith, refl), tt)
  ]
]

problem-IsUnionProblem : IsUnionProblem problem
problem-IsUnionProblem = record {
  positive = omega arith;
  gen_fits = λ b. choice_Fits (b == 4) 5 0 (omega arith) (omega arith);
  kill_fits = λ b. choice_Fits (b == 3) 1 0 (omega arith) (omega arith);
  initial_fits = one_word-Fits 0 (omega arith);
  initial_empty = one_word_0;
  by_union = λ x xs. refl;
  own_edges = λ b h. edges_own b;
  distinct = λ x y e. e;
}

-- What is read in block 4 is live behind blocks 2 and 3, but bit 0 is written in block 3.
SolutionAt : (m : Maps) → Type 0
SolutionAt m =
    (m.entry_map 2 ≡ one_word 4) × (m.entry_map 3 ≡ one_word 5) × (m.entry_map 4 ≡ one_word 4)

solve_runs : (r : Maps) × (solve problem false ≡ some r) × SolutionAt r
unfolding solve initialize iterate round visit recompute confluence_blocks collect insert union_all
    fold_sets transfer union minus combine zip_words init_obj equals words_eq SolutionAt
solve_runs = (_, refl, (refl, refl, refl))

solve_returns_example : (r : Maps) × (solve problem false ≡ some r)
solve_returns_example = solve_returns problem problem-IsUnionProblem (omega arith)

abbrev result : Maps
result = solve_runs.0

solve-IsLeastSolution_example : IsLeastSolution problem (entry_sets problem result)
solve-IsLeastSolution_example =
    solve-IsLeastSolution problem problem-IsUnionProblem result solve_runs.1

-- The blocks and the exit sets in the opposite order.
abbrev blocks' : List ℕ
blocks' = 4 ∷ 3 ∷ 2 ∷ []

abbrev address' : ℕ → ℕ
address' b = if ltb b 5 then 5 - b else b + 1

address'-distinct : (x y : ℕ) → address' x ≡ address' y → x ≡ y
address'-distinct x y e = ground arith

solve_reordered : (r : Maps) × (solve (reordered problem blocks' address') false ≡ some r)
unfolding solve_runs
solve_reordered = (_, refl)

solve_order_example : entry_sets problem result 3 2 ≡ entry_sets problem solve_reordered.0 3 2
solve_order_example =
    solve_order problem blocks' address' problem-IsUnionProblem (λ b. ground arith)
      address'-distinct result solve_reordered.0 solve_runs.1 solve_reordered.1 3 refl 2

solve-iff-Flows_example : (entry_sets problem result 2 2 ≡ true) ↔ Flows problem 2 2
solve-iff-Flows_example =
    solve-iff-Flows problem problem-IsUnionProblem result solve_runs.1 2 2 refl
