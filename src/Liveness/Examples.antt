-- ===== src/Liveness/Examples.antt =====
-- A block that loops on itself, and the theorems about src/MaoLiveness.cc at it.
use mao.Prelude.{
  ℕ, suc, ◌-◌, ◌/◌, ◌%◌, ◌^◌, ◌<◌, ◌≡◌, refl, ◌↔◌, Bool, true, false, not, ◌&&◌, ◌||◌, some, List,
  [], ◌∷◌, arith, ◌==◌, if◌then◌else◌, All, Bool-cases, inl, inr,
}
use mao.Prelude.Bits.{bit-zero}
use mao.BitString.{BitString, init_obj, combine, zip_words, union, minus, equals, words_eq}
use mao.BitString.Members.{member}
use mao.BitString.Algebra.{Yields}
use mao.DataFlow.{
  Cfg, Maps, union_all, fold_sets, insert, collect, confluence_blocks, transfer, initialize,
  recompute, visit, round, iterate, solve,
}
use mao.DataFlow.Sets.{Fits}
use mao.DataFlow.Invariant.{elem}
use mao.Liveness.{
  Entry, instruction, other, num_bits, gen_loop, create_gen_set, kill_loop, create_kill_set,
  get_live, problem,
}
use mao.Liveness.Block.{IsMasked, live_before, block_summary}
use mao.Liveness.Spec.{LiveOut, get_live-Yields, solve-iff-LiveOut}

abbrev registers : ℕ → BitString
registers w = record { word = w ∷ 0 ∷ 0 ∷ 0 ∷ []; number_of_bits = 256 }

registers-Fits : (w : ℕ) → w < 2 ^ 64 → Fits 256 (registers w)
registers-Fits w h = record {
  valid = record {
    positive = omega arith;
    size = refl;
    words = (h, omega arith);
    unused = λ i le.
        let e : i / 64 ≡ suc (suc (suc (suc (i / 64 - 4)))) = omega arith in
        rw e (bit-zero (i % 64));
  };
  width = refl;
}

-- `add %r0, %r1`, a label, and `mov %r1, %r2`.
abbrev body : List Entry
body =
    instruction 10 (registers 2) (registers 3)
    ∷ other
    ∷ instruction 11 (registers 4) (registers 2)
    ∷ []

body-IsMasked : All IsMasked body
body-IsMasked = (
  (registers-Fits 2 (omega arith), registers-Fits 3 (omega arith)),
  (tt, ((registers-Fits 4 (omega arith), registers-Fits 2 (omega arith)), tt)),
)

block_summary_example :
    (gen kill : BitString) × (create_gen_set body ≡ some gen)
    × (create_kill_set body ≡ some kill)
    × Fits num_bits gen
    × Fits num_bits kill
    × ((out : ℕ → Bool) (r : ℕ)
        → (member gen r || (out r && not (member kill r))) ≡ live_before body out r)
block_summary_example = block_summary body body-IsMasked

get_live-Yields_example :
    Yields
      (get_live (registers 0) body 10)
      num_bits
      (live_before (other ∷ instruction 11 (registers 4) (registers 2) ∷ []) (member (registers 0)))
get_live-Yields_example =
    get_live-Yields (registers 0) [] (other ∷ instruction 11 (registers 4) (registers 2) ∷ []) 10
      (registers 2) (registers 3) (registers-Fits 0 (omega arith)) body-IsMasked.1 (tt, (refl, tt))

-- Block 2 holds `body` and leads to itself and to the empty block 3.
abbrev cfg : Cfg
cfg = record {
  blocks = 2 ∷ 3 ∷ [];
  in_edges = λ b. [];
  out_edges = λ b.
      if b == 2 then record { source = b; dest = 2 } ∷ record { source = b; dest = 3 } ∷ [] else [];
}

abbrev entries : ℕ → List Entry
entries b = if b == 2 then body else []

abbrev gen : ℕ → BitString
gen b = if b == 2 then registers 3 else registers 0

abbrev kill : ℕ → BitString
kill b = if b == 2 then registers 6 else registers 0

masked : (b : ℕ) → All IsMasked (entries b)
masked b = elim (Bool-cases (b == 2)) [ inl e ↦ rw e body-IsMasked | inr e ↦ rw e tt ]

own_edges :
    (b : ℕ)
    → elem b cfg.blocks ≡ true
    → All (λ e. (e.source ≡ b) × (elem e.dest cfg.blocks ≡ true)) (cfg.out_edges b)
own_edges b h = elim (Bool-cases (b == 2)) [
  | inl e ↦ rw e ((refl, refl), ((refl, refl), tt))
  | inr e ↦ rw e tt
]

gen_made : (b : ℕ) → create_gen_set (entries b) ≡ some (gen b)
unfolding create_gen_set gen_loop transfer union minus combine zip_words init_obj
gen_made b = elim (Bool-cases (b == 2)) [ inl e ↦ rw e refl | inr e ↦ rw e refl ]

kill_made : (b : ℕ) → create_kill_set (entries b) ≡ some (kill b)
unfolding create_kill_set kill_loop transfer union minus combine zip_words init_obj
kill_made b = elim (Bool-cases (b == 2)) [ inl e ↦ rw e refl | inr e ↦ rw e refl ]

solve_runs :
    (r : Maps) × (solve (problem cfg (λ b. b) gen kill) false ≡ some r)
    × (r.entry_map 2 ≡ registers 3)
    × (r.entry_map 3 ≡ registers 0)
unfolding solve initialize iterate round visit recompute confluence_blocks collect insert union_all
    fold_sets transfer union minus combine zip_words init_obj equals words_eq
solve_runs = (_, refl, refl, refl)

solve-iff-LiveOut_example : (member (solve_runs.0.entry_map 2) 0 ≡ true) ↔ LiveOut cfg entries 0 2
solve-iff-LiveOut_example =
    solve-iff-LiveOut cfg (λ b. b) entries
      (record { masked = masked; own_edges = own_edges; distinct = λ x y e. e }) gen kill gen_made
      kill_made solve_runs.0 solve_runs.1 2 0 refl
