-- ===== src/Liveness/Spec.antt =====
-- What `Liveness` (src/MaoLiveness.cc) answers, in terms of the instructions: a register is live where
-- some way on through the code reads it before it is written.
use mathlib.Core.List.{reverse, reverse-cons, reverse-append, append_assoc, Memᴰ}
use mao.Prelude.{
  ℕ, ◌/◌, ◌%◌, ◌≡◌, refl, ◌↔◌, Bool, true, false, not, ◌&&◌, ◌||◌, List, [], ◌∷◌, ◌++◌, some, arith,
  ◌==◌, Bool-cases, Option-cases, inl, inr, All, replicate, get_or-replicate, ==_refl, All-append,
}
use mao.Prelude.Bits.{bit-zero}
use mao.Prelude.Checked.{◌>>=◌}
use mao.BitString.{BitString}
use mao.BitString.Members.{member}
use mao.BitString.Algebra.{Yields}
use mao.DataFlow.{BasicBlockEdge, Cfg, Maps, transfer, solve}
use mao.DataFlow.Sets.{Fits}
use mao.DataFlow.Invariant.{elem, IsUnionProblem}
use mao.DataFlow.Paths.{Flows, generated, passed, solve-iff-Flows}
use mao.Liveness.{
  Entry, instruction, other, num_bits, gen_loop, create_gen_set, create_kill_set, live_loop,
  get_live, problem,
}
use mao.Liveness.Block.{IsMasked, live_before, nothing, gen_loop-Yields, block_summary}

-- No instruction of the list stands at `address`.
abbrev pub Lacks : ℕ → Entry → Type 0
Lacks insn other = Unit
Lacks insn (instruction address _ _) = (address == insn) ≡ false

live_loop-append :
    (insn : ℕ) (c : BitString) (xs ys : List Entry)
    → All (Lacks insn) xs
    → live_loop insn c (xs ++ ys) ≡ (gen_loop c xs >>= λ c'. live_loop insn c' ys)
unfolding live_loop gen_loop
live_loop-append insn c [] ys h = refl
live_loop-append insn c (other ∷ xs) ys h = live_loop-append insn c xs ys h.1
live_loop-append insn c (instruction a d u ∷ xs) ys h = elim (Option-cases (transfer c u d)) [
  | inl e ↦ rw (h.0, e)
  | inr (c', e) ↦ rw (h.0, e) (live_loop-append insn c' xs ys h.1)
]

All-reverse {κ} : (P : Entry → Type κ) (xs : List Entry) → All P xs → All P (reverse xs)
All-reverse P [] h = tt
All-reverse P (x ∷ xs) h =
    rw reverse-cons (All-append P (reverse xs) (x ∷ []) (All-reverse P xs h.1) (h.0, tt))

-- Where the out set and the masks behind an instruction have 256 bits and it does not occur again
-- behind its place, `GetLive` at it returns exactly the registers that are live behind it: those that
-- the rest of the block reads before it writes them, and those that it does not write and that are
-- live behind the block.
pub get_live-Yields :
    (out : BitString) (before after : List Entry) (insn : ℕ) (def_mask use_mask : BitString)
    → Fits num_bits out
    → All IsMasked after
    → All (Lacks insn) after
    → Yields
        (get_live out (before ++ instruction insn def_mask use_mask ∷ after) insn)
        num_bits
        (live_before after (member out))
unfolding get_live live_loop
get_live-Yields out before after insn d u f masked absent =
    let (c, e, v, w, m) = gen_loop-Yields after out f masked in
    (
      c,
      rw (
        reverse-append before (instruction insn d u ∷ after),
        reverse-cons (instruction insn d u) after,
        append_assoc,
        live_loop-append insn out (reverse after) (instruction insn d u ∷ reverse before)
            (All-reverse (Lacks insn) after absent),
        e,
        ==_refl,
      ),
      v,
      w,
      m,
    )

abbrev everything : ℕ → Bool
everything r = true

-- Register `r` is live behind block `b`: along an edge, the next block reads it before writing it,
-- or leaves it alone and it is live behind that block.
pub data LiveOut (cfg : Cfg) (entries : ℕ → List Entry) (r : ℕ) : ℕ → Type 0 where
  read :
      {b : ℕ} (e : BasicBlockEdge)
      → Memᴰ e (cfg.out_edges b)
      → live_before (entries e.dest) nothing r ≡ true
      → LiveOut cfg entries r b
  carried :
      {b : ℕ} (e : BasicBlockEdge)
      → Memᴰ e (cfg.out_edges b)
      → live_before (entries e.dest) everything r ≡ true
      → LiveOut cfg entries r e.dest
      → LiveOut cfg entries r b

-- A function as `Liveness` reads it: a graph whose edges start at their block and stay inside, and
-- instructions whose masks have 256 bits.
pub record IsFunction (cfg : Cfg) (address : ℕ → ℕ) (entries : ℕ → List Entry) : Type 0 where
  pub masked : (b : ℕ) → All IsMasked (entries b)
  pub own_edges :
      (b : ℕ)
      → elem b cfg.blocks ≡ true
      → All (λ e. (e.source ≡ b) × (elem e.dest cfg.blocks ≡ true)) (cfg.out_edges b)
  pub distinct : (x y : ℕ) → address x ≡ address y → x ≡ y

no_registers :
    (i : ℕ) → member (record { word = replicate 4 0; number_of_bits = num_bits }) i ≡ false
no_registers i = rw (get_or-replicate {A = ℕ} 4 (i / 64) 0) (bit-zero (i % 64))

module _ (cfg : Cfg) (address : ℕ → ℕ) (entries : ℕ → List Entry)
    (f : IsFunction cfg address entries) (gen kill : ℕ → BitString)
    (gen_made : (b : ℕ) → create_gen_set (entries b) ≡ some (gen b))
    (kill_made : (b : ℕ) → create_kill_set (entries b) ≡ some (kill b)) where
  -- What `block_summary` says of the sets that the problem has.
  summary :
      (b : ℕ)
      → Fits num_bits (gen b)
        × Fits num_bits (kill b)
        × ((out : ℕ → Bool) (r : ℕ)
            → (member (gen b) r || (out r && not (member (kill b) r)))
              ≡ live_before (entries b) out r)
  summary b =
      let (g, k, eg, ek, fg, fk, same) = block_summary (entries b) (f.masked b) in
      let sg : g ≡ gen b = cc (eg, gen_made b) in
      let sk : k ≡ kill b = cc (ek, kill_made b) in (rw sg at fg, rw sk at fk, rw (sg, sk) at same)

  problem-IsUnionProblem : IsUnionProblem (problem cfg address gen kill)
  problem-IsUnionProblem = record {
    positive = omega arith;
    gen_fits = λ b. (summary b).0;
    kill_fits = λ b. (summary b).1;
    initial_fits = record {
      valid = record {
        positive = omega arith;
        size = refl;
        words = omega arith;
        unused = λ i le. no_registers i;
      };
      width = refl;
    };
    initial_empty = no_registers;
    by_union = λ x xs. refl;
    own_edges = f.own_edges;
    distinct = f.distinct;
  }

  Flows→LiveOut : {i b : ℕ} → Flows (problem cfg address gen kill) i b → LiveOut cfg entries i b
  Flows→LiveOut {i} (generated e at g) = read e at (ground (arith, (summary e.dest).2 nothing i))
  Flows→LiveOut {i} (passed e at k w) =
      carried e at (ground (arith, (summary e.dest).2 everything i)) (Flows→LiveOut w)

  LiveOut→Flows : {i b : ℕ} → LiveOut cfg entries i b → Flows (problem cfg address gen kill) i b
  LiveOut→Flows {i} (read e at l) = generated e at (ground (arith, (summary e.dest).2 nothing i))
  LiveOut→Flows {i} (carried e at l w) = elim (Bool-cases (member (gen e.dest) i)) [
    | inl g ↦ generated e at g
    | inr g ↦ passed e at (ground (arith, (summary e.dest).2 everything i)) (LiveOut→Flows w)
  ]

  -- For a function as `IsFunction` asks it to be, with the sets that `CreateGenSet` and `CreateKillSet`
  -- return for its blocks: if `Solve` returns, the set that it keeps for a block of the graph holds
  -- exactly the registers that are live behind the block.
  pub solve-iff-LiveOut :
      (r : Maps)
      → solve (problem cfg address gen kill) false ≡ some r
      → (b i : ℕ) → elem b cfg.blocks ≡ true
      → (member (r.entry_map b) i ≡ true) ↔ LiveOut cfg entries i b
  solve-iff-LiveOut r e b i inside =
      let iff =
        solve-iff-Flows (problem cfg address gen kill) problem-IsUnionProblem r e b i inside in
      (λ t. Flows→LiveOut (iff.0 t), λ l. iff.1 (LiveOut→Flows l))
