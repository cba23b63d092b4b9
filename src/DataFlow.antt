-- ===== src/DataFlow.antt =====
-- src/MaoDataFlow.h and src/MaoDataFlow.cc: class `DFProblem`, the solver for bit-vector problems.
-- A basic block is a number, which stands for its address. `MaoUnit`, the function's name and the
-- traces on stderr play no part in the solution and are left out; so are null pointers.
pub mod Sets
pub mod Invariant
pub mod Visit
pub mod Moves
pub mod Measure
pub mod Rounds
pub mod Least
pub mod Solution
pub mod Paths
mod Examples
use mao.Prelude.{
  ℕ, zero, suc, ◌≡◌, Bool, true, false, not, ◌&&◌, List, [], ◌∷◌, map, some, none, ltb, ◌==◌,
  if◌then◌else◌, length, replicate,
}
use mao.Prelude.Checked.{Checked, ◌>>=◌, ◌>>◌, mao_assert}
use mao.BitString.{BitString, union, intersect, minus, equals}

-- `DFProblemDirection`
pub data DfProblemDirection : Type 0 where
  df_forward df_backward : DfProblemDirection

-- `BasicBlockEdge`: the ends of an edge
pub record BasicBlockEdge : Type 0 where
  pub source : ℕ
  pub dest : ℕ

-- What the solver reads of a `CFG`: its blocks in the order of `FORALL_CFG_BB`, and their edges.
pub record Cfg : Type 0 where
  pub blocks : List ℕ
  pub in_edges : ℕ → List BasicBlockEdge
  pub out_edges : ℕ → List BasicBlockEdge

-- A `DFProblem` as its subclasses complete it. `address` gives the place of a block's exit set in
-- memory, by which `std::set<BitString *>` orders its elements.
pub record DfProblem : Type 0 where
  pub cfg : Cfg
  pub direction : DfProblemDirection
  pub num_bits : ℕ
  pub create_gen_set : ℕ → BitString
  pub create_kill_set : ℕ → BitString
  pub get_initial_entry_state : BitString
  pub confluence : List BitString → Checked BitString
  pub address : ℕ → ℕ

-- `entry_map` and `exit_map`
pub record Maps : Type 0 where
  pub entry_map : ℕ → BitString
  pub exit_map : ℕ → BitString

abbrev pub update {ℓ} : {A : Type ℓ} → (ℕ → A) → ℕ → A → ℕ → A
update f b v x = if x == b then v else f x

-- `DFProblem::Transfer`: out = gen U (in - kill)
unfoldable pub transfer : BitString → BitString → BitString → Checked BitString
transfer inset gen kill = do rest ← minus inset kill; union gen rest

-- The loops of `Union` and `Intersect` behind the first element
unfoldable pub fold_sets :
    (BitString → BitString → Checked BitString) → BitString → List BitString → Checked BitString
fold_sets op out_set [] = some out_set
fold_sets op out_set (x ∷ xs) = do out' ← op out_set x; fold_sets op out' xs

-- `DFProblem::Union`
unfoldable pub union_all : List BitString → Checked BitString
union_all [] = none
union_all (x ∷ xs) = fold_sets union x xs

-- `DFProblem::Intersect`
unfoldable pub intersect_all : List BitString → Checked BitString
intersect_all [] = none
intersect_all (x ∷ xs) = fold_sets intersect x xs

-- `confluence_set.insert(&exit_map[b])`, the set as the list of its blocks by address
unfoldable pub insert : (ℕ → ℕ) → ℕ → List ℕ → List ℕ
insert address b [] = b ∷ []
insert address b (c ∷ cs) =
    if ltb (address b) (address c)
    then b ∷ c ∷ cs
    else if address b == address c
    then c ∷ cs
    else c ∷ insert address b cs

-- The loops over the edges of `bb`: `near` is the end that must be `bb`, `far` the block whose exit
-- set joins the confluence set.
unfoldable pub collect :
    (ℕ → ℕ)
    → (BasicBlockEdge → ℕ)
    → (BasicBlockEdge → ℕ)
    → ℕ
    → List BasicBlockEdge
    → List ℕ
    → Checked (List ℕ)
collect address near far bb [] confluence_set = some confluence_set
collect address near far bb (e ∷ es) confluence_set = do
  mao_assert (near e == bb)
  collect address near far bb es (insert address (far e) confluence_set)

module _ (p : DfProblem) where
  open p use {cfg, direction, create_gen_set, create_kill_set, confluence, address}

  unfoldable pub confluence_blocks : ℕ → Checked (List ℕ)
  confluence_blocks bb = elim direction [
    | df_backward ↦ collect address (λ e. e.source) (λ e. e.dest) bb (cfg.out_edges bb) []
    | df_forward ↦ collect address (λ e. e.dest) (λ e. e.source) bb (cfg.in_edges bb) []
  ]

  -- The initial sets of the blocks
  unfoldable pub initialize : List ℕ → Maps → Checked Maps
  initialize [] m = some m
  initialize (bb ∷ bbs) m = do
    exit ← transfer p.get_initial_entry_state (create_gen_set bb) (create_kill_set bb)
    initialize bbs (record {
      entry_map = update m.entry_map bb p.get_initial_entry_state;
      exit_map = update m.exit_map bb exit;
    })

  -- The body of the inner loop where the confluence set is not empty
  unfoldable pub recompute : ℕ → List ℕ → Maps × Bool → Checked (Maps × Bool)
  recompute bb confluence_set (m, dirty) = do
    entry_new ← confluence (map m.exit_map confluence_set)
    same ← equals entry_new (m.entry_map bb)
    if same then some (m, dirty) else do
      exit_new ← transfer entry_new (create_gen_set bb) (create_kill_set bb)
      some (
        record {
          entry_map = update m.entry_map bb entry_new;
          exit_map = update m.exit_map bb exit_new;
        },
        true,
      )

  -- The body of the inner loop
  unfoldable pub visit : ℕ → Maps × Bool → Checked (Maps × Bool)
  visit bb s = do
    confluence_set ← confluence_blocks bb
    if ltb 0 (length confluence_set) then recompute bb confluence_set s else some s

  -- One round over the blocks
  unfoldable pub round : List ℕ → Maps × Bool → Checked (Maps × Bool)
  round [] s = some s
  round (bb ∷ bbs) s = do s' ← visit bb s; round bbs s'

  -- The `do ... while (dirty)` loop, with `left` of its iterations to go before the assertion on
  -- their number fails.
  unfoldable pub iterate : ℕ → Maps → Checked Maps
  iterate zero m = do s ← round cfg.blocks (m, false); none
  iterate (suc left) m = do
    (m', dirty) ← round cfg.blocks (m, false)
    elim dirty [ true ↦ iterate left m' | false ↦ some m' ]

-- `BitString()`, the value of a map at a key that was never written
abbrev pub default_bit_string : BitString
default_bit_string = record { word = replicate 4 0; number_of_bits = 256 }

abbrev pub no_sets : Maps
no_sets = record { entry_map = λ _. default_bit_string; exit_map = λ _. default_bit_string }

-- `kMaxNumberOfIterations`
abbrev pub max_number_of_iterations : ℕ
max_number_of_iterations = 1000

-- `DFProblem::Solve`: the flag `solved_` before the call, and the entry map after it
unfoldable pub solve : DfProblem → Bool → Checked Maps
solve p solved = do
  mao_assert (not solved)
  if ltb 0 p.num_bits
      then initialize p p.cfg.blocks no_sets >>= iterate p max_number_of_iterations
      else some no_sets

-- `GetInSet` and `GetOutSet`, on a solution
unfoldable pub get_in_set : DfProblem → Maps → ℕ → Checked BitString
get_in_set p solution bb = elim p.direction [
  | df_forward ↦ some (solution.entry_map bb)
  | df_backward ↦ none
]

unfoldable pub get_out_set : DfProblem → Maps → ℕ → Checked BitString
get_out_set p solution bb = elim p.direction [
  | df_backward ↦ some (solution.entry_map bb)
  | df_forward ↦ none
]
