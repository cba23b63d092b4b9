-- ===== src/Loops.antt =====
-- src/MaoLoops.cc, the parts of Havlak's loop recognition that stand alone: the nodes of the union
-- and find forest (`UnionFindNode`), the depth first numbering of the blocks (`DFS`) and the test
-- `IsAncestor`. A node is its place in the vector `nodes`, which is its number `dfs_` too; a block is
-- its address, `NULL` and `kUnvisited` are `none`. The result `none` is a failed assertion, a use
-- of `NULL`, or lack of fuel.
pub mod Forest
pub mod Union
pub mod Numbers
pub mod Dfs
pub mod Preorder
mod Examples
use mao.Prelude.{
  ℕ, zero, suc, ◌+◌, ◌-◌, Bool, true, false, ◌&&◌, Option, some, none, List, [], ◌∷◌, ◌++◌, leb,
  ◌==◌, if◌then◌else◌,
}
use mao.Prelude.Checked.{Checked, ◌>>=◌, ◌>>◌, mao_assert}

-- The fields `parent_` of the nodes
abbrev pub Parents : Type 0
Parents = ℕ → Option ℕ

unfoldable pub assign : {A : Type 0} → (ℕ → A) → ℕ → A → ℕ → A
assign m k v j = if j == k then v else m j

-- The loop of `FindSet`, with `nodeList` so far
unfoldable pub find_set_loop : ℕ → Parents → ℕ → List ℕ → Checked (ℕ × List ℕ)
find_set_loop zero parent node node_list = none
find_set_loop (suc fuel) parent node node_list = do
  p ← parent node
  elim (node == p) [
    | true ↦ some (node, node_list)
    | false ↦ do
      g ← parent p
      find_set_loop fuel parent p (if p == g then node_list else node_list ++ node ∷ [])
  ]

-- Path compression
unfoldable pub compress : List ℕ → ℕ → Parents → Parents
unfolding assign
compress [] root parent = parent
compress (node ∷ nodes) root parent = compress nodes root (assign parent node (some root))

-- `MAO_ASSERT(pointer)`
abbrev pub assert_some : Option ℕ → Checked (Unit {0})
assert_some none = none
assert_some (some a) = some tt

-- `FindSet` of a node with the field `bb_` that is given
unfoldable pub find_set : ℕ → Option ℕ → ℕ → Parents → Checked (ℕ × Parents)
unfolding find_set_loop compress
find_set fuel bb this parent = do
  assert_some (parent this)
  assert_some bb
  (root, node_list) ← find_set_loop fuel parent this []
  some (root, compress node_list root parent)

-- `Union`
unfoldable pub union_with : ℕ → ℕ → Parents → Parents
unfolding assign
union_with this b parent = assign parent this (some b)

-- What `DFS` keeps: the nodes with their blocks, `number` by block, `last` by number, and `current_`
pub record Search : Type 0 where
  pub parent : Parents
  pub bb : ℕ → Option ℕ
  pub number : ℕ → Option ℕ
  pub last : ℕ → ℕ
  pub current : ℕ

-- `Init` of the next node, and its number
unfoldable pub enter : ℕ → Search → Search
unfolding assign
enter a s = record {
  parent = assign s.parent s.current (some s.current);
  bb = assign s.bb s.current (some a);
  number = assign s.number a (some s.current);
  last = s.last;
  current = suc s.current;
}

-- `(*last)[(*number)[a]] = current_-1`
unfoldable pub leave : ℕ → Search → Checked Search
unfolding assign
leave a s = do n ← s.number a; some (record s { last = assign s.last n (s.current - 1) })

-- The loop over the out edges, with the call of `DFS` in it
unfoldable pub dfs_edges : (ℕ → Search → Checked Search) → List ℕ → Search → Checked Search
dfs_edges call [] s = some s
dfs_edges call (target ∷ targets) s = elim (s.number target) [
  | none ↦ call target s >>= dfs_edges call targets
  | some n ↦ dfs_edges call targets s
]

-- `DFS`; `dests` are the blocks that the out edges of a block lead to.
unfoldable pub dfs : (ℕ → List ℕ) → ℕ → ℕ → Search → Checked Search
unfolding enter leave dfs_edges
dfs dests zero a s = none
dfs dests (suc fuel) a s = do t ← dfs_edges (dfs dests fuel) (dests a) (enter a s); leave a t

-- `IsAncestor`
unfoldable pub is_ancestor : ℕ → ℕ → (ℕ → ℕ) → Bool
is_ancestor w v last = leb w v && leb v (last w)

-- The state that `FindLoops` starts the search with: no block has a number.
unfoldable pub unnumbered : Search
unnumbered = record {
  parent = λ i. none;
  bb = λ i. none;
  number = λ b. none;
  last = λ n. 0;
  current = 0;
}
