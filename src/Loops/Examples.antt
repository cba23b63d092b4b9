-- ===== src/Loops/Examples.antt =====
-- Runs of the union and find forest and of the numbering of src/MaoLoops.cc.
use mao.Prelude.{
  ℕ, ◌-◌, ◌≡◌, refl, inl, inr, arith, Bool, true, false, some, List, [], ◌∷◌, ◌==◌, Bool-cases,
  if◌then◌else◌,
}
use mao.Prelude.Checked.{◌>>=◌}
use mao.Loops.{Parents, Search, find_set, union_with, dfs, unnumbered, assign}
use mao.Loops.Forest.{Root, here, step, IsForest, RootFound, find_set-RootFound}
use mao.Loops.Union.{merged, find_set-union_with}
use mao.Loops.Numbers.{Member, first, later}
use mao.Loops.Preorder.{IsPreorder, dfs-IsPreorder}

-- The chain 3, 2, 1, 0; the node 4 is a root of its own.
abbrev chain : Parents
chain i = if i == 4 then some 4 else some (i - 1)

chain-some : (i : ℕ) → (q : ℕ) × (chain i ≡ some q)
chain-some i = elim (Bool-cases (i == 4)) [ inl e ↦ (4, rw e) | inr e ↦ (i - 1, rw e) ]

chain-IsForest : IsForest chain
chain-IsForest = record { earlier = λ i p e. ground arith; closed = λ i p e. chain-some p }

find_set-RootFound_example :
    (r : ℕ) × (parent' : Parents) × (find_set 4 (some 100) 3 chain ≡ some (r, parent'))
    × RootFound chain 3 r parent'
find_set-RootFound_example = find_set-RootFound 4 3 100 2 chain chain-IsForest refl (omega arith)

two-Root : Root chain 2 0
two-Root = step refl refl (step refl refl (here refl))

find_set-union_with_example :
    (parent' : Parents) × (find_set 5 (some 100) 4 (union_with 4 2 chain)
      ≡ some (merged 4 0 4, parent'))
    × IsForest parent'
find_set-union_with_example =
    find_set-union_with 5 4 4 100 4 2 0 chain chain-IsForest refl two-Root (omega arith) (here refl)
      (omega arith)

-- Block 0 leads to 1 and 2, both lead back to it.
abbrev dests : ℕ → List ℕ
dests b = if b == 0 then 1 ∷ 2 ∷ [] else 0 ∷ []

abbrev blocks : List ℕ
blocks = 0 ∷ 1 ∷ 2 ∷ []

Member-dests : (t : Bool) (d : ℕ) → Member d (if t then 1 ∷ 2 ∷ [] else 0 ∷ []) → Member d blocks
Member-dests true d m = later m
Member-dests false d first = first
Member-dests false d (later m) = elim m [ ]

dfs-IsPreorder_example : (t : Search) × (dfs dests 3 0 unnumbered ≡ some t) × IsPreorder dests 0 t
dfs-IsPreorder_example =
    dfs-IsPreorder 3 0 blocks dests first (λ b d m. Member-dests (b == 0) d m) (omega arith)

-- Block 2 gets the number 2, which ends its own range.
last_of_two : (dfs dests 3 0 unnumbered >>= λ t. some (t.last 2)) ≡ some 2
unfolding dfs unnumbered assign
last_of_two = refl
