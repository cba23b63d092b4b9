-- ===== src/Loops/Union.antt =====
-- src/MaoLoops.cc, `UnionFindNode::Union`: `FindSet` behind it sees the two trees as one.
use mao.Prelude.{
  ℕ, ◌≤◌, ◌<◌, ◌≡◌, ◌∙◌, inl, inr, true, some, arith, ◌==◌, Bool-cases, if◌then◌else◌,
}
use mao.Loops.{Parents, assign, find_set, union_with}
use mao.Loops.Forest.{
  Root, here, step, IsForest, assign_same, assign_other, Root-unique, find_set-RootFound,
}

-- The root of a node under `q`, after the root `a` went under a node of `r`
unfoldable pub merged : ℕ → ℕ → ℕ → ℕ
merged a r q = if q == a then r else q

Root-some : {parent : Parents} {i r : ℕ} → Root parent i r → (q : ℕ) × (parent i ≡ some q)
Root-some (here {r} e) = (r, e)
Root-some (step {p} e n t) = (p, e)

module _ {parent : Parents} (forest : IsForest parent) (a b r : ℕ) (root_a : parent a ≡ some a)
    (rb : Root parent b r) (lower : b < a) where
  abbrev after : Parents
  after = union_with a b parent

  -- A tree whose nodes are below `a` stays.
  Root-below : {j q : ℕ} → j < a → Root parent j q → Root after j q
  unfolding union_with
  Root-below {j} lt (here e) = here (assign_other parent a j (some b) (ground arith) ∙ e)
  Root-below {j} lt (step {p} e n t) =
      step (assign_other parent a j (some b) (ground arith) ∙ e) n
        (Root-below (ground (arith, forest.earlier j p e)) t)

  Root-joined : Root after a r
  unfolding union_with
  Root-joined = step (assign_same parent a (some b)) (ground arith) (Root-below lower rb)

  pub Root-union_with : {j q : ℕ} → Root parent j q → Root after j (merged a r q)
  unfolding union_with merged
  Root-union_with (here {r = j} e) = elim (Bool-cases (j == a)) [
    | inl h ↦ let f : j ≡ a = ground arith in rw h (rw f Root-joined)
    | inr h ↦ rw h (here (assign_other parent a j (some b) h ∙ e))
  ]
  Root-union_with (step {i = j} {p} {r = q} e n t) = elim (Bool-cases (j == a)) [
    | inl h ↦
        let f : j ≡ a = ground arith in
        let g : q ≡ a = Root-unique (step e n t) (rw f (here root_a)) in
        let k : (q == a) ≡ true = ground arith in rw k (rw f Root-joined)
    | inr h ↦ step (assign_other parent a j (some b) h ∙ e) n (Root-union_with t)
  ]

  union_some : (p q : ℕ) → parent p ≡ some q → (x : ℕ) × (after p ≡ some x)
  unfolding union_with assign
  union_some p q e = elim (Bool-cases (p == a)) [ inl h ↦ (b, rw h) | inr h ↦ (q, rw h e) ]

  union_earlier : (i p : ℕ) → after i ≡ some p → p ≤ i
  unfolding union_with assign
  union_earlier i p e = ground (arith, forest.earlier i p)

  union_closed : (i p : ℕ) → after i ≡ some p → (q : ℕ) × (after p ≡ some q)
  unfolding union_with assign
  union_closed i p e = elim (Bool-cases (i == a)) [
    | inl h ↦ let f : p ≡ b = ground arith in let (q, up) = Root-some rb in rw f (union_some b q up)
    | inr h ↦
        let old : parent i ≡ some p = ground arith in
        let (q, up) = forest.closed i p old in union_some p q up
  ]

  pub IsForest-union_with : IsForest after
  IsForest-union_with = record { earlier = union_earlier; closed = union_closed }

-- After `Union` of the root `a` with an earlier node `b`, `FindSet` gives the nodes of the tree of `a` the
-- root of `b`, and all others the root that they had.
pub find_set-union_with :
    (fuel i q bb a b r : ℕ) (parent : Parents)
    → IsForest parent
    → parent a ≡ some a
    → Root parent b r
    → b < a
    → Root parent i q
    → i < fuel
    → (parent' : Parents) × (find_set fuel (some bb) i (union_with a b parent)
        ≡ some (merged a r q, parent'))
      × IsForest parent'
find_set-union_with fuel i q bb a b r parent forest root_a rb lower iq n =
    let up = IsForest-union_with forest a b r root_a rb lower in
    let joined = Root-union_with forest a b r root_a rb lower iq in
    let (p, has_parent) = Root-some joined in
    let (r', parent', run, found) =
      find_set-RootFound fuel i bb p (union_with a b parent) up has_parent n in
    let same = Root-unique found.root joined in (parent', rw same at run, found.rest.forest)
