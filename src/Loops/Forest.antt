-- ===== src/Loops/Forest.antt =====
-- src/MaoLoops.cc, `UnionFindNode::FindSet`: it returns the root of a node, and path compression
-- changes no root.
use mao.Prelude.{
  ℕ, zero, suc, ◌≤◌, ◌<◌, ◌≡◌, ◌⊎◌, refl, ap, ◌∙◌, inl, inr, true, false, Option, none, some, List,
  [], ◌∷◌, ◌++◌, arith, ◌==◌, ==_refl, Bool-cases, if◌then◌else◌, All, All-append, All-mono,
}
use mao.Prelude.Checked.{Checked, ◌>>=◌}
use mao.Loops.{Parents, assign, find_set_loop, compress, find_set}

-- The parents lead from a node to the root.
pub data Root (parent : Parents) : ℕ → ℕ → Type 0 where
  here : {r : ℕ} → parent r ≡ some r → Root parent r r
  step : {i p r : ℕ} → parent i ≡ some p → (i == p) ≡ false → Root parent p r → Root parent i r

-- Every node with a parent has one with a smaller number, or is its own; its parent has one.
pub record IsForest (parent : Parents) : Type 0 where
  pub earlier : (i p : ℕ) → parent i ≡ some p → p ≤ i
  pub closed : (i p : ℕ) → parent i ≡ some p → (q : ℕ) × (parent p ≡ some q)

pub assign_same : {A : Type 0} (m : ℕ → A) (k : ℕ) (v : A) → assign m k v k ≡ v
unfolding assign
assign_same m k v = rw ==_refl

pub assign_other :
    {A : Type 0} (m : ℕ → A) (k j : ℕ) (v : A) → (j == k) ≡ false → assign m k v j ≡ m j
unfolding assign
assign_other m k j v e = rw e

pub Root-top : {parent : Parents} {i r : ℕ} → Root parent i r → parent r ≡ some r
Root-top (here e) = e
Root-top (step e n t) = Root-top t

pub some_eq : (a b : ℕ) (q : Option ℕ) → q ≡ some a → q ≡ some b → a ≡ b
some_eq a b none e f = cc
some_eq a b (some c) e f = ground arith

-- A node has one root.
pub Root-unique : {parent : Parents} {i r q : ℕ} → Root parent i r → Root parent i q → r ≡ q
Root-unique {parent} (here {r} e) (here f) = refl
Root-unique {parent} (here {r} e) (step {p} f n t) =
    let same : r ≡ p = some_eq r p (parent r) e f in absurd (ground arith)
Root-unique {parent} (step {i} {p} e n s) (here f) =
    let same : p ≡ i = some_eq p i (parent i) e f in absurd (ground arith)
Root-unique {parent} {i} {r} {q} (step {p} e n s) (step {p = p'} f m t) =
    let same : p' ≡ p = some_eq p' p (parent i) f e in Root-unique s (rw same at t)

-- The node and its root, the latter earlier
pub Root-le : (parent : Parents) → IsForest parent → {i r : ℕ} → Root parent i r → r ≤ i
Root-le parent f (here e) = omega arith
Root-le parent f (step {i} {p} e n t) = omega (arith, f.earlier i p e, Root-le parent f t)

-- A write of the root to one of its nodes keeps all roots.
module _ {parent : Parents} (k r : ℕ) (kr : Root parent k r) where
  abbrev after : Parents
  after = assign parent k (some r)

  root_stays : after r ≡ some r
  unfolding assign
  root_stays = elim (Bool-cases (r == k)) [ inl e ↦ rw e | inr e ↦ rw e (Root-top kr) ]

  Root-here : Root after k r
  Root-here = elim (Bool-cases (k == r)) [
    | inl e ↦ let f : k ≡ r = ground arith in rw f (here (rw f at root_stays))
    | inr e ↦ step (assign_same parent k (some r)) e (here root_stays)
  ]

  Root-there : (j q : ℕ) → (j == k) ≡ true → Root parent j q → Root after j q
  Root-there j q e t =
      let f : j ≡ k = ground arith in
      let g : r ≡ q = Root-unique kr (rw f at t) in rw (f, ← g) Root-here

  Root-assign : {j q : ℕ} → Root parent j q → Root after j q
  Root-assign (here {r = j} f) = elim (Bool-cases (j == k)) [
    | inl e ↦ Root-there j j e (here f)
    | inr e ↦ here (assign_other parent k j (some r) e ∙ f)
  ]
  Root-assign (step {i = j} {p} {r = q} f n t) = elim (Bool-cases (j == k)) [
    | inl e ↦ Root-there j q e (step f n t)
    | inr e ↦ step (assign_other parent k j (some r) e ∙ f) n (Root-assign t)
  ]

  after-some : (p q : ℕ) → parent p ≡ some q → (x : ℕ) × (after p ≡ some x)
  unfolding assign
  after-some p q e = elim (Bool-cases (p == k)) [ inl h ↦ (r, rw h) | inr h ↦ (q, rw h e) ]

  IsForest-assign : IsForest parent → IsForest after
  unfolding assign
  IsForest-assign f = record {
    earlier = λ i p e. ground (arith, f.earlier i p, Root-le parent f kr);
    closed = λ i p e. elim (Bool-cases (i == k)) [
      | inl h ↦ let g : r ≡ p = ground arith in (r, rw (← g) root_stays)
      | inr h ↦
          let old : parent i ≡ some p = ground arith in
          let (q, next) = f.closed i p old in after-some p q next
    ];
  }

-- What path compression leaves alone
pub record SameRoots (parent parent' : Parents) : Type 0 where
  pub forest : IsForest parent'
  pub roots : (j q : ℕ) → Root parent j q → Root parent' j q

compress-SameRoots :
    (nodes : List ℕ) (r : ℕ) (parent : Parents)
    → IsForest parent
    → All (λ k. Root parent k r) nodes
    → SameRoots parent (compress nodes r parent)
unfolding compress
compress-SameRoots [] r parent f all = record { forest = f; roots = λ j q t. t }
compress-SameRoots (k ∷ nodes) r parent f all =
    let rest = compress-SameRoots nodes r (assign parent k (some r)) (IsForest-assign k r all.0 f) (
      All-mono (λ j. Root parent j r) (λ j. Root (assign parent k (some r)) j r) nodes
        (λ j t. Root-assign k r all.0 t) all.1) in
    record { forest = rest.forest; roots = λ j q t. rest.roots j q (Root-assign k r all.0 t) }

append_nil : (xs : List ℕ) → xs ++ [] ≡ xs
append_nil [] = refl
append_nil (y ∷ xs) = ap (λ (l : List ℕ). y ∷ l) (append_nil xs)

append_snoc : (xs : List ℕ) (x : ℕ) (ys : List ℕ) → (xs ++ (x ∷ [])) ++ ys ≡ xs ++ (x ∷ ys)
append_snoc [] x ys = refl
append_snoc (y ∷ xs) x ys = ap (λ (l : List ℕ). y ∷ l) (append_snoc xs x ys)

-- The nodes lead to the root that `node` leads to.
abbrev Leads : Parents → ℕ → List ℕ → Type 0
Leads parent node nodes = All (λ k. (q : ℕ) → Root parent node q → Root parent k q) nodes

record Found (parent : Parents) (fuel node : ℕ) (node_list : List ℕ) : Type 0 where
  root : ℕ
  more : List ℕ
  run : find_set_loop fuel parent node node_list ≡ some (root, node_list ++ more)
  leads : Root parent node root
  all_lead : All (λ k. Root parent k root) (node_list ++ more)
  direct : (parent node ≡ some root) ⊎ ((rest : List ℕ) × (more ≡ node ∷ rest))

module _ (parent : Parents) (fuel node p : ℕ) (node_list : List ℕ) (e : parent node ≡ some p) where
  find_set_loop-next :
      find_set_loop (suc fuel) parent node node_list
      ≡ elim (node == p) as (λ x. Checked (ℕ × List ℕ)) [
        | true ↦ some (node, node_list)
        | false ↦ parent p >>= λ g.
            find_set_loop fuel parent p (if p == g then node_list else node_list ++ (node ∷ []))
      ]
  unfolding find_set_loop
  find_set_loop-next = rw (find_set_loop, e) refl

  find_set_loop-top :
      (node == p) ≡ true → find_set_loop (suc fuel) parent node node_list ≡ some (node, node_list)
  find_set_loop-top h = find_set_loop-next ∙ rw h refl

  find_set_loop-up :
      (g : ℕ)
      → (node == p) ≡ false
      → parent p ≡ some g
      → find_set_loop (suc fuel) parent node node_list
        ≡ find_set_loop fuel parent p (if p == g then node_list else node_list ++ (node ∷ []))
  find_set_loop-up g h up = find_set_loop-next ∙ rw (h, up) refl

module _ (parent : Parents) (forest : IsForest parent) where
  Leads-up :
      (node p : ℕ) (node_list : List ℕ)
      → parent node ≡ some p
      → (node == p) ≡ false
      → Leads parent node node_list
      → Leads parent p node_list
  Leads-up node p node_list e h l =
      All-mono (λ k. (q : ℕ) → Root parent node q → Root parent k q)
        (λ k. (q : ℕ) → Root parent p q → Root parent k q) node_list (λ k f q t. f q (step e h t)) l

  find_set_loop_lem :
      (fuel node p : ℕ) (node_list : List ℕ)
      → parent node ≡ some p
      → node < fuel
      → Leads parent node node_list
      → Found parent fuel node node_list
  unfolding find_set_loop
  find_set_loop_lem zero node p node_list e n l = absurd (omega arith)
  find_set_loop_lem (suc fuel) node p node_list e n l = elim (Bool-cases (node == p)) [
    | inl h ↦
        let f : node ≡ p = ground arith in
        let at_root : Root parent node node = here (rw (← f) at e) in
        record {
          root = node;
          more = [];
          run = find_set_loop-top parent fuel node p node_list e h ∙ rw (append_nil node_list) refl;
          leads = at_root;
          direct = inl (rw (← f) at e);
          all_lead = rw (append_nil node_list) (
              All-mono (λ k. (q : ℕ) → Root parent node q → Root parent k q)
                (λ k. Root parent k node) node_list (λ k g. g node at_root) l);
        }
    | inr h ↦
        let (g, up) = forest.closed node p e in
        let le = forest.earlier node p e in
        let below : p < fuel = ground arith in
        let passed = Leads-up node p node_list e h l in
        elim (Bool-cases (p == g)) [
          | inl top ↦
              let ih = find_set_loop_lem fuel p g node_list up below passed in
              record {
                root = ih.root;
                more = ih.more;
                run = find_set_loop-up parent fuel node p node_list e g h up ∙ rw top ih.run;
                leads = step e h ih.leads;
                all_lead = ih.all_lead;
                direct =
                    let f : p ≡ g = ground arith in
                    inl (e ∙ ap some (Root-unique (here (rw (← f) at up)) ih.leads));
              }
          | inr inner ↦
              let ih = find_set_loop_lem fuel p g (node_list ++ (node ∷ [])) up below (
                All-append (λ k. (q : ℕ) → Root parent p q → Root parent k q) node_list (node ∷ [])
                  passed ((λ q t. step e h t), tt)) in
              record {
                root = ih.root;
                more = node ∷ ih.more;
                run =
                    find_set_loop-up parent fuel node p node_list e g h up
                    ∙ rw inner (rw append_snoc at ih.run);
                leads = step e h ih.leads;
                all_lead = rw append_snoc at ih.all_lead;
                direct = inr (ih.more, refl);
              }
        ]
  ]

-- A node that has the root as its parent keeps it under path compression.
compress-at :
    (nodes : List ℕ) (r i : ℕ) (parent : Parents)
    → parent i ≡ some r
    → compress nodes r parent i ≡ some r
unfolding compress assign
compress-at [] r i parent e = e
compress-at (k ∷ nodes) r i parent e =
    compress-at nodes r i (assign parent k (some r))
      (elim (Bool-cases (i == k)) [ inl h ↦ rw h | inr h ↦ rw h e ])

compress-direct :
    (nodes : List ℕ) (r i : ℕ) (parent : Parents)
    → (parent i ≡ some r) ⊎ ((rest : List ℕ) × (nodes ≡ i ∷ rest))
    → compress nodes r parent i ≡ some r
unfolding compress
compress-direct nodes r i parent (inl e) = compress-at nodes r i parent e
compress-direct nodes r i parent (inr (rest, e)) =
    rw e (compress-at rest r i (assign parent i (some r)) (assign_same parent i (some r)))

-- What `FindSet` of the node `i` does
pub record RootFound (parent : Parents) (i r : ℕ) (parent' : Parents) : Type 0 where
  pub root : Root parent i r
  pub direct : parent' i ≡ some r
  pub rest : SameRoots parent parent'

-- `FindSet` ends, with the root of the node; the node then has the root as its parent, and every
-- node the root that it had.
pub find_set-RootFound :
    (fuel i b p : ℕ) (parent : Parents)
    → IsForest parent
    → parent i ≡ some p
    → i < fuel
    → (r : ℕ) × (parent' : Parents) × (find_set fuel (some b) i parent ≡ some (r, parent'))
      × RootFound parent i r parent'
unfolding find_set
find_set-RootFound fuel i b p parent forest e n =
    let found = find_set_loop_lem parent forest fuel i p [] e n tt in
    (
      found.root,
      compress found.more found.root parent,
      rw (e, found.run) refl,
      record {
        root = found.leads;
        direct = compress-direct found.more found.root i parent found.direct;
        rest = compress-SameRoots found.more found.root parent forest found.all_lead;
      },
    )
