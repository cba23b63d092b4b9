-- ===== src/DataFlow/Invariant.antt =====
-- The invariant of the solver of src/MaoDataFlow.cc, and one visit of a block.
use mao.Prelude.{
  ℕ, ◌<◌, ◌≡◌, refl, ◌∙◌, Bool, true, false, not, ◌&&◌, ◌||◌, some, List, [], ◌∷◌, arith, ◌==◌, All,
}
use mao.BitString.{BitString}
use mao.BitString.Members.{member}
use mao.DataFlow.{
  BasicBlockEdge, DfProblem, DfProblemDirection, df_forward, df_backward, Maps, update, insert,
  collect, confluence_blocks, union_all,
}
use mao.DataFlow.Sets.{Fits, any, any-insert, All-insert}

-- `b` stands in `bs`.
abbrev pub elem : ℕ → List ℕ → Bool
elem b bs = any (λ c. b == c) bs

-- The edges that the confluence at a block reads, with the block's own end and the far end.
abbrev pub edges_by {ℓ} : {A : Type ℓ} → DfProblemDirection → (in_edges out_edges : A) → A
edges_by df_backward in_edges out_edges = out_edges
edges_by df_forward in_edges out_edges = in_edges

abbrev pub near_by : DfProblemDirection → BasicBlockEdge → ℕ
near_by df_backward e = e.source
near_by df_forward e = e.dest

abbrev pub far_by : DfProblemDirection → BasicBlockEdge → ℕ
far_by df_backward e = e.dest
far_by df_forward e = e.source

abbrev pub edges : DfProblem → ℕ → List BasicBlockEdge
edges p b = edges_by p.direction (p.cfg.in_edges b) (p.cfg.out_edges b)

abbrev pub near : DfProblem → BasicBlockEdge → ℕ
near p = near_by p.direction

abbrev pub far : DfProblem → BasicBlockEdge → ℕ
far p = far_by p.direction

-- A problem as the solver expects it: sets of one positive width, edges that start at their block
-- and lead to blocks of the graph, `Union` as the confluence, and empty sets to start from.
pub record IsUnionProblem (p : DfProblem) : Type 0 where
  pub positive : 0 < p.num_bits
  pub gen_fits : (b : ℕ) → Fits p.num_bits (p.create_gen_set b)
  pub kill_fits : (b : ℕ) → Fits p.num_bits (p.create_kill_set b)
  pub initial_fits : Fits p.num_bits p.get_initial_entry_state
  pub initial_empty : (i : ℕ) → member p.get_initial_entry_state i ≡ false
  pub by_union : (x : BitString) (xs : List BitString) → p.confluence (x ∷ xs) ≡ union_all (x ∷ xs)
  pub own_edges :
      (b : ℕ)
      → elem b p.cfg.blocks ≡ true
      → All (λ e. (near p e ≡ b) × (elem (far p e) p.cfg.blocks ≡ true)) (edges p b)
  pub distinct : (x y : ℕ) → p.address x ≡ p.address y → x ≡ y

module _ (p : DfProblem) where
  -- Bit `i` of the union of the exit sets around `b`.
  abbrev pub joined : Maps → ℕ → ℕ → Bool
  joined m b i = any (λ e. member (m.exit_map (far p e)) i) (edges p b)

  -- Bit `i` of the exit set that belongs to the entry set `entry` at `b`.
  abbrev pub flow : ℕ → BitString → ℕ → Bool
  flow b entry i =
      member (p.create_gen_set b) i || (member entry i && not (member (p.create_kill_set b) i))

  -- What holds of the maps between two visits: the sets have the problem's width, an exit set is
  -- the transfer of its entry set, and an entry set holds nothing that is not in an exit set around
  -- its block.
  pub record IsSettled (m : Maps) (b : ℕ) : Type 0 where
    pub entry_fits : Fits p.num_bits (m.entry_map b)
    pub exit_fits : Fits p.num_bits (m.exit_map b)
    pub exit_flow : (i : ℕ) → member (m.exit_map b) i ≡ flow b (m.entry_map b) i
    pub supported : (i : ℕ) → member (m.entry_map b) i ≡ true → joined m b i ≡ true

  abbrev pub IsGood : Maps → Type 0
  IsGood m = (b : ℕ) → elem b p.cfg.blocks ≡ true → IsSettled m b

  -- The entry set at `b` is the union of the exit sets around it.
  abbrev pub IsBalanced : Maps → ℕ → Type 0
  IsBalanced m b = (i : ℕ) → member (m.entry_map b) i ≡ joined m b i

  -- A visit of `b` that changes its sets to `entry` and `exit`.
  pub record Moves (m : Maps) (b : ℕ) (m' : Maps) : Type 0 where
    pub entry : BitString
    pub exit : BitString
    pub entries : m'.entry_map ≡ update m.entry_map b entry
    pub exits : m'.exit_map ≡ update m.exit_map b exit
    pub entry_fits : Fits p.num_bits entry
    pub exit_fits : Fits p.num_bits exit
    pub entry_joined : (i : ℕ) → member entry i ≡ joined m b i
    pub exit_flow : (i : ℕ) → member exit i ≡ flow b entry i
    pub differs : ¬ ((i : ℕ) → member entry i ≡ member (m.entry_map b) i)

  -- What a visit does: nothing, where the entry set is already the union around the block, or a
  -- change, which it reports.
  pub data Visited (m : Maps) (dirty : Bool) (b : ℕ) (s : Maps × Bool) : Type 0 where
    stays : s ≡ (m, dirty) → IsBalanced m b → Visited m dirty b s
    moves : (m' : Maps) → s ≡ (m', true) → Moves m b m' → Visited m dirty b s

module _ (p : DfProblem) (ok : IsUnionProblem p) where
  -- The confluence set holds exactly the far ends of the edges.
  abbrev Collected : List BasicBlockEdge → List ℕ → ℕ → Type 0
  Collected es start b =
      (cs : List ℕ) × (collect p.address (near p) (far p) b es start ≡ some cs)
      × ((f : ℕ → Bool) → any f cs ≡ (any (λ e. f (far p e)) es || any f start))
      × (All (λ c. elem c p.cfg.blocks ≡ true) start → All (λ c. elem c p.cfg.blocks ≡ true) cs)

  collect-Collected :
      (es : List BasicBlockEdge) (start : List ℕ) (b : ℕ)
      → All (λ e. (near p e ≡ b) × (elem (far p e) p.cfg.blocks ≡ true)) es
      → Collected es start b
  unfolding collect
  collect-Collected [] start b h = (start, refl, λ f. refl, λ a. a)
  collect-Collected (e ∷ es) start b h =
      let (cs, q, same, stay) = collect-Collected es (insert p.address (far p e) start) b h.1 in
      let own : (near p e == b) ≡ true = ground arith in
      (
        cs,
        rw own q,
        λ f. ground (arith, same f, any-insert p.address ok.distinct f (far p e) start),
        λ a. stay (
            All-insert p.address ok.distinct (λ c. elem c p.cfg.blocks ≡ true) (far p e) start h.0.1
              a),
      )

  by_direction :
      (d : DfProblemDirection) (b : ℕ)
      → confluence_blocks (record p { direction = d }) b
        ≡ collect p.address
            (near_by d)
            (far_by d)
            b
            (edges_by d (p.cfg.in_edges b) (p.cfg.out_edges b))
            []
  unfolding confluence_blocks
  by_direction df_backward b = refl
  by_direction df_forward b = refl

  pub confluence_blocks-Collected :
      (b : ℕ)
      → elem b p.cfg.blocks ≡ true
      → (cs : List ℕ) × (confluence_blocks p b ≡ some cs)
        × ((f : ℕ → Bool) → any f cs ≡ any (λ e. f (far p e)) (edges p b))
        × All (λ c. elem c p.cfg.blocks ≡ true) cs
  confluence_blocks-Collected b h =
      let (cs, q, same, stay) = collect-Collected (edges p b) [] b (ok.own_edges b h) in
      (cs, by_direction p.direction b ∙ q, λ f. same f ∙ ground arith, stay tt)
