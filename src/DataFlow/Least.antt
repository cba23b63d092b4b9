-- ===== src/DataFlow/Least.antt =====
-- The data flow equations, the first loop of `DFProblem::Solve` (src/MaoDataFlow.cc), and the bound from
-- above that every change keeps.
use mao.Prelude.{
  ℕ, ◌≡◌, refl, sym, ◌∙◌, inl, inr, Bool, true, not, ◌&&◌, ◌||◌, some, List, [], ◌∷◌, arith, ◌==◌,
  Bool-cases, All, ==_refl,
}
use mao.BitString.Members.{member}
use mao.DataFlow.{DfProblem, Maps, update, initialize}
use mao.DataFlow.Sets.{Fits, any, transfer-Yields}
use mao.DataFlow.Invariant.{elem, edges, far, IsUnionProblem, joined, flow, IsGood}
use mao.DataFlow.Moves.{any_mono_on, entry_at}
use mao.DataFlow.Rounds.{IsKept}

pub elem-All :
    (bs cs : List ℕ)
    → ((b : ℕ) → elem b bs ≡ true → elem b cs ≡ true)
    → All (λ b. elem b cs ≡ true) bs
elem-All [] cs h = tt
elem-All (b ∷ bs) cs h = (h b (ground arith), elem-All bs cs (λ c e. h c (ground arith)))

pub All-elem {κ} : (P : ℕ → Type κ) (b : ℕ) (bs : List ℕ) → All P bs → elem b bs ≡ true → P b
All-elem P b [] h e = absurd (cc)
All-elem P b (c ∷ cs) h e = elim (Bool-cases (b == c)) [
  | inl here ↦ let same : b ≡ c = ground arith in rw same h.0
  | inr there ↦ All-elem P b cs h.1 (ground arith)
]

module _ (p : DfProblem) where
  -- The transfer function of a block, on sets of numbers.
  abbrev pub through : ℕ → (ℕ → Bool) → ℕ → Bool
  through b f i = member (p.create_gen_set b) i || (f i && not (member (p.create_kill_set b) i))

  -- What the sets `f` give at the entry of `b`: the union over the edges of what comes through the
  -- blocks at their far ends.
  abbrev pub entering : (ℕ → ℕ → Bool) → ℕ → ℕ → Bool
  entering f b i = any (λ e. through (far p e) (f (far p e)) i) (edges p b)

  abbrev pub entry_sets : Maps → ℕ → ℕ → Bool
  entry_sets m b i = member (m.entry_map b) i

  -- The sets solve the data flow equations, and lie in all sets that are closed under them.
  pub record IsLeastSolution (f : ℕ → ℕ → Bool) : Type 0 where
    pub solves : (b : ℕ) → elem b p.cfg.blocks ≡ true → (i : ℕ) → f b i ≡ entering f b i
    pub least :
        (g : ℕ → ℕ → Bool)
        → ((b : ℕ) → elem b p.cfg.blocks ≡ true → (i : ℕ) → entering g b i ≡ true → g b i ≡ true)
        → (b : ℕ) → elem b p.cfg.blocks ≡ true
        → (i : ℕ) → f b i ≡ true
        → g b i ≡ true

  -- The sets at `b` are those of the first loop of `Solve`.
  pub record IsInitial (m : Maps) (b : ℕ) : Type 0 where
    pub entry : m.entry_map b ≡ p.get_initial_entry_state
    pub exit_fits : Fits p.num_bits (m.exit_map b)
    pub exit_flow : (i : ℕ) → member (m.exit_map b) i ≡ flow p b p.get_initial_entry_state i

  module _ (ok : IsUnionProblem p) where
    pub initialize-IsInitial :
        (bs : List ℕ) (m : Maps)
        → (m' : Maps) × (initialize p bs m ≡ some m')
          × ((c : ℕ) → IsInitial m c → IsInitial m' c)
          × ((c : ℕ) → elem c bs ≡ true → IsInitial m' c)
    unfolding initialize
    initialize-IsInitial [] m = (m, refl, λ c h. h, λ c e. absurd (cc))
    initialize-IsInitial (b ∷ bs) m =
        let (exit, ex, v, w, flows) =
          transfer-Yields p.num_bits p.get_initial_entry_state (p.create_gen_set b)
            (p.create_kill_set b) ok.initial_fits (ok.gen_fits b) (ok.kill_fits b) in
        let next : Maps = record {
          entry_map = update m.entry_map b p.get_initial_entry_state;
          exit_map = update m.exit_map b exit;
        } in
        let (m', e, old, new) = initialize-IsInitial bs next in
        let here : IsInitial next b = record {
          entry = rw ==_refl;
          exit_fits = rw ==_refl (record { valid = v; width = w });
          exit_flow = rw ==_refl flows;
        } in
        (
          m',
          rw ex e,
          λ c h. elim (Bool-cases (c == b)) [
            | inl s ↦ let same : c ≡ b = ground arith in rw same (old b here)
            | inr s ↦ old c (record {
              entry = rw s h.entry;
              exit_fits = rw s h.exit_fits;
              exit_flow = rw s h.exit_flow;
            })
          ],
          λ c h. elim (Bool-cases (c == b)) [
            | inl s ↦ let same : c ≡ b = ground arith in rw same (old b here)
            | inr s ↦ new c (ground arith)
          ],
        )

    pub IsGood-initial :
        (m : Maps) → ((c : ℕ) → elem c p.cfg.blocks ≡ true → IsInitial m c) → IsGood p m
    IsGood-initial m h c e = record {
      entry_fits = rw (h c e).entry ok.initial_fits;
      exit_fits = (h c e).exit_fits;
      exit_flow = λ i. rw (h c e).entry ((h c e).exit_flow i);
      supported = λ i t. cc (ok.initial_empty i, rw (h c e).entry at t);
    }

    -- Closed sets hold the entry sets throughout.
    abbrev pub Below : (ℕ → ℕ → Bool) → Maps → Type 0
    Below g m =
        (b : ℕ) → elem b p.cfg.blocks ≡ true → (i : ℕ) → entry_sets m b i ≡ true → g b i ≡ true

    joined→entering :
        (g : ℕ → ℕ → Bool) (m : Maps) (b : ℕ)
        → elem b p.cfg.blocks ≡ true
        → IsGood p m
        → Below g m
        → (i : ℕ) → joined p m b i ≡ true
        → entering g b i ≡ true
    joined→entering g m b inside good below i =
        any_mono_on _ _ _ (edges p b) (ok.own_edges b inside) λ e h t.
          let flows : flow p (far p e) (m.entry_map (far p e)) i ≡ true =
            sym ((good (far p e) h.1).exit_flow i) ∙ t in
          ground (arith, below (far p e) h.1 i)

    pub Below-kept :
        (g : ℕ → ℕ → Bool)
        → ((b : ℕ) → elem b p.cfg.blocks ≡ true → (i : ℕ) → entering g b i ≡ true → g b i ≡ true)
        → IsKept p (Below g)
    Below-kept g closed m m' b good inside v below c ic i t = elim (Bool-cases (c == b)) [
      | inl s ↦
          let same : c ≡ b = ground arith in
          let t' : member v.entry i ≡ true = rw (entry_at p ok good v inside, s) at t in
          rw same (
            closed b inside i
              (joined→entering g m b inside good below i (sym (v.entry_joined i) ∙ t')))
      | inr s ↦ below c ic i (rw (entry_at p ok good v inside, s) at t)
    ]
