-- ===== src/DataFlow/Rounds.antt =====
-- The rounds of the solver of src/MaoDataFlow.cc: what a round and the `do ... while (dirty)` loop
-- do, and that the loop ends.
use mao.Prelude.{
  ℕ, zero, suc, ◌≤◌, ◌<◌, ◌≡◌, refl, sym, ◌∙◌, ap, inl, inr, Bool, true, false, some, List, [], ◌∷◌,
  arith, Bool-cases, All,
}
use mao.Prelude.Checked.{◌>>=◌}
use mao.DataFlow.{DfProblem, Maps, round, iterate}
use mao.DataFlow.Invariant.{elem, IsUnionProblem, IsGood, IsBalanced, Moves, Visited, stays, moves}
use mao.DataFlow.Visit.{visit-Visited}
use mao.DataFlow.Moves.{IsGood-moved}
use mao.DataFlow.Measure.{missing, missing-lt}

abbrev pub Inside : DfProblem → List ℕ → Type 0
Inside p bs = All (λ b. elem b p.cfg.blocks ≡ true) bs

-- `Q` survives every change.
abbrev pub IsKept {ℓ} : DfProblem → (Maps → Type ℓ) → Type ℓ
IsKept p Q =
    (m m' : Maps) (b : ℕ) → IsGood p m → elem b p.cfg.blocks ≡ true → Moves p m b m' → Q m → Q m'

-- A round over `bs` from `m` that ends in `s`: `settled` says that it changed nothing, because
-- every entry set was already the union around its block.
pub record Rounded {ℓ} (p : DfProblem) (Q : Maps → Type ℓ) (m : Maps) (dirty : Bool) (bs : List ℕ)
    (s : Maps × Bool) : Type ℓ where
  pub good : IsGood p s.0
  pub kept : Q s.0
  pub not_more : missing p s.0 ≤ missing p m
  pub less : dirty ≡ false → s.1 ≡ true → missing p s.0 < missing p m
  pub settled : s.1 ≡ false → (dirty ≡ false) × (s.0 ≡ m) × All (IsBalanced p m) bs

module _ {ℓ} (p : DfProblem) (ok : IsUnionProblem p) (Q : Maps → Type ℓ) (keep : IsKept p Q) where
  RoundsTo : Maps → Bool → List ℕ → Type ℓ
  RoundsTo m dirty bs =
      (s : Maps × Bool) × (round p bs (m, dirty) ≡ some s) × Rounded p Q m dirty bs s

  Rounded-cons :
      (m : Maps) (dirty : Bool) (b : ℕ) (bs : List ℕ) (s t : Maps × Bool)
      → IsGood p m
      → elem b p.cfg.blocks ≡ true
      → Visited p m dirty b s
      → Rounded p Q s.0 s.1 bs t
      → Rounded p Q m dirty (b ∷ bs) t
  Rounded-cons m dirty b bs s t good inside (stays e balanced) r =
      let e0 : s.0 ≡ m = ap (λ (x : Maps × Bool). x.0) e in
      let e1 : s.1 ≡ dirty = ap (λ (x : Maps × Bool). x.1) e in
      record {
        good = r.good;
        kept = r.kept;
        not_more = rw e0 at r.not_more;
        less = λ d u. rw e0 at (r.less (e1 ∙ d) u);
        settled = λ u.
            let (d, same, rest) = r.settled u in (sym e1 ∙ d, same ∙ e0, (balanced, rw e0 at rest));
      }
  Rounded-cons m dirty b bs s t good inside (moves m' e v) r =
      let e0 : s.0 ≡ m' = ap (λ (x : Maps × Bool). x.0) e in
      let e1 : s.1 ≡ true = ap (λ (x : Maps × Bool). x.1) e in
      let fell = missing-lt p ok good v inside in
      let below : missing p t.0 ≤ missing p m' = rw e0 at r.not_more in
      record {
        good = r.good;
        kept = r.kept;
        not_more = omega arith;
        less = λ d u. omega arith;
        settled = λ u. let (d, same, rest) = r.settled u in cc (e1, d);
      }

  Visited-IsGood :
      {m : Maps} {dirty : Bool} {b : ℕ} {s : Maps × Bool}
      → IsGood p m
      → Q m
      → elem b p.cfg.blocks ≡ true
      → Visited p m dirty b s
      → IsGood p s.0 × Q s.0
  Visited-IsGood good q inside (stays e balanced) = rw e (good, q)
  Visited-IsGood {m} {b} good q inside (moves m' e v) =
      rw e (IsGood-moved p ok good v inside, keep m m' b good inside v q)

  round-Rounded :
      (bs : List ℕ) (m : Maps) (dirty : Bool) → IsGood p m → Q m → Inside p bs → RoundsTo m dirty bs
  unfolding round RoundsTo
  round-Rounded [] m dirty good q inside = (
    (m, dirty),
    refl,
    record {
      good = good;
      kept = q;
      not_more = omega arith;
      less = λ d u. cc;
      settled = λ u. (u, refl, tt);
    },
  )
  round-Rounded (b ∷ bs) m dirty good q inside =
      let (s, e, v) = visit-Visited p ok m good dirty b inside.0 in
      let (good', q') = Visited-IsGood good q inside.0 v in
      let (t, e', r) = round-Rounded bs s.0 s.1 good' q' inside.1 in
      (t, rw e e', Rounded-cons m dirty b bs s t good inside.0 v r)

  -- The maps after the loop: settled everywhere.
  pub record Solved (m : Maps) : Type ℓ where
    pub good : IsGood p m
    pub kept : Q m
    pub balanced : All (IsBalanced p m) p.cfg.blocks

  Solved-round :
      (m : Maps) (s : Maps × Bool) → Rounded p Q m false p.cfg.blocks s → s.1 ≡ false → Solved s.0
  Solved-round m s r clean =
      let (d, same, all) = r.settled clean in
      record { good = r.good; kept = r.kept; balanced = rw same all }

  -- If the loop ends without a failed assertion, the maps are settled.
  pub iterate-Solved :
      (left : ℕ) (m r : Maps)
      → IsGood p m
      → Q m
      → Inside p p.cfg.blocks
      → iterate p left m ≡ some r
      → Solved r
  unfolding iterate RoundsTo
  iterate-Solved zero m r good q inside e =
      let (s, es, rd) = round-Rounded p.cfg.blocks m false good q inside in cc (rw es at e)
  iterate-Solved (suc left) m r good q inside e =
      let (s, es, rd) = round-Rounded p.cfg.blocks m false good q inside in
      elim (Bool-cases s.1) [
        | inl again ↦ iterate-Solved left s.0 r rd.good rd.kept inside (rw (es, ◌>>=◌, again) at e)
        | inr clean ↦
            let e' : some s.0 ≡ some r = rw (es, ◌>>=◌, clean) at e in
            let same : s.0 ≡ r = cc in rw same at (Solved-round m s rd clean)
      ]

  -- With fewer missing bits than iterations left, the loop ends without a failed assertion.
  pub iterate_returns :
      (left : ℕ) (m : Maps)
      → IsGood p m
      → Q m
      → Inside p p.cfg.blocks
      → missing p m < left
      → (r : Maps) × (iterate p left m ≡ some r)
  unfolding iterate RoundsTo
  iterate_returns zero m good q inside enough = absurd (omega arith)
  iterate_returns (suc left) m good q inside enough =
      let (s, es, rd) = round-Rounded p.cfg.blocks m false good q inside in
      elim (Bool-cases s.1) [
        | inl again ↦
            let (r, er) =
              iterate_returns left s.0 rd.good rd.kept inside (omega (arith, rd.less refl again)) in
            (r, rw (es, ◌>>=◌, again) er)
        | inr clean ↦ (s.0, rw (es, ◌>>=◌, clean))
      ]
