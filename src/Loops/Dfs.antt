-- ===== src/Loops/Dfs.antt =====
-- src/MaoLoops.cc, `DFS`: it ends, and numbers the blocks so that `IsAncestor` tells which of them
-- were reached in a call.
use mao.Prelude.{
  ℕ, zero, suc, ◌+◌, ◌-◌, ◌≤◌, ◌<◌, ◌≡◌, refl, sym, ◌∙◌, inl, inr, true, false, none, some, List,
  [], ◌∷◌, arith, ltb, ◌==◌, Bool-cases, Option-cases, All, All-mono,
}
use mao.Prelude.Checked.{Checked}
use mao.Loops.{Search, assign, enter, leave, dfs_edges, dfs}
use mao.Loops.Forest.{assign_same, assign_other, some_eq}
use mao.Loops.Numbers.{
  Member, first, later, Way, stay, edge, IsNumbered, Extends, Extends-refl, Extends-trans,
  unvisited, unvisited_mono, unvisited-assign, enter-Extends, enter-IsNumbered, enter-number,
}

abbrev pub Has : Search → ℕ → Type 0
Has s b = (n : ℕ) × (s.number b ≡ some n)

module _ (dests : ℕ → List ℕ) where
  -- From `s` to `t` the blocks of new numbers were reached from `a`, and all their edges lead to
  -- blocks with numbers.
  pub record Walk (a : ℕ) (s t : Search) : Type 0 where
    pub ok : IsNumbered t
    pub extends : Extends s t
    pub reached : (n b : ℕ) → s.current ≤ n → n < t.current → t.bb n ≡ some b → Way dests a b
    pub closed : (n b : ℕ) → s.current ≤ n → n < t.current → t.bb n ≡ some b → All (Has t) (dests b)
    pub range : (w : ℕ) → s.current ≤ w → w < t.current → (w ≤ t.last w) × (t.last w < t.current)
    pub tree :
        (w v b c : ℕ)
        → s.current ≤ w
        → w < t.current
        → w ≤ v
        → v ≤ t.last w
        → t.bb w ≡ some b
        → t.bb v ≡ some c
        → Way dests b c

  -- A call of `DFS` for `a`, which has no number in `s`
  pub record Visited (a : ℕ) (s t : Search) : Type 0 where
    pub walk : Walk a s t
    pub number_a : t.number a ≡ some s.current
    pub last_a : t.last s.current + 1 ≡ t.current

  Walk-refl : (a : ℕ) (s : Search) → IsNumbered s → Walk a s s
  Walk-refl a s ok = record {
    ok = ok;
    extends = Extends-refl s;
    reached = λ n b le lt e. absurd (omega arith);
    closed = λ n b le lt e. absurd (omega arith);
    range = λ w le lt. absurd (omega arith);
    tree = λ w v b c le lt up down e f. absurd (omega arith);
  }

  Has-mono : (s t : Search) → Extends s t → (bs : List ℕ) → All (Has s) bs → All (Has t) bs
  Has-mono s t x bs h = All-mono (Has s) (Has t) bs (λ b p. (p.0, x.same_number b p.0 p.1)) h

  -- A walk from a block that an edge leads to
  Walk-edge : (a d : ℕ) (s t : Search) → Member d (dests a) → Walk d s t → Walk a s t
  Walk-edge a d s t m w = record {
    ok = w.ok;
    extends = w.extends;
    reached = λ n b le lt e. edge m (w.reached n b le lt e);
    closed = w.closed;
    range = w.range;
    tree = w.tree;
  }

  Walk-trans : (a : ℕ) (s t u : Search) → Walk a s t → Walk a t u → Walk a s u
  Walk-trans a s t u p q = record {
    ok = q.ok;
    extends = Extends-trans s t u p.extends q.extends;
    reached = λ n b le lt e. elim (Bool-cases (ltb n t.current)) [
      | inl old ↦
          let below : n < t.current = ground arith in
          p.reached n b le below (sym (q.extends.same_bb n below) ∙ e)
      | inr new ↦ q.reached n b (ground arith) lt e
    ];
    closed = λ n b le lt e. elim (Bool-cases (ltb n t.current)) [
      | inl old ↦
          let below : n < t.current = ground arith in
          Has-mono t u q.extends (dests b)
            (p.closed n b le below (sym (q.extends.same_bb n below) ∙ e))
      | inr new ↦ q.closed n b (ground arith) lt e
    ];
    range = λ w le lt. elim (Bool-cases (ltb w t.current)) [
      | inl old ↦
          let below : w < t.current = ground arith in
          rw (q.extends.same_last w below)
            (let r = p.range w le below in (r.0, omega (arith, r.1, q.extends.more)))
      | inr new ↦ q.range w (ground arith) lt
    ];
    tree = λ w v b c le lt up down e f. elim (Bool-cases (ltb w t.current)) [
      | inl old ↦
          let below : w < t.current = ground arith in
          let down' : v ≤ t.last w = rw (q.extends.same_last w below) at down in
          let r = p.range w le below in
          let below' : v < t.current = omega arith in
          p.tree w v b c le below up down' (sym (q.extends.same_bb w below) ∙ e)
            (sym (q.extends.same_bb v below') ∙ f)
      | inr new ↦ q.tree w v b c (ground arith) lt up down e f
    ];
  }

  -- The whole call: `Init`, the walk along the edges, and the assignment of `last`
  finished : ℕ → Search → Search → Search
  unfolding assign
  finished d s t = record t { last = assign t.last s.current (t.current - 1) }

  module _ (d : ℕ) (s t : Search) (ok : IsNumbered s) (fresh : s.number d ≡ none)
      (walk : Walk d (enter d s) t) (all : All (Has t) (dests d)) where
    whole : Extends s t
    whole = Extends-trans s (enter d s) t (enter-Extends d s ok fresh) walk.extends

    past : s.current < t.current
    unfolding enter
    past = omega (arith, walk.extends.more)

    number_d : t.number d ≡ some s.current
    number_d = walk.extends.same_number d s.current (enter-number d s ok fresh)

    bb_d : t.bb s.current ≡ some d
    bb_d = walk.ok.agree d s.current number_d

    is_d : (n b : ℕ) → (n == s.current) ≡ true → t.bb n ≡ some b → d ≡ b
    is_d n b h e =
        let f : n ≡ s.current = ground arith in some_eq d b (t.bb s.current) bb_d (rw f at e)

    reached_from_d : (n b : ℕ) → s.current ≤ n → n < t.current → t.bb n ≡ some b → Way dests d b
    unfolding enter
    reached_from_d n b le lt e = elim (Bool-cases (n == s.current)) [
      | inl h ↦ rw (← is_d n b h e) stay
      | inr h ↦ walk.reached n b (ground arith) lt e
    ]

    last_other :
        (n : ℕ) → (n == s.current) ≡ false → assign t.last s.current (t.current - 1) n ≡ t.last n
    last_other n h = assign_other t.last s.current n (t.current - 1) h

    last_own :
        (n : ℕ)
        → (n == s.current) ≡ true
        → assign t.last s.current (t.current - 1) n ≡ t.current - 1
    last_own n h =
        let f : n ≡ s.current = ground arith in rw f (assign_same t.last s.current (t.current - 1))

    leave-finished : leave d t ≡ some (finished d s t)
    unfolding leave finished
    leave-finished = rw number_d

    Walk-finished : Walk d s (finished d s t)
    unfolding finished enter
    Walk-finished = record {
      ok = record {
        blocks = walk.ok.blocks;
        numbers = walk.ok.numbers;
        agree = walk.ok.agree;
        back = walk.ok.back;
      };
      extends = record {
        more = whole.more;
        same_number = whole.same_number;
        same_bb = whole.same_bb;
        same_last = λ n lt.
            assign_other t.last s.current n (t.current - 1) (ground arith) ∙ whole.same_last n lt;
      };
      reached = reached_from_d;
      closed = λ n b le lt e. elim (Bool-cases (n == s.current)) [
        | inl h ↦ rw (← is_d n b h e) all
        | inr h ↦ walk.closed n b (ground arith) lt e
      ];
      range = λ w le lt. elim (Bool-cases (w == s.current)) [
        | inl h ↦ rw (last_own w h) (omega (arith, past), omega (arith, past))
        | inr h ↦ rw (last_other w h) (walk.range w (ground arith) lt)
      ];
      tree = λ w v b c le lt up down e f. elim (Bool-cases (w == s.current)) [
        | inl h ↦
            let down' : v ≤ t.current - 1 = rw (last_own w h) at down in
            rw (← is_d w b h e) (reached_from_d v c (omega arith) (omega (arith, past)) f)
        | inr h ↦ walk.tree w v b c (ground arith) lt up (rw (last_other w h) at down) e f
      ];
    }

    Visited-finished : Visited d s (finished d s t)
    unfolding finished
    Visited-finished = record {
      walk = Walk-finished;
      number_a = number_d;
      last_a = rw (assign_same t.last s.current (t.current - 1)) (omega (arith, past));
    }

  module _ (bs : List ℕ) (inside : (b d : ℕ) → Member d (dests b) → Member d bs) where
    -- A call that does what `DFS` should do where at most `fuel` blocks are left
    abbrev pub Serves : ℕ → (ℕ → Search → Checked Search) → Type 0
    Serves fuel call =
        (d : ℕ) (s : Search)
        → Member d bs
        → IsNumbered s
        → s.number d ≡ none
        → unvisited bs s.number ≤ fuel
        → (t : Search) × (call d s ≡ some t) × Visited d s t

    edges_lem :
        (fuel : ℕ) (call : ℕ → Search → Checked Search) (a : ℕ)
        → Serves fuel call
        → (ds : List ℕ) (s : Search) → ((d : ℕ) → Member d ds → Member d (dests a))
        → IsNumbered s
        → unvisited bs s.number ≤ fuel
        → (t : Search) × (dfs_edges call ds s ≡ some t) × Walk a s t × All (Has t) ds
    unfolding dfs_edges
    edges_lem fuel call a serves [] s among ok n = (s, refl, Walk-refl a s ok, tt)
    edges_lem fuel call a serves (d ∷ ds) s among ok n = elim (Option-cases (s.number d)) [
      | inr (k, e) ↦
          let (t, run, walk, all) =
            edges_lem fuel call a serves ds s (λ b m. among b (later m)) ok n in
          (t, rw (dfs_edges, e) run, walk, ((k, walk.extends.same_number d k e), all))
      | inl e ↦
          let (t, run, v) = serves d s (inside a d (among d first)) ok e n in
          let fewer = unvisited_mono bs s.number t.number v.walk.extends.same_number in
          let (u, run', walk, all) =
            edges_lem fuel call a serves ds t (λ b m. among b (later m)) v.walk.ok (omega arith) in
          (
            u,
            rw (dfs_edges, e) (rw run run'),
            Walk-trans a s t u (Walk-edge a d s t (among d first) v.walk) walk,
            ((s.current, walk.extends.same_number d s.current v.number_a), all),
          )
    ]

    pub dfs-Serves : (fuel : ℕ) → Serves fuel (dfs dests fuel)
    unfolding dfs enter
    dfs-Serves zero d s m ok e n =
        absurd (omega (arith, unvisited-assign bs s.number d s.current m e))
    dfs-Serves (suc fuel) d s m ok e n =
        let fewer = unvisited-assign bs s.number d s.current m e in
        let (t, run, walk, all) =
          edges_lem fuel (dfs dests fuel) d (dfs-Serves fuel) (dests d) (enter d s) (λ b i. i)
            (enter-IsNumbered d s ok e) (omega arith) in
        (
          finished d s t,
          rw (dfs, run) (leave-finished d s t ok e walk all),
          Visited-finished d s t ok e walk all,
        )
