-- ===== src/Loops/Preorder.antt =====
-- src/MaoLoops.cc, step a of `FindLoops`: `DFS` from the first block, and `IsAncestor` on its numbers.
use mao.Prelude.{
  ℕ, ◌+◌, ◌≤◌, ◌≡◌, ◌↔◌, refl, true, Option, some, List, [], ◌∷◌, arith, length, All, Option-cases,
  inl, inr,
}
use mao.Loops.{Search, dfs, is_ancestor, unnumbered}
use mao.Loops.Forest.{some_eq}
use mao.Loops.Numbers.{Member, first, later, Way, stay, edge, IsNumbered, unvisited}
use mao.Loops.Dfs.{Has, Visited, dfs-Serves}

unvisited-le : (bs : List ℕ) (f : ℕ → Option ℕ) → unvisited bs f ≤ length bs
unfolding unvisited
unvisited-le [] f = omega arith
unvisited-le (b ∷ bs) f = elim (Option-cases (f b)) [
  | inl e ↦ ground (arith, unvisited-le bs f, e)
  | inr (n, e) ↦ ground (arith, unvisited-le bs f, e)
]

All-Member : (P : ℕ → Type 0) (d : ℕ) (xs : List ℕ) → Member d xs → All P xs → P d
All-Member P d [] m h = elim m [ ]
All-Member P d (x ∷ xs) first h = h.0
All-Member P d (x ∷ xs) (later m) h = All-Member P d xs m h.1

unnumbered-IsNumbered : IsNumbered unnumbered
unfolding unnumbered
unnumbered-IsNumbered = record {
  blocks = λ n lt. absurd (omega arith);
  numbers = λ b n e. cc;
  agree = λ b n e. cc;
  back = λ b n lt e. absurd (omega arith);
}

-- The numbers that the search from `start` gives
pub record IsPreorder (dests : ℕ → List ℕ) (start : ℕ) (t : Search) : Type 0 where
  pub visited : (b : ℕ) → Has t b ↔ Way dests start b
  pub different : (b c n : ℕ) → t.number b ≡ some n → t.number c ≡ some n → b ≡ c
  pub first_number : t.number start ≡ some 0
  pub all_below : (b v : ℕ) → t.number b ≡ some v → is_ancestor 0 v t.last ≡ true
  pub ancestors :
      (b c w v : ℕ)
      → t.number b ≡ some w
      → t.number c ≡ some v
      → is_ancestor w v t.last ≡ true
      → Way dests b c

module _ (dests : ℕ → List ℕ) (start : ℕ) (t : Search) (v : Visited dests start unnumbered t) where
  -- Along a way all blocks have numbers.
  all_on_way : {b c : ℕ} → Way dests b c → Has t b → Has t c
  unfolding unnumbered
  all_on_way stay h = h
  all_on_way (edge {a} {d} m w) (n, e) = all_on_way w (
      All-Member (Has t) d (dests a) m
        (v.walk.closed n a (omega arith) (v.walk.ok.numbers a n e) (v.walk.ok.agree a n e)))

  Visited-IsPreorder : IsPreorder dests start t
  unfolding unnumbered is_ancestor
  Visited-IsPreorder = record {
    visited = λ b. (
      λ h.
          v.walk.reached h.0 b (omega arith) (v.walk.ok.numbers b h.0 h.1)
            (v.walk.ok.agree b h.0 h.1),
      λ w. all_on_way w (0, v.number_a),
    );
    different = λ b c n e f. some_eq b c (t.bb n) (v.walk.ok.agree b n e) (v.walk.ok.agree c n f);
    first_number = v.number_a;
    all_below = λ b n e.
        let lt = v.walk.ok.numbers b n e in
        let last_0 : t.last 0 + 1 ≡ t.current = v.last_a in
        let le : n ≤ t.last 0 = omega arith in ground arith;
    ancestors = λ b c w n e f h.
        let up : w ≤ n = ground arith in
        let down : n ≤ t.last w = ground arith in
        v.walk.tree w n b c (omega arith) (v.walk.ok.numbers b w e) up down (v.walk.ok.agree b w e)
          (v.walk.ok.agree c n f);
  }

-- The search from `start` ends and numbers exactly the blocks that can be reached.
pub dfs-IsPreorder :
    (fuel start : ℕ) (bs : List ℕ) (dests : ℕ → List ℕ)
    → Member start bs
    → ((b d : ℕ) → Member d (dests b) → Member d bs)
    → length bs ≤ fuel
    → (t : Search) × (dfs dests fuel start unnumbered ≡ some t) × IsPreorder dests start t
unfolding unnumbered
dfs-IsPreorder fuel start bs dests m inside n =
    let (t, run, v) =
      dfs-Serves dests bs inside fuel start unnumbered m unnumbered-IsNumbered refl
        (omega (arith, unvisited-le bs unnumbered.number)) in
    (t, run, Visited-IsPreorder dests start t v)
