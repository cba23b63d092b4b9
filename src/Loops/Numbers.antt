-- ===== src/Loops/Numbers.antt =====
-- src/MaoLoops.cc, the numbers that `DFS` gives to the blocks: what a state of the search holds, and
-- how `Init` and the assignment of `last` change it.
use mao.Prelude.{
  ℕ, ◌+◌, ◌≤◌, ◌<◌, ◌≡◌, refl, ◌∙◌, inl, inr, Option, none, some, List, [], ◌∷◌, arith, ◌==◌,
  Bool-cases, Option-cases,
}
use mao.Loops.{Search, assign, enter}
use mao.Loops.Forest.{assign_same}

pub data Member (d : ℕ) : List ℕ → Type 0 where
  first : {xs : List ℕ} → Member d (d ∷ xs)
  later : {x : ℕ} {xs : List ℕ} → Member d xs → Member d (x ∷ xs)

-- A way along out edges
pub data Way (dests : ℕ → List ℕ) : ℕ → ℕ → Type 0 where
  stay : {a : ℕ} → Way dests a a
  edge : {a d b : ℕ} → Member d (dests a) → Way dests d b → Way dests a b

-- The numbers below `current` and the blocks that have one belong to each other.
pub record IsNumbered (s : Search) : Type 0 where
  pub blocks : (n : ℕ) → n < s.current → (b : ℕ) × (s.bb n ≡ some b)
  pub numbers : (b n : ℕ) → s.number b ≡ some n → n < s.current
  pub agree : (b n : ℕ) → s.number b ≡ some n → s.bb n ≡ some b
  pub back : (b n : ℕ) → n < s.current → s.bb n ≡ some b → s.number b ≡ some n

-- What was numbered stays as it is.
pub record Extends (s t : Search) : Type 0 where
  pub more : s.current ≤ t.current
  pub same_number : (b n : ℕ) → s.number b ≡ some n → t.number b ≡ some n
  pub same_bb : (n : ℕ) → n < s.current → t.bb n ≡ s.bb n
  pub same_last : (n : ℕ) → n < s.current → t.last n ≡ s.last n

pub Extends-refl : (s : Search) → Extends s s
Extends-refl s = record {
  more = omega arith;
  same_number = λ b n e. e;
  same_bb = λ n lt. refl;
  same_last = λ n lt. refl;
}

pub Extends-trans : (s t u : Search) → Extends s t → Extends t u → Extends s u
Extends-trans s t u p q = record {
  more = omega (arith, p.more, q.more);
  same_number = λ b n e. q.same_number b n (p.same_number b n e);
  same_bb = λ n lt. q.same_bb n (omega (arith, p.more)) ∙ p.same_bb n lt;
  same_last = λ n lt. q.same_last n (omega (arith, p.more)) ∙ p.same_last n lt;
}

-- The number of blocks of the list that have no number yet
unfoldable pub unvisited : List ℕ → (ℕ → Option ℕ) → ℕ
unvisited [] number = 0
unvisited (b ∷ bs) number = elim (number b) [ none ↦ 1 | some n ↦ 0 ] + unvisited bs number

pub unvisited_mono :
    (bs : List ℕ) (f g : ℕ → Option ℕ)
    → ((b n : ℕ) → f b ≡ some n → g b ≡ some n)
    → unvisited bs g ≤ unvisited bs f
unfolding unvisited
unvisited_mono [] f g k = omega arith
unvisited_mono (b ∷ bs) f g k =
    let rest = unvisited_mono bs f g k in
    elim (Option-cases (f b)) [
      | inl e ↦ ground (arith, rest, e)
      | inr (n, e) ↦ let h = k b n e in ground (arith, rest, e, h)
    ]

pub unvisited-assign :
    (bs : List ℕ) (f : ℕ → Option ℕ) (a n : ℕ)
    → Member a bs
    → f a ≡ none
    → unvisited bs (assign f a (some n)) + 1 ≤ unvisited bs f
unfolding unvisited assign
unvisited-assign [] f a n i e = elim i [ ]
unvisited-assign (b ∷ bs) f a n first e =
    let rest = unvisited_mono bs f (assign f a (some n)) (λ b m h. ground arith) in ground arith
unvisited-assign (b ∷ bs) f a n (later i) e =
    let rest = unvisited-assign bs f a n i e in ground arith

-- `Init` of a block without a number
module _ (a : ℕ) (s : Search) (ok : IsNumbered s) (fresh : s.number a ≡ none) where
  pub enter-Extends : Extends s (enter a s)
  unfolding enter assign
  enter-Extends = record {
    more = omega arith;
    same_number = λ b n e. ground arith;
    same_bb = λ n lt. ground arith;
    same_last = λ n lt. refl;
  }

  pub enter-IsNumbered : IsNumbered (enter a s)
  unfolding enter assign
  enter-IsNumbered = record {
    blocks = λ n lt. elim (Bool-cases (n == s.current)) [
      | inl e ↦ (a, rw e)
      | inr e ↦ let (b, h) = ok.blocks n (ground arith) in (b, rw e h)
    ];
    numbers = λ b n e. ground (arith, ok.numbers b n);
    agree = λ b n e. ground (arith, ok.agree b n, ok.numbers b n);
    back = λ b n lt e. ground (arith, ok.back b n);
  }

  pub enter-number : (enter a s).number a ≡ some s.current
  unfolding enter
  enter-number = assign_same s.number a (some s.current)
