-- ===== src/Entries/Splice.antt =====
-- Writes to the two ends of a place in a chain put another chain there, or take it out.
use mao.Prelude.{ℕ, ◌≡◌, refl, Bool, false, none, some, List, [], ◌∷◌, ◌++◌, arith}
use mao.Entries.{Pointer, put}
use mao.Entries.Chain.{
  head_or, last_or, has, Distinct, Apart, Forward, Backward, has-append, Distinct-append_left,
  Distinct-append_right, Apart-append, Forward-append, Forward-left, Forward-right, Forward-put,
  Forward-put_last, Backward-append, Backward-left, Backward-right, Backward-put, Backward-put_head,
}

-- A write through a pointer, none through `NULL`
unfoldable pub put_at : (ℕ → Pointer) → Pointer → Pointer → ℕ → Pointer
put_at m none to = m
put_at m (some a) to = put m a to

-- The entries `xs`, linked both ways, from `before` to `after`
pub record Linked (next prev : ℕ → Pointer) (before : Pointer) (xs : List ℕ) (after : Pointer)
    : Type 0 where
  pub forward : Forward next xs after
  pub backward : Backward prev before xs

unfoldable pub avoids : Pointer → List ℕ → Bool
avoids none xs = false
avoids (some a) xs = has a xs

pub avoids-last : (xs ys : List ℕ) → Apart xs ys → avoids (last_or none xs) ys ≡ false
unfolding avoids last_or Apart
avoids-last [] ys p = refl
avoids-last (x ∷ []) ys p = p.0
avoids-last (x ∷ y ∷ xs) ys p = avoids-last (y ∷ xs) ys p.1

pub avoids-head : (xs ys : List ℕ) → Apart xs ys → avoids (head_or ys none) xs ≡ false
unfolding avoids head_or Apart has
avoids-head xs [] p = refl
avoids-head [] (y ∷ ys) p = refl
avoids-head (x ∷ xs) (y ∷ ys) p = ground (arith, p.0, avoids-head xs (y ∷ ys) p.1)

-- The last entry of a list that is not empty.
pub last_or-cons : (x : ℕ) (xs : List ℕ) → (a : ℕ) × (last_or none (x ∷ xs) ≡ some a)
unfolding last_or
last_or-cons x [] = (x, refl)
last_or-cons x (y ∷ xs) = last_or-cons y xs

module _ (m : ℕ → Pointer) where
  pub Forward-put_at :
      (q to : Pointer) (xs : List ℕ) (after : Pointer)
      → avoids q xs ≡ false
      → Forward m xs after
      → Forward (put_at m q to) xs after
  unfolding put_at avoids
  Forward-put_at none to xs after o p = p
  Forward-put_at (some a) to xs after o p = Forward-put m a to xs after o p

  pub Backward-put_at :
      (q to before : Pointer) (xs : List ℕ)
      → avoids q xs ≡ false
      → Backward m before xs
      → Backward (put_at m q to) before xs
  unfolding put_at avoids
  Backward-put_at none to before xs o p = p
  Backward-put_at (some a) to before xs o p = Backward-put m a to before xs o p

  Forward-put_at_some :
      (a : ℕ) (to : Pointer) (xs : List ℕ) (after : Pointer)
      → last_or none xs ≡ some a
      → Distinct xs
      → Forward m xs after
      → Forward (put_at m (last_or none xs) to) xs to
  unfolding put_at
  Forward-put_at_some a to xs after e d p = rw e (Forward-put_last m a to xs after e d p)

  Forward-put_at_last :
      (to : Pointer) (xs : List ℕ) (after : Pointer)
      → Distinct xs
      → Forward m xs after
      → Forward (put_at m (last_or none xs) to) xs to
  unfolding Forward
  Forward-put_at_last to [] after d p = tt
  Forward-put_at_last to (x ∷ xs) after d p =
      let (a, e) = last_or-cons x xs in Forward-put_at_some a to (x ∷ xs) after e d p

  Backward-put_at_head :
      (to before : Pointer) (xs : List ℕ)
      → Distinct xs
      → Backward m before xs
      → Backward (put_at m (head_or xs none) to) to xs
  unfolding put_at Backward head_or Distinct
  Backward-put_at_head to before [] d p = tt
  Backward-put_at_head to before (x ∷ xs) d p = Backward-put_head m x to before xs d.0 p

pub Apart-cons : (y : ℕ) (xs ys : List ℕ) → Apart xs (y ∷ ys) → (has y xs ≡ false) × Apart xs ys
unfolding Apart has
Apart-cons y [] ys p = (refl, tt)
Apart-cons y (x ∷ xs) ys p =
    let (o, q) = Apart-cons y xs ys p.1 in (ground (arith, p.0), (ground (arith, p.0), q))

pub Apart-sym : (xs ys : List ℕ) → Apart xs ys → Apart ys xs
unfolding Apart
Apart-sym xs [] p = tt
Apart-sym xs (y ∷ ys) p = let (o, q) = Apart-cons y xs ys p in (o, Apart-sym xs ys q)

Apart-left : (xs ys zs : List ℕ) → Apart xs (ys ++ zs) → Apart xs ys
unfolding Apart
Apart-left [] ys zs p = tt
Apart-left (x ∷ xs) ys zs p = (ground (arith, has-append x ys zs, p.0), Apart-left xs ys zs p.1)

Apart-right : (xs ys zs : List ℕ) → Apart xs (ys ++ zs) → Apart xs zs
unfolding Apart
Apart-right [] ys zs p = tt
Apart-right (x ∷ xs) ys zs p = (ground (arith, has-append x ys zs, p.0), Apart-right xs ys zs p.1)

-- The chain of `xs` and `ys`, and the chain `c` that goes between them
module _ (next prev : ℕ → Pointer) (xs c ys : List ℕ) (distinct : Distinct (xs ++ (c ++ ys))) where
  right : Distinct (c ++ ys)
  right = Distinct-append_right xs (c ++ ys) distinct

  xs-Distinct : Distinct xs
  xs-Distinct = Distinct-append_left xs (c ++ ys) distinct

  pub c-Distinct : Distinct c
  c-Distinct = Distinct-append_left c ys right

  ys-Distinct : Distinct ys
  ys-Distinct = Distinct-append_right c ys right

  pub xs_c : Apart xs c
  xs_c = Apart-left xs c ys (Apart-append xs (c ++ ys) distinct)

  xs_ys : Apart xs ys
  xs_ys = Apart-right xs c ys (Apart-append xs (c ++ ys) distinct)

  pub c_ys : Apart c ys
  c_ys = Apart-append c ys right

  -- The two writes that lead around `c`.
  pub excise :
      Linked next prev none (xs ++ (c ++ ys)) none
      → Linked
          (put_at next (last_or none xs) (head_or ys none))
          (put_at prev (head_or ys none) (last_or none xs))
          none
          (xs ++ ys)
          none
  excise l =
      let to = head_or ys none in
      let from = last_or none xs in
      record {
        forward =
            Forward-append (put_at next from to) xs ys none
              (Forward-put_at_last next to xs (head_or (c ++ ys) none) xs-Distinct
                (Forward-left next xs (c ++ ys) none l.forward))
              (Forward-put_at next from to ys none (avoids-last xs ys xs_ys)
                (Forward-right next c ys none (Forward-right next xs (c ++ ys) none l.forward)));
        backward =
            Backward-append (put_at prev to from) none xs ys
              (Backward-put_at prev to from none xs (avoids-head xs ys xs_ys)
                (Backward-left prev none xs (c ++ ys) l.backward))
              (Backward-put_at_head prev from (last_or (last_or none xs) c) ys ys-Distinct (
                Backward-right prev (last_or none xs) c ys
                  (Backward-right prev none xs (c ++ ys) l.backward)));
      }

-- The four writes that put the chain of `x` and `c'` between `xs` and `ys`.
module _ (next prev : ℕ → Pointer) (xs : List ℕ) (x : ℕ) (c' ys : List ℕ)
    (distinct : Distinct (xs ++ ((x ∷ c') ++ ys))) where
  abbrev c : List ℕ
  c = x ∷ c'

  abbrev before : Pointer
  before = last_or none xs

  abbrev after : Pointer
  after = head_or ys none

  abbrev last_c : Pointer
  last_c = last_or none c

  abbrev next_end : ℕ → Pointer
  next_end = put_at next last_c after

  abbrev prev_start : ℕ → Pointer
  prev_start = put_at prev (some x) before

  insert-Forward :
      Forward next (xs ++ ys) none
      → Forward next c none
      → Forward (put_at next_end before (some x)) (xs ++ (c ++ ys)) none
  unfolding head_or
  insert-Forward l k =
      let c_xs = Apart-sym xs c (xs_c next prev xs c ys distinct) in
      Forward-append (put_at next_end before (some x)) xs (c ++ ys) none
        (Forward-put_at_last next_end (some x) xs after (xs-Distinct next prev xs c ys distinct) (
          Forward-put_at next last_c after xs after (avoids-last c xs c_xs)
            (Forward-left next xs ys none l)))
        (Forward-append (put_at next_end before (some x)) c ys none
          (Forward-put_at next_end before (some x) c after
            (avoids-last xs c (xs_c next prev xs c ys distinct))
            (Forward-put_at_last next after c none (c-Distinct next prev xs c ys distinct) k))
          (Forward-put_at next_end before (some x) ys none
            (avoids-last xs ys (xs_ys next prev xs c ys distinct))
            (Forward-put_at next last_c after ys none
              (avoids-last c ys (c_ys next prev xs c ys distinct))
              (Forward-right next xs ys none l))))

  insert-Backward :
      Backward prev none (xs ++ ys)
      → Backward prev none c
      → Backward (put_at prev_start after last_c) none (xs ++ (c ++ ys))
  unfolding last_or head_or
  insert-Backward l k =
      let p = put_at prev_start after last_c in
      let ys_c = Apart-sym c ys (c_ys next prev xs c ys distinct) in
      Backward-append p none xs (c ++ ys)
        (Backward-put_at prev_start after last_c none xs
          (avoids-head xs ys (xs_ys next prev xs c ys distinct))
          (Backward-put_at prev (some x) before none xs
            (avoids-head xs c (xs_c next prev xs c ys distinct)) (Backward-left prev none xs ys l)))
        (Backward-append p before c ys
          (Backward-put_at prev_start after last_c before c
            (avoids-head c ys (c_ys next prev xs c ys distinct))
            (Backward-put_at_head prev before none c (c-Distinct next prev xs c ys distinct) k))
          (Backward-put_at_head prev_start last_c before ys (ys-Distinct next prev xs c ys distinct)
            (Backward-put_at prev (some x) before before ys (avoids-head ys c ys_c)
              (Backward-right prev none xs ys l))))

  pub insert :
      Linked next prev none (xs ++ ys) none
      → Linked next prev none (x ∷ c') none
      → Linked
          (put_at
            (put_at next (last_or none (x ∷ c')) (head_or ys none))
            (last_or none xs)
            (some x))
          (put_at
            (put_at prev (some x) (last_or none xs))
            (head_or ys none)
            (last_or none (x ∷ c')))
          none
          (xs ++ ((x ∷ c') ++ ys))
          none
  insert l k = record {
    forward = insert-Forward l.forward k.forward;
    backward = insert-Backward l.backward k.backward;
  }
