-- ===== src/Entries/Chain.antt =====
-- Chains of entries: what a list of entries says of the fields `next_` and `prev_`.
use mao.Prelude.{
  ℕ, ◌≡◌, refl, inl, inr, Bool, true, false, ◌||◌, none, some, List, [], ◌∷◌, ◌++◌, arith, ◌==◌,
  ==_refl, Bool-cases,
}
use mao.Entries.{Pointer, put}

-- The first entry of the list, and of an empty one what comes after it
unfoldable pub head_or : List ℕ → Pointer → Pointer
head_or [] after = after
head_or (x ∷ xs) after = some x

-- The last entry of the list, and of an empty one what comes before it
unfoldable pub last_or : Pointer → List ℕ → Pointer
last_or before [] = before
last_or before (x ∷ xs) = last_or (some x) xs

unfoldable pub has : ℕ → List ℕ → Bool
has a [] = false
has a (x ∷ xs) = (a == x) || has a xs

-- No entry stands twice in the list.
unfoldable pub Distinct : List ℕ → Type 0
Distinct [] = Unit {0}
Distinct (x ∷ xs) = (has x xs ≡ false) × Distinct xs

-- No entry of the first list stands in the second.
unfoldable pub Apart : List ℕ → List ℕ → Type 0
Apart [] ys = Unit {0}
Apart (x ∷ xs) ys = (has x ys ≡ false) × Apart xs ys

-- The field `next` leads through the entries `xs` to `after`.
unfoldable pub Forward : (ℕ → Pointer) → List ℕ → Pointer → Type 0
Forward next [] after = Unit {0}
Forward next (x ∷ xs) after = (next x ≡ head_or xs after) × Forward next xs after

-- The field `prev` leads back through the entries `xs` to `before`.
unfoldable pub Backward : (ℕ → Pointer) → Pointer → List ℕ → Type 0
Backward prev before [] = Unit {0}
Backward prev before (x ∷ xs) = (prev x ≡ before) × Backward prev (some x) xs

pub head_or-append :
    (xs ys : List ℕ) (after : Pointer) → head_or (xs ++ ys) after ≡ head_or xs (head_or ys after)
unfolding head_or
head_or-append [] ys after = refl
head_or-append (x ∷ xs) ys after = refl

pub last_or-append :
    (before : Pointer) (xs ys : List ℕ) → last_or before (xs ++ ys) ≡ last_or (last_or before xs) ys
unfolding last_or
last_or-append before [] ys = refl
last_or-append before (x ∷ xs) ys = last_or-append (some x) xs ys

pub has-append : (a : ℕ) (xs ys : List ℕ) → has a (xs ++ ys) ≡ (has a xs || has a ys)
unfolding has
has-append a [] ys = refl
has-append a (x ∷ xs) ys = ground (arith, has-append a xs ys)

pub Apart-nil : (xs : List ℕ) → Apart xs []
unfolding Apart has
Apart-nil [] = tt
Apart-nil (x ∷ xs) = (refl, Apart-nil xs)

-- Two lists of distinct entries that are apart, and their concatenation.
pub Distinct-append_left : (xs ys : List ℕ) → Distinct (xs ++ ys) → Distinct xs
unfolding Distinct
Distinct-append_left [] ys d = tt
Distinct-append_left (x ∷ xs) ys d =
    (ground (arith, has-append x xs ys, d.0), Distinct-append_left xs ys d.1)

pub Distinct-append_right : (xs ys : List ℕ) → Distinct (xs ++ ys) → Distinct ys
unfolding Distinct
Distinct-append_right [] ys d = d
Distinct-append_right (x ∷ xs) ys d = Distinct-append_right xs ys d.1

pub Distinct-without :
    (xs : List ℕ) (e : ℕ) (ys : List ℕ) → Distinct (xs ++ (e ∷ ys)) → Distinct (xs ++ ys)
unfolding Distinct has
Distinct-without [] e ys d = d.1
Distinct-without (x ∷ xs) e ys d = (
  ground (arith, has-append x xs (e ∷ ys), has-append x xs ys, d.0),
  Distinct-without xs e ys d.1,
)

pub Apart-append : (xs ys : List ℕ) → Distinct (xs ++ ys) → Apart xs ys
unfolding Distinct Apart
Apart-append [] ys d = tt
Apart-append (x ∷ xs) ys d = (ground (arith, has-append x xs ys, d.0), Apart-append xs ys d.1)

pub Apart-member : (a : ℕ) (xs ys : List ℕ) → Apart xs ys → has a xs ≡ true → has a ys ≡ false
unfolding Apart has
Apart-member a [] ys p h = ground arith
Apart-member a (x ∷ xs) ys p h = elim (Bool-cases (a == x)) [
  | inl e ↦ let f : a ≡ x = ground arith in rw f p.0
  | inr e ↦ Apart-member a xs ys p.1 (ground arith)
]

pub has-last : (b : ℕ) (xs : List ℕ) → last_or none xs ≡ some b → has b xs ≡ true
unfolding has last_or
has-last b [] h = cc
has-last b (x ∷ []) h = ground arith
has-last b (x ∷ y ∷ xs) h = ground (arith, has-last b (y ∷ xs) h)

-- An entry of the list is none that is not in it.
pub has_apart : (x a : ℕ) (xs : List ℕ) → has x xs ≡ false → has a xs ≡ true → (x == a) ≡ false
has_apart x a xs o i = elim (Bool-cases (x == a)) [
  | inl e ↦ let f : x ≡ a = ground arith in let h : has a xs ≡ false = rw f at o in cc
  | inr e ↦ e
]

pub put_other : {A : Type 0} (m : ℕ → A) (k j : ℕ) (v : A) → (j == k) ≡ false → put m k v j ≡ m j
unfolding put
put_other m k j v e = rw e

pub put_same : {A : Type 0} (m : ℕ → A) (k : ℕ) (v : A) → put m k v k ≡ v
unfolding put
put_same m k v = rw ==_refl

module _ (next : ℕ → Pointer) where
  pub Forward-append :
      (xs ys : List ℕ) (after : Pointer)
      → Forward next xs (head_or ys after)
      → Forward next ys after
      → Forward next (xs ++ ys) after
  unfolding Forward
  Forward-append [] ys after p q = q
  Forward-append (x ∷ xs) ys after p q = (rw head_or-append p.0, Forward-append xs ys after p.1 q)

  pub Forward-left :
      (xs ys : List ℕ) (after : Pointer)
      → Forward next (xs ++ ys) after
      → Forward next xs (head_or ys after)
  unfolding Forward
  Forward-left [] ys after p = tt
  Forward-left (x ∷ xs) ys after p =
      (rw (← head_or-append xs ys after) p.0, Forward-left xs ys after p.1)

  pub Forward-right :
      (xs ys : List ℕ) (after : Pointer) → Forward next (xs ++ ys) after → Forward next ys after
  unfolding Forward
  Forward-right [] ys after p = p
  Forward-right (x ∷ xs) ys after p = Forward-right xs ys after p.1

  -- A write to another entry keeps the chain.
  pub Forward-put :
      (a : ℕ) (to : Pointer) (xs : List ℕ) (after : Pointer)
      → has a xs ≡ false
      → Forward next xs after
      → Forward (put next a to) xs after
  unfolding Forward has put
  Forward-put a to [] after o p = tt
  Forward-put a to (x ∷ xs) after o p =
      (ground (arith, p.0), Forward-put a to xs after (ground arith) p.1)

  -- A write to the last entry leads the chain elsewhere.
  pub Forward-put_last :
      (a : ℕ) (to : Pointer) (xs : List ℕ) (after : Pointer)
      → last_or none xs ≡ some a
      → Distinct xs
      → Forward next xs after
      → Forward (put next a to) xs to
  unfolding Forward has put last_or Distinct head_or
  Forward-put_last a to [] after l d p = tt
  Forward-put_last a to (x ∷ []) after l d p = (ground arith, tt)
  Forward-put_last a to (x ∷ y ∷ xs) after l d p = (
    rw (put_other next a x to (has_apart x a (y ∷ xs) d.0 (has-last a (y ∷ xs) l))) p.0,
    Forward-put_last a to (y ∷ xs) after l d.1 p.1,
  )

module _ (prev : ℕ → Pointer) where
  pub Backward-append :
      (before : Pointer) (xs ys : List ℕ)
      → Backward prev before xs
      → Backward prev (last_or before xs) ys
      → Backward prev before (xs ++ ys)
  unfolding Backward last_or
  Backward-append before [] ys p q = q
  Backward-append before (x ∷ xs) ys p q = (p.0, Backward-append (some x) xs ys p.1 q)

  pub Backward-left :
      (before : Pointer) (xs ys : List ℕ)
      → Backward prev before (xs ++ ys)
      → Backward prev before xs
  unfolding Backward
  Backward-left before [] ys p = tt
  Backward-left before (x ∷ xs) ys p = (p.0, Backward-left (some x) xs ys p.1)

  pub Backward-right :
      (before : Pointer) (xs ys : List ℕ)
      → Backward prev before (xs ++ ys)
      → Backward prev (last_or before xs) ys
  unfolding Backward last_or
  Backward-right before [] ys p = p
  Backward-right before (x ∷ xs) ys p = Backward-right (some x) xs ys p.1

  pub Backward-put :
      (a : ℕ) (to before : Pointer) (xs : List ℕ)
      → has a xs ≡ false
      → Backward prev before xs
      → Backward (put prev a to) before xs
  unfolding Backward has put
  Backward-put a to before [] o p = tt
  Backward-put a to before (x ∷ xs) o p =
      (ground (arith, p.0), Backward-put a to (some x) xs (ground arith) p.1)

  -- A write to the first entry leads the chain back elsewhere.
  pub Backward-put_head :
      (a : ℕ) (to before : Pointer) (xs : List ℕ)
      → has a xs ≡ false
      → Backward prev before (a ∷ xs)
      → Backward (put prev a to) to (a ∷ xs)
  unfolding Backward has put
  Backward-put_head a to before xs o p = (ground arith, Backward-put a to (some a) xs o p.1)
