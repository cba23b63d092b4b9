-- ===== src/DataFlow/Sets.antt =====
-- What the set operations of the solver (src/MaoDataFlow.cc: `Transfer`, `Union`, and the
-- confluence set that `Solve` builds) mean for the members.
use mao.Prelude.{
  ℕ, ◌<◌, ◌≡◌, refl, sym, ◌∙◌, ap, inl, inr, Bool, true, false, not, ◌&&◌, ◌||◌, some, List, [],
  ◌∷◌, arith, ltb, ◌==◌, Bool-cases, length, All,
}
use mao.BitString.{BitString, union, minus, equals}
use mao.BitString.Members.{member, IsValid}
use mao.BitString.Algebra.{Yields, set_operations, equals_lem}
use mao.DataFlow.{transfer, fold_sets, union_all, insert}

-- A valid string of `n` bits.
pub record Fits (n : ℕ) (b : BitString) : Type 0 where
  pub valid : IsValid b
  pub width : b.number_of_bits ≡ n

-- Some element passes.
abbrev pub any {ℓ} : {A : Type ℓ} → (A → Bool) → List A → Bool
any f [] = false
any f (x ∷ xs) = f x || any f xs

module _ (n : ℕ) where
  pub union-Yields :
      (a b : BitString) → Fits n a → Fits n b → Yields (union a b) n (λ i. member a i || member b i)
  union-Yields a b fa fb =
      let ops = set_operations a b fa.valid fb.valid (fb.width ∙ sym fa.width) in
      let (c, e, v, w, h) = ops.0 in (c, e, v, w ∙ fa.width, h)

  minus-Yields :
      (a b : BitString)
      → Fits n a
      → Fits n b
      → Yields (minus a b) n (λ i. member a i && not (member b i))
  minus-Yields a b fa fb =
      let ops = set_operations a b fa.valid fb.valid (fb.width ∙ sym fa.width) in
      let (c, e, v, w, h) = ops.2 in (c, e, v, w ∙ fa.width, h)

  -- `Transfer`: out = gen U (in - kill), member by member.
  pub transfer-Yields :
      (inset gen kill : BitString)
      → Fits n inset
      → Fits n gen
      → Fits n kill
      → Yields
          (transfer inset gen kill)
          n
          (λ i. member gen i || (member inset i && not (member kill i)))
  unfolding transfer
  transfer-Yields inset gen kill fi fg fk =
      let (rest, e, v, w, h) = minus-Yields inset kill fi fk in
      let (out, e', v', w', h') = union-Yields gen rest fg (record { valid = v; width = w }) in
      (out, rw e e', v', w', λ i. h' i ∙ ap (λ t. member gen i || t) (h i))

  fold-Yields :
      (out : BitString) (xs : List BitString)
      → Fits n out
      → All (Fits n) xs
      → Yields (fold_sets union out xs) n (λ i. member out i || any (λ x. member x i) xs)
  unfolding fold_sets
  fold-Yields out [] fo fs = (out, refl, fo.valid, fo.width, λ i. ground arith)
  fold-Yields out (x ∷ xs) fo fs =
      let (out', e, v, w, h) = union-Yields out x fo fs.0 in
      let (c, e', v', w', h') = fold-Yields out' xs (record { valid = v; width = w }) fs.1 in
      (c, rw e e', v', w', λ i. ground (arith, h i, h' i))

  -- `Union` of at least one set of one width: their union.
  pub union_all-Yields :
      (x : BitString) (xs : List BitString)
      → All (Fits n) (x ∷ xs)
      → Yields (union_all (x ∷ xs)) n (λ i. any (λ y. member y i) (x ∷ xs))
  unfolding union_all
  union_all-Yields x xs fs = fold-Yields x xs fs.0 fs.1

  -- `==` between two strings of one width.
  pub equals-Fits :
      (a b : BitString)
      → Fits n a
      → Fits n b
      → (r : Bool) × (equals a b ≡ some r)
        × (r ≡ true → (i : ℕ) → member a i ≡ member b i)
        × (((i : ℕ) → member a i ≡ member b i) → r ≡ true)
  equals-Fits a b fa fb =
      let (r, e, iff) = equals_lem a b fa.valid fb.valid (fb.width ∙ sym fa.width) in
      (r, e, iff.0, iff.1)

-- The confluence set holds what was inserted, in whatever order.
module _ (address : ℕ → ℕ) (distinct : (x y : ℕ) → address x ≡ address y → x ≡ y) where
  pub any-insert :
      (f : ℕ → Bool) (b : ℕ) (cs : List ℕ) → any f (insert address b cs) ≡ (f b || any f cs)
  unfolding insert
  any-insert f b [] = refl
  any-insert f b (c ∷ cs) = elim (Bool-cases (address b == address c)) [
    | inl e ↦ let same : b ≡ c = distinct b c (ground arith) in rw same (ground arith)
    | inr e ↦ ground (arith, any-insert f b cs)
  ]

  pub length-insert_pos : (b : ℕ) (cs : List ℕ) → 0 < length (insert address b cs)
  unfolding insert
  length-insert_pos b [] = omega arith
  length-insert_pos b (c ∷ cs) = ground arith

  pub All-insert {κ} :
      (P : ℕ → Type κ) (b : ℕ) (cs : List ℕ) → P b → All P cs → All P (insert address b cs)
  unfolding insert
  All-insert P b [] pb ps = (pb, tt)
  All-insert P b (c ∷ cs) pb ps = elim (Bool-cases (ltb (address b) (address c))) [
    | inl e ↦ rw e (pb, ps)
    | inr e ↦ elim (Bool-cases (address b == address c)) [
      | inl e' ↦ rw (e, e') ps
      | inr e' ↦ rw (e, e') (ps.0, All-insert P b cs pb ps.1)
    ]
  ]
