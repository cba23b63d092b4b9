-- ===== src/Relax/Ledger.antt =====
-- src/MaoRelax.cc: the invariant of the loop of `BuildFragments`, the sizes of the entries against the
-- fragments and the relax map.
use mao.Prelude.{
  ℕ, suc, ◌+◌, ◌%◌, ◌^◌, ◌≤◌, ◌<◌, ◌≡◌, refl, sym, ◌∙◌, ap, Bool, true, false, Option, none, some,
  List, [], ◌∷◌, ◌++◌, arith, ltb, ◌==◌, ◌||◌, Bool-cases, inl, inr, length, length-append,
}
use mao.Prelude.Checked.{>>=-eq-some}
use mathlib.Core.List.{append-nil, append_assoc}
use mao.Relax.Frag.{Frag}
use mao.Relax.Entry.{MaoEntry}
use mao.Relax.Build.{size_at, Build, Context, Place}
use mao.Relax.Directives.{build_entry, build_entries, new_build}
use mao.Relax.Effect.{Effect, stays, ends, Sized}
use mao.Relax.Labels.{is_float_entry, build_entry-Effect}
use mao.Relax.Sums.{sizes_from, sizes_from_same, sizes_from-snoc}

-- The fixed parts of some fragments together
unfoldable pub fixes : List Frag → ℕ
fixes [] = 0
fixes (f ∷ fragments) = f.fr_fix + fixes fragments

fixes-append : (xs ys : List Frag) → fixes (xs ++ ys) ≡ fixes xs + fixes ys
unfolding fixes
fixes-append [] ys = omega arith
fixes-append (x ∷ xs) ys = omega (arith, fixes-append xs ys)

-- The state when the loop reaches entry `n`: every fragment that is ended is in the relax map, with an
-- earlier entry, and no other; the sizes so far are the fixed parts of the fragments.
pub record Ledger (n : ℕ) (b : Build) : Type 0 where
  pub no_size : (j : ℕ) → n ≤ j → size_at b.size_map j ≡ 0
  pub not_relaxed : (k : ℕ) → length b.ended ≤ k → b.relax_map k ≡ none
  pub relaxed :
      (k : ℕ) → k < length b.ended → (entry : ℕ) × (b.relax_map k ≡ some entry) × (entry < n)
  pub sum : sizes_from b.size_map 0 n % 2 ^ 32 ≡ (fixes b.ended + b.frag.fr_fix) % 2 ^ 32

-- What the rest of the loop keeps of the state at entry `n`; the fragments that it ends, it ends there or later.
pub record Extends (n : ℕ) (b b' : Build) : Type 0 where
  pub rest : List Frag
  pub ended : b'.ended ≡ b.ended ++ rest
  pub sizes : (j : ℕ) → j < n → size_at b'.size_map j ≡ size_at b.size_map j
  pub same_relaxed : (k : ℕ) → k < length b.ended → b'.relax_map k ≡ b.relax_map k
  pub late :
      (k : ℕ)
      → length b.ended ≤ k
      → k < length b'.ended
      → (entry : ℕ) × (b'.relax_map k ≡ some entry) × (n ≤ entry)

module _ (n : ℕ) (b b' : Build) (l : Ledger n b) where
  other_sizes :
      (size : ℕ)
      → Sized n size b b'
      → (j : ℕ) → j < n
      → size_at b'.size_map j ≡ size_at b.size_map j
  other_sizes size s j h = s j ∙ ground arith

  sum_after :
      (size : ℕ)
      → Sized n size b b'
      → sizes_from b'.size_map 0 (suc n) % 2 ^ 32
        ≡ (fixes b.ended + (b.frag.fr_fix + size)) % 2 ^ 32
  sum_after size s =
      let before =
        sizes_from_same b.size_map b'.size_map 0 n (λ j x y. other_sizes size s j (omega arith)) in
      let all : 0 + n ≡ n = omega arith in
      let here : size_at b'.size_map n ≡ size = s n ∙ ground arith in
      let split = rw (all, here) at (sizes_from-snoc b'.size_map 0 n) in
      omega (arith, split, before, l.sum)

  no_size_after : (size : ℕ) → Sized n size b b' → (j : ℕ) → suc n ≤ j → size_at b'.size_map j ≡ 0
  no_size_after size s j h = s j ∙ ground (arith, l.no_size j (omega arith))

  step-Ledger : Effect n b b' → Ledger (suc n) b'
  unfolding fixes
  step-Ledger (stays size s fix same map) = record {
    no_size = no_size_after size s;
    not_relaxed = rw (same, map) l.not_relaxed;
    relaxed = rw (same, map) (λ k h. let (e, r, before) = l.relaxed k h in (e, r, omega arith));
    sum = rw same (omega (arith, sum_after size s, fix));
  }
  step-Ledger (ends size f s fix more fresh map) =
      let long : length b'.ended ≡ length b.ended + 1 =
        ap length more ∙ length-append b.ended (f ∷ []) in
      let total : fixes b'.ended ≡ fixes b.ended + (f.fr_fix + 0) =
        ap fixes more ∙ fixes-append b.ended (f ∷ []) in
      record {
        no_size = no_size_after size s;
        not_relaxed = λ k h.
            let other : (k == length b.ended) ≡ false = ground (arith, long) in
            rw (map, other) (l.not_relaxed k (omega (arith, long)));
        relaxed = λ k h. elim (Bool-cases (k == length b.ended)) [
          | inl y ↦ (n, rw (map, y) refl, omega arith)
          | inr n' ↦
              let (e, r, before) = l.relaxed k (ground (arith, long, n')) in
              (e, rw (map, n') r, omega arith)
        ];
        sum = omega (arith, sum_after size s, fix, fresh, total);
      }

  step-Extends : Effect n b b' → Extends n b b'
  step-Extends (stays size s fix same map) = record {
    rest = [];
    ended = same ∙ sym (append-nil b.ended);
    sizes = other_sizes size s;
    same_relaxed = λ k h. rw map refl;
    late = λ k h i. absurd (omega (arith, ap length same));
  }
  step-Extends (ends size f s fix more fresh map) =
      let long : length b'.ended ≡ length b.ended + 1 =
        ap length more ∙ length-append b.ended (f ∷ []) in
      record {
        rest = f ∷ [];
        ended = more;
        sizes = other_sizes size s;
        same_relaxed =
            λ k h. let other : (k == length b.ended) ≡ false = ground arith in rw (map, other) refl;
        late = λ k h i.
            let here : (k == length b.ended) ≡ true = ground (arith, long) in
            (n, rw (map, here) refl, omega arith);
      }

Extends-refl : (n : ℕ) (b : Build) → Extends n b b
Extends-refl n b = record {
  rest = [];
  ended = sym (append-nil b.ended);
  sizes = λ j h. refl;
  same_relaxed = λ k h. refl;
  late = λ k h i. absurd (omega arith);
}

Extends-trans : (n m : ℕ) (a b c : Build) → n ≤ m → Extends n a b → Extends m b c → Extends n a c
Extends-trans n m a b c le x y =
    let long : length b.ended ≡ length a.ended + length x.rest =
      ap length x.ended ∙ length-append a.ended x.rest in
    record {
      rest = x.rest ++ y.rest;
      ended =
          y.ended
          ∙ ap (λ (fs : List Frag). fs ++ y.rest) x.ended
          ∙ append_assoc a.ended x.rest y.rest;
      sizes = λ j h. y.sizes j (omega arith) ∙ x.sizes j h;
      same_relaxed = λ k h. y.same_relaxed k (omega (arith, long)) ∙ x.same_relaxed k h;
      late = λ k h i. elim (Bool-cases (ltb k (length b.ended))) [
        | inl early ↦
            let (e, r, after) = x.late k h (ground (arith, early)) in
            (e, y.same_relaxed k (ground (arith, early)) ∙ r, after)
        | inr behind ↦
            let (e, r, after) = y.late k (ground (arith, behind)) i in (e, r, omega arith)
      ];
    }

-- Whether some directive's size does not go into the fragment
unfoldable pub has_float : List MaoEntry → Bool
has_float [] = false
has_float (e ∷ entries) = is_float_entry e || has_float entries

-- The state before the loop
pub new_build-Ledger :
    (symbols : List ℕ → Option Place) (generic_bignum : List ℕ)
    → Ledger 0 (new_build symbols generic_bignum)
unfolding new_build sizes_from fixes
new_build-Ledger symbols generic_bignum = record {
  no_size = λ j h. refl;
  not_relaxed = λ k h. refl;
  relaxed = λ k h. absurd (omega arith);
  sum = refl;
}

suc_is : (n : ℕ) → n + 1 ≡ suc n
suc_is n = omega arith

-- What the loop leaves behind
pub record Built (n : ℕ) (entries : List MaoEntry) (b b' : Build) : Type 0 where
  pub ledger : Ledger (n + length entries) b'
  pub extends : Extends n b b'

-- The loop of `BuildFragments` keeps the invariant, where no directive's size is left out of its fragment.
pub build_entries-Built :
    (c : Context) (n : ℕ) (entries : List MaoEntry) (b b' : Build)
    → has_float entries ≡ false
    → Ledger n b
    → build_entries c n entries b ≡ some b'
    → Built n entries b b'
unfolding has_float build_entries
build_entries-Built c n [] b b' f l h =
    let all : n + 0 ≡ n = omega arith in
    let same : b ≡ b' = cc h in
    record { ledger = rw (all, sym same) l; extends = rw (sym same) (Extends-refl n b) }
build_entries-Built c n (e ∷ entries) b b' f l h =
    let (r, here, later) = >>=-eq-some (build_entry c n e b) _ h in
    let effect =
      build_entry-Effect c n e b r (ground (arith, f)) (l.no_size n (omega arith)) here in
    let next : Build = record r.1 { section = r.1.section ++ r.0 ∷ [] } in
    let first = step-Ledger n b r.1 l effect in
    let extended = step-Extends n b r.1 l effect in
    let l' : Ledger (n + 1) next = rw (suc_is n) (record {
      no_size = first.no_size;
      not_relaxed = first.not_relaxed;
      relaxed = first.relaxed;
      sum = first.sum;
    }) in
    let x' : Extends n b next = record {
      rest = extended.rest;
      ended = extended.ended;
      sizes = extended.sizes;
      same_relaxed = extended.same_relaxed;
      late = extended.late;
    } in
    let built = build_entries-Built c (n + 1) entries next b' (ground (arith, f)) l' later in
    let all : n + length (e ∷ entries) ≡ n + 1 + length entries = omega arith in
    record {
      ledger = rw all built.ledger;
      extends = Extends-trans n (n + 1) b next b' (omega arith) x' built.extends;
    }
