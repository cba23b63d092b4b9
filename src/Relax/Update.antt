-- ===== src/Relax/Update.antt =====
-- src/MaoRelax.cc: how `Go` updates the sizes from the relaxed fragments.
use mao.Prelude.{
  ℕ, ◌+◌, ◌-◌, ◌%◌, ◌^◌, ◌<◌, ◌≡◌, refl, ◌∙◌, none, some, List, [], ◌∷◌, arith, ltb, ◌==◌,
  if◌then◌else◌, Bool-cases, inl, inr,
}
use mao.Relax.Frag.{Frag}
use mao.Relax.Build.{sign_extend, EntryMap, size_at}
use mao.Relax.Sums.{sizes_from, sizes_from-put}
use mao.Relax.Go.{to_int, difference, add_size, update_size, update_sizes}

-- What lies between the address of a fragment and that of the next, beside the `old` bytes that the sizes
-- hold already; it counts up to multiples of 2 ^ 32.
abbrev pub gap : Frag → Frag → ℕ → ℕ
gap f fr_next old = fr_next.fr_address + (2 ^ 64 - f.fr_address % 2 ^ 64) + (2 ^ 64 - old % 2 ^ 64)

added :
    (entry x n : ℕ) (sizes : EntryMap)
    → sizes_from (add_size entry x sizes) 0 n % 2 ^ 32
      ≡ (sizes_from sizes 0 n + (if ltb entry n then x else 0)) % 2 ^ 32
added entry x n sizes =
    let all : 0 + n ≡ n = omega arith in
    let change =
      rw all at (sizes_from-put sizes entry (to_int (size_at sizes entry + x)) 0 n (omega arith)) in
    ground (arith, change)

update_size-gap :
    (f fr_next : Frag) (old entry n : ℕ) (sizes : EntryMap)
    → old < 2 ^ 32
    → sizes_from (update_size f fr_next old entry sizes) 0 n % 2 ^ 32
      ≡ (sizes_from sizes 0 n + (if ltb entry n then gap f fr_next old else 0)) % 2 ^ 32
unfolding update_size sign_extend
update_size-gap f fr_next old entry n sizes small =
    let var_size = to_int (difference (difference fr_next.fr_address f.fr_address) f.fr_fix) in
    let first = added entry var_size n sizes in
    let second =
      added entry (difference f.fr_fix (sign_extend old)) n (add_size entry var_size sizes) in
    elim (Bool-cases (f.fr_fix == sign_extend old)) [
      | inl y ↦ rw y (ground (arith, first, y))
      | inr n' ↦ rw n' (ground (arith, first, second))
    ]

-- Every fragment but the last one of a chain from place `k` on is in the relax map.
pub data InSync (relax_map : EntryMap) : ℕ → List Frag → List ℕ → Type 0 where
  last : {k : ℕ} (f : Frag) (old : List ℕ) → relax_map k ≡ none → InSync relax_map k (f ∷ []) old
  more :
      {k : ℕ} (f fr_next : Frag) (fragments : List Frag) (o : ℕ) (old : List ℕ) (entry : ℕ)
      → relax_map k ≡ some entry
      → o < 2 ^ 32
      → InSync relax_map (k + 1) (fr_next ∷ fragments) old
      → InSync relax_map k (f ∷ fr_next ∷ fragments) (o ∷ old)

-- What the fragments that end before entry `n` add
unfoldable pub gaps : EntryMap → ℕ → ℕ → List Frag → List ℕ → ℕ
gaps relax_map n k (f ∷ fr_next ∷ fragments) (o ∷ old) =
    (if ltb (size_at relax_map k) n then gap f fr_next o else 0)
    + gaps relax_map n (k + 1) (fr_next ∷ fragments) old
gaps relax_map n k _ _ = 0

update_last :
    (relax_map : EntryMap) (k : ℕ) (f : Frag) (old : List ℕ) (sizes : EntryMap)
    → relax_map k ≡ none
    → update_sizes k (f ∷ []) old relax_map sizes ≡ some sizes
unfolding update_sizes
update_last relax_map k f old sizes e = rw (update_sizes, e) refl

update_more :
    (relax_map : EntryMap) (k : ℕ) (f fr_next : Frag) (fragments : List Frag) (o : ℕ) (old : List ℕ)
    (sizes : EntryMap) (entry : ℕ)
    → relax_map k ≡ some entry
    → update_sizes k (f ∷ fr_next ∷ fragments) (o ∷ old) relax_map sizes
      ≡ update_sizes
          (k + 1)
          (fr_next ∷ fragments)
          old
          relax_map
          (update_size f fr_next o entry sizes)
unfolding update_sizes
update_more relax_map k f fr_next fragments o old sizes entry e = rw (update_sizes, e) refl

gaps_more :
    (relax_map : EntryMap) (n k : ℕ) (f fr_next : Frag) (fragments : List Frag) (o : ℕ)
    (old : List ℕ) (entry : ℕ)
    → relax_map k ≡ some entry
    → gaps relax_map n k (f ∷ fr_next ∷ fragments) (o ∷ old)
      ≡ (if ltb entry n then gap f fr_next o else 0)
        + gaps relax_map n (k + 1) (fr_next ∷ fragments) old
unfolding gaps
gaps_more relax_map n k f fr_next fragments o old entry e = rw e refl

-- The sizes that the loop leaves: it adds to those before an entry what the fragments add that end before it.
pub record Updated (relax_map : EntryMap) (k : ℕ) (fragments : List Frag) (old : List ℕ)
    (sizes : EntryMap) : Type 0 where
  pub sizes' : EntryMap
  pub returns : update_sizes k fragments old relax_map sizes ≡ some sizes'
  pub sums :
      (n : ℕ)
      → sizes_from sizes' 0 n % 2 ^ 32
        ≡ (sizes_from sizes 0 n + gaps relax_map n k fragments old) % 2 ^ 32

module _ (relax_map : EntryMap) (k : ℕ) (f : Frag) (sizes : EntryMap) where
  updated_last : (old : List ℕ) → relax_map k ≡ none → Updated relax_map k (f ∷ []) old sizes
  unfolding gaps
  updated_last old e = record {
    sizes' = sizes;
    returns = update_last relax_map k f old sizes e;
    sums = λ n. omega arith;
  }

  updated_more :
      (fr_next : Frag) (fragments : List Frag) (o : ℕ) (old : List ℕ) (entry : ℕ)
      → relax_map k ≡ some entry
      → o < 2 ^ 32
      → Updated relax_map (k + 1) (fr_next ∷ fragments) old (update_size f fr_next o entry sizes)
      → Updated relax_map k (f ∷ fr_next ∷ fragments) (o ∷ old) sizes
  updated_more fr_next fragments o old entry e small u = record {
    sizes' = u.sizes';
    returns = update_more relax_map k f fr_next fragments o old sizes entry e ∙ u.returns;
    sums = λ n. omega (
      arith,
      update_size-gap f fr_next o entry n sizes small,
      u.sums n,
      gaps_more relax_map n k f fr_next fragments o old entry e,
    );
  }

pub update_sizes-Updated :
    (relax_map : EntryMap) (k : ℕ) (fragments : List Frag) (old : List ℕ) (sizes : EntryMap)
    → InSync relax_map k fragments old
    → Updated relax_map k fragments old sizes
update_sizes-Updated relax_map k [] old sizes s = elim s [ ]
update_sizes-Updated relax_map k (f ∷ fr_next ∷ fragments) [] sizes s = elim s [ ]
update_sizes-Updated relax_map k (f ∷ []) old sizes (last _ _ e) =
    updated_last relax_map k f sizes old e
update_sizes-Updated relax_map k (f ∷ fr_next ∷ fragments) (o ∷ old) sizes
      (more _ _ _ _ _ entry e small rest) =
    updated_more relax_map k f sizes fr_next fragments o old entry e small (
      update_sizes-Updated relax_map (k + 1) (fr_next ∷ fragments) old
        (update_size f fr_next o entry sizes) rest)
