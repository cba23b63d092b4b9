-- ===== src/Relax/Offsets.antt =====
-- src/MaoRelax.cc: `Go` returns, and its offsets are those of the relaxed fragments.
use mao.Prelude.{
  ℕ, ◌+◌, ◌%◌, ◌^◌, ◌≤◌, ◌<◌, ◌≡◌, refl, sym, ◌∙◌, ap, false, none, some, List, [], ◌∷◌, ◌++◌,
  arith, ◌||◌, Option-cases, inl, inr, length, length-append, get_or,
}
use mathlib.Core.List.{append_assoc}
use mao.Prelude.Checked.{◌>>=◌}
use mao.Relax.Frag.{Frag, new_fragment}
use mao.Relax.Entry.{MaoEntry}
use mao.Relax.Build.{last_fragment, end_last_fragment, EntryMap, Build, Context}
use mao.Relax.Directives.{build_entry, build_entries, build_fragments}
use mao.Relax.Sums.{sizes_from, sizes_from_same, offset_loop-sum}
use mao.Relax.Update.{gaps, Updated, update_sizes-Updated}
use mao.Relax.Ledger.{fixes, Ledger, Built, has_float, build_entries-Built}
use mao.Relax.Chain.{
  IsRelaxing, Settled, relax_loop_settles, chain-InSync, first_sum, gaps_lead, old_fixes,
  length-old_fixes, old_fixes_small, first_sum-old_fixes,
}
use mao.Relax.Go.{
  Opcodes, Relaxing, Relaxed, relax_loop, go, save_state, restore_state, offset_loop,
}

-- The loop over two parts of a section, one after the other
pub build_entries-append :
    (c : Context) (n : ℕ) (before after : List MaoEntry) (b : Build)
    → build_entries c n (before ++ after) b
      ≡ (build_entries c n before b >>= λ b'. build_entries c (n + length before) after b')
unfolding build_entries
build_entries-append c n [] after b = let e : n + 0 ≡ n = omega arith in rw e refl
build_entries-append c n (e ∷ before) after b = elim (Option-cases (build_entry c n e b)) [
  | inl nothing ↦ rw nothing refl
  | inr (r, here) ↦
      let place : n + length (e ∷ before) ≡ n + 1 + length before = omega arith in
      rw (here, place) (build_entries-append c (n + 1) before after _)
]

has_float-append : (xs ys : List MaoEntry) → has_float (xs ++ ys) ≡ (has_float xs || has_float ys)
unfolding has_float
has_float-append [] ys = refl
has_float-append (x ∷ xs) ys = ground (arith, has_float-append xs ys)

-- The address of the relaxed fragment in some place of the chain
abbrev pub address_of : Relaxed → ℕ → ℕ
address_of r k = (get_or r.fragments k new_fragment).fr_address

module _ (c : Context) (before : List MaoEntry) (e : MaoEntry) (after : List MaoEntry)
    (b₀ b b' : Build) where
  abbrev entries : List MaoEntry
  entries = before ++ e ∷ after

  abbrev n : ℕ
  n = length before

  module _ (no_floats : has_float entries ≡ false) (l : Ledger 0 b₀)
      (reached : build_entries c 0 before b₀ ≡ some b)
      (built : build_entries c 0 entries b₀ ≡ some b') where
    first : Built 0 before b₀ b
    first =
        build_entries-Built c 0 before b₀ b
          (ground (arith, no_floats, has_float-append before (e ∷ after))) l reached

    from_zero : 0 + n ≡ n
    from_zero = omega arith

    ledger : Ledger n b
    ledger = rw from_zero at first.ledger

    continues : build_entries c n (e ∷ after) b ≡ some b'
    continues =
        let split = rw (reached, from_zero) at (build_entries-append c 0 before (e ∷ after) b₀) in
        sym split ∙ built

    later : Built n (e ∷ after) b b'
    later =
        build_entries-Built c n (e ∷ after) b b'
          (ground (arith, no_floats, has_float-append before (e ∷ after))) ledger continues

    whole : Built 0 entries b₀ b'
    whole = build_entries-Built c 0 entries b₀ b' no_floats l built

    -- The chain of `BuildFragments`: the fragments ended when the entry was reached come first.
    abbrev chain : List Frag
    chain = end_last_fragment b'

    chain_split : (others : List Frag) × (chain ≡ b.ended ++ others)
    unfolding end_last_fragment
    chain_split =
        let x = later.extends in
        (
          x.rest ++ last_fragment b' ∷ [],
          ap (λ (fs : List Frag). fs ++ last_fragment b' ∷ []) x.ended
              ∙ append_assoc b.ended x.rest (last_fragment b' ∷ []),
        )

    length-chain : length chain ≡ length b'.ended + 1
    unfolding end_last_fragment
    length-chain = length-append b'.ended _

    reached_before : length b.ended ≤ length b'.ended
    reached_before =
        omega (arith, ap length later.extends.ended, length-append b.ended later.extends.rest)

    module _ (fragments : List Frag) (same : length fragments ≡ length chain)
        (starts : (get_or fragments 0 new_fragment).fr_address ≡ 0) where
      abbrev old : List ℕ
      old = old_fixes chain

      pub updated : Updated b'.relax_map 0 fragments old b'.size_map
      updated = update_sizes-Updated b'.relax_map 0 fragments old b'.size_map (
          chain-InSync (0 + length entries) b' whole.ledger 0 fragments old
            (omega (arith, same, length-chain)) (omega (arith, same, length-old_fixes chain))
            (omega (arith, same, length-chain)) (old_fixes_small chain))

      leads :
          (gaps b'.relax_map n 0 fragments old + first_sum (length b.ended) old) % 2 ^ 32
          ≡ (get_or fragments (length b.ended) new_fragment).fr_address % 2 ^ 32
      leads =
          let lead =
            gaps_lead b'.relax_map n 0 (length b.ended) fragments old
              (omega (arith, same, length-chain, reached_before))
              (omega (arith, same, length-old_fixes chain))
              (λ i x y.
                let (entry, r, h) = ledger.relaxed i (omega arith) in
                rw (later.extends.same_relaxed i (omega arith) ∙ r) h)
              (λ i x y.
                let (entry, r, h) =
                  later.extends.late i (omega arith) (omega (arith, same, length-chain)) in
                rw r h) in
          omega (arith, lead, starts)

      old_sum : first_sum (length b.ended) old % 2 ^ 32 ≡ fixes b.ended % 2 ^ 32
      old_sum = let (others, split) = chain_split in rw split (first_sum-old_fixes b.ended others)

      sum :
          sizes_from updated.sizes' 0 n % 2 ^ 32
          ≡ ((get_or fragments (length b.ended) new_fragment).fr_address + b.frag.fr_fix) % 2 ^ 32
      sum =
          let same_sizes =
            sizes_from_same b.size_map b'.size_map 0 n
              (λ j x y. later.extends.sizes j (omega arith)) in
          omega (arith, updated.sums n, same_sizes, ledger.sum, leads, old_sum)

-- What `Go` returns, from the state behind `BuildFragments` and the relaxed chain
module _ (relax_segment : Relaxing) (passes : ℕ) (laws : IsRelaxing relax_segment passes) (fuel : ℕ)
    (enough : passes < fuel) (c : Context) (before : List MaoEntry) (e : MaoEntry)
    (after : List MaoEntry) (b₀ b b' : Build) (opcodes : Opcodes)
    (no_floats : has_float (before ++ e ∷ after) ≡ false) (l : Ledger 0 b₀)
    (reached : build_entries c 0 before b₀ ≡ some b)
    (built : build_entries c 0 (before ++ e ∷ after) b₀ ≡ some b') where
  abbrev pub settled :
      Settled
        (end_last_fragment b')
        opcodes
        (relax_loop relax_segment fuel 0 (end_last_fragment b') opcodes)
  settled = relax_loop_settles relax_segment passes laws fuel (end_last_fragment b') opcodes enough

  abbrev sizes :
      Updated b'.relax_map 0 settled.fragments (old_fixes (end_last_fragment b')) b'.size_map
  sizes =
      updated c before e after b₀ b b' no_floats l reached built settled.fragments
        settled.same_length settled.from_zero

  abbrev loop : EntryMap × EntryMap
  loop = offset_loop (length (before ++ e ∷ after)) 0 0 sizes.sizes' (λ _. none)

  abbrev pub result : Relaxed
  result = record {
    size_map = loop.0;
    offset_map = loop.1;
    fragments = settled.fragments;
    opcodes =
        restore_state 0 settled.fragments (save_state 0 (end_last_fragment b') opcodes (λ _. 0))
          settled.opcodes';
    build = b';
  }

  pub go_returns : go relax_segment fuel c (before ++ e ∷ after) b₀ opcodes ≡ some result
  unfolding go build_fragments
  go_returns = rw (built, settled.returns, sizes.returns) refl

  pub offset_is :
      result.offset_map (length before)
      ≡ some ((address_of result (length b.ended) + b.frag.fr_fix) % 2 ^ 32)
  offset_is =
      let place : 0 + length before ≡ length before = omega arith in
      let offset = rw place at (
        offset_loop-sum (length (before ++ e ∷ after)) 0 0 sizes.sizes' (λ _. none) (length before)
          (omega (arith, length-append before (e ∷ after))) (omega arith)) in
      offset
      ∙ ap some (
          omega (
            arith,
            sum c before e after b₀ b b' no_floats l reached built settled.fragments
                settled.same_length settled.from_zero,
          ))
