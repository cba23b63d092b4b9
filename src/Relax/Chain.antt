-- ===== src/Relax/Chain.antt =====
-- src/MaoRelax.cc: the chain of fragments that `Go` hands to the relaxation, and what comes back.
use mao.Prelude.{
  ℕ, zero, suc, ◌+◌, ◌%◌, ◌^◌, ◌≤◌, ◌<◌, ◌≡◌, ◌≢◌, refl, sym, ◌∙◌, true, false, Option, some, List,
  [], ◌∷◌, ◌++◌, map, arith, Bool-cases, ◌⊎◌, inl, inr, length, get_or, All,
}
use mao.Relax.Frag.{Frag, new_fragment}
use mao.Relax.Build.{EntryMap, size_at, Build}
use mao.Relax.Go.{to_int, Opcodes, Relaxing, relax_loop}
use mao.Relax.Update.{gaps, InSync, last, more}
use mao.Relax.Ledger.{fixes, Ledger}

-- The entry whose opcode the fragment in some place of the chain points at
abbrev pub opcode_at : List Frag → ℕ → Option ℕ
opcode_at fs i = (get_or fs i new_fragment).fr_opcode

-- What the program relies on of `relax_segment`: it keeps the chain and what the fragments point at, the
-- first fragment has the address 0, it writes to no other opcodes, and from some pass on nothing changes.
pub record IsRelaxing (relax_segment : Relaxing) (passes : ℕ) : Type 0 where
  pub same_chain :
      (pass : ℕ) (fs : List Frag) (opcodes : Opcodes)
      → length (relax_segment pass fs opcodes).0 ≡ length fs
  pub same_opcodes :
      (pass : ℕ) (fs : List Frag) (opcodes : Opcodes) (i : ℕ)
      → opcode_at (relax_segment pass fs opcodes).0 i ≡ opcode_at fs i
  pub elsewhere :
      (pass : ℕ) (fs : List Frag) (opcodes : Opcodes) (j : ℕ)
      → ((i : ℕ) → opcode_at fs i ≢ some j)
      → (relax_segment pass fs opcodes).1 j ≡ opcodes j
  pub first_address :
      (pass : ℕ) (fs : List Frag) (opcodes : Opcodes)
      → (get_or (relax_segment pass fs opcodes).0 0 new_fragment).fr_address ≡ 0
  pub settles :
      (pass : ℕ) (fs : List Frag) (opcodes : Opcodes)
      → passes ≤ pass
      → (relax_segment pass fs opcodes).2 ≡ false

-- The chain behind the last pass
pub record Settled (fs : List Frag) (opcodes : Opcodes) (result : Option (List Frag × Opcodes))
    : Type 0 where
  pub fragments : List Frag
  pub opcodes' : Opcodes
  pub returns : result ≡ some (fragments, opcodes')
  pub same_length : length fragments ≡ length fs
  pub points : (i : ℕ) → opcode_at fragments i ≡ opcode_at fs i
  pub others : (j : ℕ) → ((i : ℕ) → opcode_at fs i ≢ some j) → opcodes' j ≡ opcodes j
  pub from_zero : (get_or fragments 0 new_fragment).fr_address ≡ 0

module _ (relax_segment : Relaxing) (passes : ℕ) (laws : IsRelaxing relax_segment passes) where
  once :
      (fuel pass : ℕ) (fs : List Frag) (opcodes : Opcodes)
      → (relax_segment pass fs opcodes).2 ≡ false
      → Settled fs opcodes (relax_loop relax_segment (suc fuel) pass fs opcodes)
  unfolding relax_loop
  once fuel pass fs opcodes e = record {
    fragments = (relax_segment pass fs opcodes).0;
    opcodes' = (relax_segment pass fs opcodes).1;
    returns = rw e refl;
    same_length = laws.same_chain pass fs opcodes;
    points = laws.same_opcodes pass fs opcodes;
    others = laws.elsewhere pass fs opcodes;
    from_zero = laws.first_address pass fs opcodes;
  }

  again :
      (fuel pass : ℕ) (fs : List Frag) (opcodes : Opcodes)
      → (relax_segment pass fs opcodes).2 ≡ true
      → Settled (relax_segment pass fs opcodes).0 (relax_segment pass fs opcodes).1 (
          relax_loop relax_segment fuel
            (pass + 1)
            (relax_segment pass fs opcodes).0
            (relax_segment pass fs opcodes).1)
      → Settled fs opcodes (relax_loop relax_segment (suc fuel) pass fs opcodes)
  unfolding relax_loop
  again fuel pass fs opcodes e s = record {
    fragments = s.fragments;
    opcodes' = s.opcodes';
    returns = rw e s.returns;
    same_length = s.same_length ∙ laws.same_chain pass fs opcodes;
    points = λ i. s.points i ∙ laws.same_opcodes pass fs opcodes i;
    others = λ j h.
        s.others j (λ i p. h i (sym (laws.same_opcodes pass fs opcodes i) ∙ p))
        ∙ laws.elsewhere pass fs opcodes j h;
    from_zero = s.from_zero;
  }

  -- With more rounds than passes the loop returns.
  relax_loop-Settled :
      (fuel pass : ℕ) (fs : List Frag) (opcodes : Opcodes)
      → passes < pass + fuel
      → Settled fs opcodes (relax_loop relax_segment fuel pass fs opcodes)
        ⊎ ((passes < pass) × (fuel ≡ 0))
  relax_loop-Settled zero pass fs opcodes h = inr (omega arith, refl)
  relax_loop-Settled (suc fuel) pass fs opcodes h =
      elim (Bool-cases (relax_segment pass fs opcodes).2) [
        | inr e ↦ inl (once fuel pass fs opcodes e)
        | inl e ↦
            elim (relax_loop-Settled fuel (pass + 1) (relax_segment pass fs opcodes).0
              (relax_segment pass fs opcodes).1 (omega arith)) [
                | inl s ↦ inl (again fuel pass fs opcodes e s)
                | inr (past, none_left) ↦
                    let same = laws.settles pass fs opcodes (omega arith) in cc (same, e)
              ]
      ]

  pub relax_loop_settles :
      (fuel : ℕ) (fs : List Frag) (opcodes : Opcodes)
      → passes < fuel
      → Settled fs opcodes (relax_loop relax_segment fuel 0 fs opcodes)
  relax_loop_settles fuel fs opcodes h = elim (relax_loop-Settled fuel 0 fs opcodes (omega arith)) [
    | inl s ↦ s
    | inr (past, e) ↦ absurd (omega arith)
  ]

-- The chain that comes back is in step with the relax map.
module _ (n : ℕ) (b : Build) (l : Ledger n b) where
  pub chain-InSync :
      (k : ℕ) (fragments : List Frag) (old : List ℕ)
      → k + length fragments ≡ length b.ended + 1
      → length old ≡ length fragments
      → 1 ≤ length fragments
      → All (λ (o : ℕ). o < 2 ^ 32) old
      → InSync b.relax_map k fragments old
  chain-InSync k [] old e same one small = absurd (omega arith)
  chain-InSync k (f ∷ []) old e same one small = last f old (l.not_relaxed k (omega arith))
  chain-InSync k (f ∷ fr_next ∷ fragments) (o ∷ old) e same one small =
      let (entry, r, before) = l.relaxed k (omega arith) in
      more f fr_next fragments o old entry r small.0 (
        chain-InSync (k + 1) (fr_next ∷ fragments) old (omega arith) (omega arith) (omega arith)
          small.1)
  chain-InSync k (f ∷ fr_next ∷ fragments) [] e same one small = absurd (omega arith)

unfoldable pub first_sum : ℕ → List ℕ → ℕ
first_sum zero old = 0
first_sum (suc d) [] = 0
first_sum (suc d) (o ∷ old) = o + first_sum d old

-- No fragment that ends at entry `n` or later counts before it.
gaps_none :
    (relax_map : EntryMap) (n k : ℕ) (fragments : List Frag) (old : List ℕ)
    → ((i : ℕ) → k ≤ i → i + 1 < k + length fragments → n ≤ size_at relax_map i)
    → gaps relax_map n k fragments old ≡ 0
unfolding gaps
gaps_none relax_map n k [] old late = refl
gaps_none relax_map n k (f ∷ []) old late = refl
gaps_none relax_map n k (f ∷ fr_next ∷ fragments) [] late = refl
gaps_none relax_map n k (f ∷ fr_next ∷ fragments) (o ∷ old) late =
    let here = late k (omega arith) (omega arith) in
    let rest =
      gaps_none relax_map n (k + 1) (fr_next ∷ fragments) old
        (λ i a b. late i (omega arith) (omega arith)) in
    ground (arith, here, rest)

-- The gaps of the first `d` fragments lead from the first address to that of fragment `d`.
pub gaps_lead :
    (relax_map : EntryMap) (n k d : ℕ) (fragments : List Frag) (old : List ℕ)
    → d < length fragments
    → length old ≡ length fragments
    → ((i : ℕ) → k ≤ i → i < k + d → size_at relax_map i < n)
    → ((i : ℕ) → k + d ≤ i → i + 1 < k + length fragments → n ≤ size_at relax_map i)
    → ((get_or fragments 0 new_fragment).fr_address
          + gaps relax_map n k fragments old
          + first_sum d old)
        % 2 ^ 32
      ≡ (get_or fragments d new_fragment).fr_address % 2 ^ 32
unfolding gaps first_sum
gaps_lead relax_map n k zero fragments old h same early late =
    let nothing =
      gaps_none relax_map n k fragments old (λ i a b. late i (omega arith) (omega arith)) in
    omega (arith, nothing)
gaps_lead relax_map n k (suc d) [] old h same early late = absurd (omega arith)
gaps_lead relax_map n k (suc d) (f ∷ []) old h same early late = absurd (omega arith)
gaps_lead relax_map n k (suc d) (f ∷ fr_next ∷ fragments) [] h same early late =
    absurd (omega arith)
gaps_lead relax_map n k (suc d) (f ∷ fr_next ∷ fragments) (o ∷ old) h same early late =
    let here = early k (omega arith) (omega arith) in
    let rest =
      gaps_lead relax_map n (k + 1) d (fr_next ∷ fragments) old (omega arith) (omega arith)
        (λ i a b. early i (omega arith) (omega arith))
        (λ i a b. late i (omega arith) (omega arith)) in
    ground (arith, here, rest)

-- The fixed parts before the relaxation, as `old_fr_fix` keeps them
abbrev pub old_fixes : List Frag → List ℕ
old_fixes fragments = map (λ (f : Frag). to_int f.fr_fix) fragments

pub length-old_fixes : (fragments : List Frag) → length (old_fixes fragments) ≡ length fragments
length-old_fixes [] = refl
length-old_fixes (f ∷ fragments) = omega (arith, length-old_fixes fragments)

pub old_fixes_small : (fragments : List Frag) → All (λ (o : ℕ). o < 2 ^ 32) (old_fixes fragments)
old_fixes_small [] = tt
old_fixes_small (f ∷ fragments) = (omega arith, old_fixes_small fragments)

pub first_sum-old_fixes :
    (xs ys : List Frag) → first_sum (length xs) (old_fixes (xs ++ ys)) % 2 ^ 32 ≡ fixes xs % 2 ^ 32
unfolding first_sum fixes
first_sum-old_fixes [] ys = refl
first_sum-old_fixes (x ∷ xs) ys = omega (arith, first_sum-old_fixes xs ys)
