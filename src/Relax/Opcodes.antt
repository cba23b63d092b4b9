-- ===== src/Relax/Opcodes.antt =====
-- src/MaoRelax.cc: `Go` puts the opcodes of the instructions back.
use mao.Prelude.{
  ℕ, zero, suc, ◌+◌, ◌<◌, ◌≡◌, ◌≢◌, refl, sym, ◌∙◌, true, false, Option, some, List, [], ◌∷◌, arith,
  ◌==◌, Bool-cases, Option-cases, inl, inr,
}
use mao.Relax.Frag.{Frag}
use mao.Relax.Entry.{MaoEntry}
use mao.Relax.Build.{Build, Context}
use mao.Relax.Directives.{build_fragments}
use mao.Prelude.Holds.{Holds, Holds-elim, Holds-bind, Holds-then}
use mao.Relax.Chain.{IsRelaxing, Settled, opcode_at, relax_loop_settles}
use mao.Relax.Go.{
  Opcodes, Relaxing, Relaxed, relax_loop, update_sizes, go, save_state, restore_state,
}

-- The opcodes are put back.
front :
    (f : Frag) (fs : List Frag) (j : ℕ)
    → f.fr_opcode ≢ some j
    → ((i : ℕ) → opcode_at fs i ≢ some j)
    → (i : ℕ) → opcode_at (f ∷ fs) i ≢ some j
front f fs j h rest zero = h
front f fs j h rest (suc i) = rest i

module _ (original : Opcodes) (state : ℕ → ℕ) where
  restored :
      (k : ℕ) (fs : List Frag) (opcodes : Opcodes)
      → ((i entry : ℕ) → opcode_at fs i ≡ some entry → state (k + i) ≡ original entry)
      → (j : ℕ) → (((i : ℕ) → opcode_at fs i ≢ some j) → opcodes j ≡ original j)
      → restore_state k fs state opcodes j ≡ original j
  unfolding restore_state
  restored k [] opcodes saved j h = h (λ i p. cc p)
  restored k (f ∷ fs) opcodes saved j h =
      let saved' : (i entry : ℕ)
          → opcode_at fs i ≡ some entry
          → state (k + 1 + i) ≡ original entry =
        (λ i entry p.
          let e : k + suc i ≡ k + 1 + i = omega arith in rw e at (saved (suc i) entry p)) in
      elim (Option-cases f.fr_opcode) [
        | inl nothing ↦ rw nothing (
            restored (k + 1) fs opcodes saved' j
              (λ rest. h (front f fs j (λ p. cc (nothing, p)) rest)))
        | inr (e, points) ↦
            let here : state k ≡ original e =
              let z : k + 0 ≡ k = omega arith in rw z at (saved 0 e points) in
            rw points (
              restored (k + 1) fs _ saved' j (λ rest. elim (Bool-cases (j == e)) [
                | inl y ↦ let same : j ≡ e = ground (arith, y) in rw (y, same) here
                | inr n ↦ rw n (
                    h (
                      front f fs j
                        (λ p. let same : e ≡ j = cc (points, p) in ground (arith, n, same)) rest))
              ]))
      ]

saved_before :
    (k : ℕ) (fs : List Frag) (opcodes : Opcodes) (state : ℕ → ℕ) (j : ℕ)
    → j < k
    → save_state k fs opcodes state j ≡ state j
unfolding save_state
saved_before k [] opcodes state j h = refl
saved_before k (f ∷ fs) opcodes state j h = elim (Option-cases f.fr_opcode) [
  | inl nothing ↦ rw nothing (saved_before (k + 1) fs opcodes state j (omega arith))
  | inr (e, points) ↦
      let other : (j == k) ≡ false = ground arith in
      rw points (saved_before (k + 1) fs opcodes _ j (omega arith) ∙ rw other refl)
]

saved :
    (k : ℕ) (fs : List Frag) (opcodes : Opcodes) (state : ℕ → ℕ) (i entry : ℕ)
    → opcode_at fs i ≡ some entry
    → save_state k fs opcodes state (k + i) ≡ opcodes entry
unfolding save_state
saved k [] opcodes state i entry h = cc h
saved k (f ∷ fs) opcodes state zero entry h =
    let z : k + 0 ≡ k = omega arith in
    let same : (k == k) ≡ true = ground arith in
    rw (h, z) (saved_before (k + 1) fs opcodes _ k (omega arith) ∙ rw same refl)
saved k (f ∷ fs) opcodes state (suc i) entry h =
    let e : k + suc i ≡ k + 1 + i = omega arith in rw e (saved (k + 1) fs opcodes _ i entry h)

-- What the relaxed chain points at, and the opcodes that it does not point at
abbrev Points : List Frag → Opcodes → List Frag × Opcodes → Type 0
Points fs opcodes (fs', opcodes') =
    ((i : ℕ) → opcode_at fs' i ≡ opcode_at fs i)
    × ((j : ℕ) → ((i : ℕ) → opcode_at fs i ≢ some j) → opcodes' j ≡ opcodes j)

Settled-Points :
    (fs : List Frag) (opcodes : Opcodes) (m : Option (List Frag × Opcodes))
    → Settled fs opcodes m
    → Holds (Points fs opcodes) m
Settled-Points fs opcodes m s = rw s.returns (s.points, s.others)

go_restores :
    (relax_segment : Relaxing) (passes : ℕ)
    → IsRelaxing relax_segment passes
    → (fuel : ℕ) → passes < fuel
    → (c : Context) (entries : List MaoEntry) (b : Build) (opcodes : Opcodes) (entry : ℕ)
    → Holds
        (λ (r : Relaxed). r.opcodes entry ≡ opcodes entry)
        (go relax_segment fuel c entries b opcodes)
unfolding go
go_restores relax_segment passes laws fuel enough c entries b opcodes entry =
    let Restored : Relaxed → Type 0 = (λ r. r.opcodes entry ≡ opcodes entry) in
    Holds-bind Restored (build_fragments c entries b) _ (λ (fragments, built).
      Holds-then Restored (Points fragments opcodes)
        (relax_loop relax_segment fuel 0 fragments opcodes) _
        (Settled-Points fragments opcodes _
          (relax_loop_settles relax_segment passes laws fuel fragments opcodes enough))
        (λ (fragments', opcodes') (points, others).
          Holds-bind Restored (update_sizes 0 fragments' _ built.relax_map built.size_map) _
            (λ sizes.
              restored opcodes (save_state 0 fragments opcodes (λ _. 0)) 0 fragments' opcodes'
                (λ i e p. saved 0 fragments opcodes (λ _. 0) i e (sym (points i) ∙ p)) entry
                (λ free. others entry (λ i p. free i (points i ∙ p))))))

-- `Go` leaves every opcode as it was: where it returns, for a `relax_segment` that writes to no other
-- opcodes than those that the fragments point at, keeps what they point at, and settles, with more rounds
-- than passes.
pub go-opcodes :
    (relax_segment : Relaxing) (passes : ℕ)
    → IsRelaxing relax_segment passes
    → (fuel : ℕ) → passes < fuel
    → (c : Context) (entries : List MaoEntry) (b : Build) (opcodes : Opcodes) (r : Relaxed)
    → go relax_segment fuel c entries b opcodes ≡ some r
    → (entry : ℕ) → r.opcodes entry ≡ opcodes entry
go-opcodes relax_segment passes laws fuel enough c entries b opcodes r h entry =
    Holds-elim (λ (x : Relaxed). x.opcodes entry ≡ opcodes entry) _ r
      (go_restores relax_segment passes laws fuel enough c entries b opcodes entry) h
