-- ===== src/Relax/Result.antt =====
-- src/MaoRelax.cc: the offsets of entries and of labels.
use mao.Prelude.{
  ℕ, ◌+◌, ◌%◌, ◌^◌, ◌<◌, ◌≡◌, refl, sym, ◌∙◌, ap, true, false, Option, some, List, [], ◌∷◌, ◌++◌,
  Bool-cases, inl, inr, length,
}
use mao.Prelude.Checked.{>>=-eq-some}
use mao.SymbolTable.{same_name, find}
use mao.SymbolTable.Lookup.{same_name_refl}
use mao.Relax.Entry.{MaoEntry, label_entry}
use mao.Relax.Build.{Build, Context, Place}
use mao.Relax.Directives.{
  keeping, names_at, update_symbol, update_symbols, build_label, build_entry, build_entries,
  new_build,
}
use mao.Prelude.Holds.{Holds, Holds-elim, Holds-bind, Holds-then}
use mao.Relax.Ledger.{Ledger, has_float, new_build-Ledger, build_entries-Built}
use mao.Relax.Chain.{IsRelaxing}
use mao.Relax.Offsets.{build_entries-append, address_of, go_returns, offset_is, result}
use mao.Relax.Go.{Opcodes, Relaxing, Relaxed, go}

-- Behind the loop of `BuildFragments` over a section without `.dc.d`, `.dc.s` and `.dc.x`: every fragment
-- but the one that is being filled is in the relax map, with an entry of the section, and no other; the
-- sizes of all entries are together the fixed parts of all fragments, in 32 bits; nothing else has a size.
pub build_entries-Ledger :
    (c : Context) (entries : List MaoEntry) (symbols : List ℕ → Option Place)
    (generic_bignum : List ℕ) (b : Build)
    → has_float entries ≡ false
    → build_entries c 0 entries (new_build symbols generic_bignum) ≡ some b
    → Ledger (0 + length entries) b
build_entries-Ledger c entries symbols generic_bignum b f h =
    (build_entries-Built c 0 entries (new_build symbols generic_bignum) b f
      (new_build-Ledger symbols generic_bignum) h).ledger

-- For a `relax_segment` that keeps the chain, starts at address 0 and settles, and a section without
-- `.dc.d`, `.dc.s` and `.dc.x` over which `BuildFragments` passes: `Go` returns, with more rounds than
-- passes, and the offset of every entry is, in 32 bits, the relaxed address of the fragment that was being
-- filled when `BuildFragments` reached the entry, and the bytes that it had then.
pub go-offset_map :
    (relax_segment : Relaxing) (passes : ℕ)
    → IsRelaxing relax_segment passes
    → (fuel : ℕ) → passes < fuel
    → (c : Context) (before : List MaoEntry) (e : MaoEntry) (after : List MaoEntry)
    → (symbols : List ℕ → Option Place) (generic_bignum : List ℕ) (opcodes : Opcodes) (b b' : Build)
    → has_float (before ++ e ∷ after) ≡ false
    → build_entries c 0 before (new_build symbols generic_bignum) ≡ some b
    → build_entries c 0 (before ++ e ∷ after) (new_build symbols generic_bignum) ≡ some b'
    → (r : Relaxed) × (go relax_segment fuel c
          (before ++ e ∷ after)
          (new_build symbols generic_bignum)
          opcodes
        ≡ some r)
      × (r.offset_map (length before)
          ≡ some ((address_of r (length b.ended) + b.frag.fr_fix) % 2 ^ 32))
go-offset_map relax_segment passes laws fuel enough c before e after symbols generic_bignum opcodes
      b b' f reached built =
    let l = new_build-Ledger symbols generic_bignum in
    let b₀ = new_build symbols generic_bignum in
    (
      result relax_segment passes laws fuel enough c before e after b₀ b b' opcodes f l reached
          built,
      go_returns relax_segment passes laws fuel enough c before e after b₀ b b' opcodes f l reached
          built,
      offset_is relax_segment passes laws fuel enough c before e after b₀ b b' opcodes f l reached
          built,
    )

-- Where the case of a label puts its symbol
abbrev Puts : List ℕ → Place → Build → Type 0
Puts name p b = (b.symbols name ≡ some p) × (length b.ended ≡ p.frag) × (b.frag.fr_fix ≡ p.value)

update_symbol-Puts :
    (name other : List ℕ) (p : Place) (b : Build)
    → Puts name p b
    → Holds (Puts name p) (update_symbol other b)
unfolding update_symbol
update_symbol-Puts name other p b (here, fragment, value) =
    Holds-bind (Puts name p) (b.symbols other) _ (λ _. (
      elim (Bool-cases (same_name name other)) [
        | inl same ↦ rw (same, fragment, value) refl
        | inr different ↦ rw different here
      ],
      fragment,
      value,
    ))

update_symbols-Puts :
    (name : List ℕ) (p : Place) (names : List (List ℕ)) (b : Build)
    → Puts name p b
    → Holds (Puts name p) (update_symbols names b)
unfolding update_symbols
update_symbols-Puts name p [] b h = h
update_symbols-Puts name p (other ∷ names) b h =
    Holds-then (Puts name p) (Puts name p) (update_symbol other b) _
      (update_symbol-Puts name other p b h) (update_symbols-Puts name p names)

abbrev place_in : Build → Place
place_in b = record { frag = length b.ended; value = b.frag.fr_fix }

update_symbol-Puts_own :
    (name : List ℕ) (b : Build) → Holds (Puts name (place_in b)) (update_symbol name b)
unfolding update_symbol
update_symbol-Puts_own name b =
    Holds-bind (Puts name (place_in b)) (b.symbols name) _
      (λ _. (rw (same_name_refl name) refl, refl, refl))

build_label-Puts :
    (c : Context) (name : List ℕ) (b : Build)
    → Holds (Puts name (place_in b)) (build_label c name true b)
unfolding build_label
build_label-Puts c name b =
    Holds-then (Puts name (place_in b)) (Puts name (place_in b)) (update_symbol name b) _
      (update_symbol-Puts_own name b)
      (λ b' h.
        Holds-bind (Puts name (place_in b)) (find name c.symbol_table) _
          (λ s. update_symbols-Puts name (place_in b) (names_at c.name_at s.equals) b' h))

-- The state before a label, and the place behind it
record AtLabel (c : Context) (before : List MaoEntry) (name : List ℕ) (b₀ b₁ : Build) : Type 0 where
  pub b : Build
  pub reached : build_entries c 0 before b₀ ≡ some b
  pub placed : b₁.symbols name ≡ some (place_in b)

at_label :
    (c : Context) (before : List MaoEntry) (name : List ℕ) (b₀ b₁ : Build)
    → build_entries c 0 (before ++ label_entry name true ∷ []) b₀ ≡ some b₁
    → AtLabel c before name b₀ b₁
unfolding build_entries build_entry
at_label c before name b₀ b₁ h =
    let split = sym (build_entries-append c 0 before (label_entry name true ∷ []) b₀) ∙ h in
    let (b, reached, rest) = >>=-eq-some (build_entries c 0 before b₀) _ split in
    let (r, here, last) =
      >>=-eq-some (keeping (label_entry name true) (build_label c name true b)) _ rest in
    let (b₂, labelled, same) = >>=-eq-some (build_label c name true b) _ here in
    let puts =
      Holds-elim (Puts name (place_in b)) (build_label c name true b) b₂ (build_label-Puts c name b)
        labelled in
    let next : Build = record r.1 { section = r.1.section ++ r.0 ∷ [] } in
    let end_ : next ≡ b₁ = cc last in
    let pair : (label_entry name true, b₂) ≡ r = cc same in
    let kept : b₂.symbols name ≡ b₁.symbols name =
      ap (λ (x : MaoEntry × Build). x.1.symbols name) pair
      ∙ ap (λ (x : Build). x.symbols name) end_ in
    record { b = b; reached = reached; placed = sym kept ∙ puts.0 }

-- For a `relax_segment` that keeps the chain, starts at address 0 and settles, and a section without
-- `.dc.d`, `.dc.s` and `.dc.x` over which `BuildFragments` passes: `Go` returns, with more rounds than
-- passes, and the offset that it writes for a label of the assembly is, in 32 bits, the address of the
-- label's symbol: the relaxed address of the fragment, and the value, that the symbol has behind the label.
pub go-label :
    (relax_segment : Relaxing) (passes : ℕ)
    → IsRelaxing relax_segment passes
    → (fuel : ℕ) → passes < fuel
    → (c : Context) (before : List MaoEntry) (name : List ℕ) (after : List MaoEntry)
    → (symbols : List ℕ → Option Place) (generic_bignum : List ℕ) (opcodes : Opcodes)
      (b₁ b' : Build) (p : Place)
    → has_float (before ++ label_entry name true ∷ after) ≡ false
    → build_entries c 0 (before ++ label_entry name true ∷ []) (new_build symbols generic_bignum)
      ≡ some b₁
    → b₁.symbols name ≡ some p
    → build_entries c 0 (before ++ label_entry name true ∷ after) (new_build symbols generic_bignum)
      ≡ some b'
    → (r : Relaxed) × (go relax_segment fuel c
          (before ++ label_entry name true ∷ after)
          (new_build symbols generic_bignum)
          opcodes
        ≡ some r)
      × (r.offset_map (length before) ≡ some ((address_of r p.frag + p.value) % 2 ^ 32))
go-label relax_segment passes laws fuel enough c before name after symbols generic_bignum opcodes b₁
      b' p f h placed built =
    let l = at_label c before name (new_build symbols generic_bignum) b₁ h in
    let same : place_in l.b ≡ p = cc (l.placed, placed) in
    let (r, returns, offset) =
      go-offset_map relax_segment passes laws fuel enough c before (label_entry name true) after
        symbols generic_bignum opcodes l.b b' f l.reached built in
    (r, returns, offset ∙ ap (λ (q : Place). some ((address_of r q.frag + q.value) % 2 ^ 32)) same)
