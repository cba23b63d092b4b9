-- ===== src/Relax/Labels.antt =====
-- src/MaoRelax.cc: the case of a label in `BuildFragments`, and all cases together.
use mao.Prelude.{
  ℕ, ◌≡◌, refl, ◌∙◌, Bool, false, none, some, List, [], ◌∷◌, arith, ◌==◌, Bool-cases, inl, inr,
}
use mao.Prelude.Checked.{Checked}
use mao.SymbolTable.{find}
use mao.Relax.Entry.{MaoEntry, instruction_entry, directive_entry, label_entry, undefined_entry}
use mao.Relax.Build.{Build, Context, size_at}
use mao.Relax.Directives.{update_symbol, update_symbols, build_label, build_entry}
use mao.Prelude.Holds.{Holds, Holds-if, Holds-bind, Holds-then, Holds-elim}
use mao.Relax.Effect.{
  Sized, Effect, stays, Effects, is_float, kept, instruction_effect, directive_effect,
}

-- The case of a label leaves all but the symbols.
record Same (b b' : Build) : Type 0 where
  pub sizes : b'.size_map ≡ b.size_map
  pub fragment : b'.frag ≡ b.frag
  pub fragments : b'.ended ≡ b.ended
  pub relaxed : b'.relax_map ≡ b.relax_map

update_symbol-Same : (name : List ℕ) (b : Build) → Holds (Same b) (update_symbol name b)
unfolding update_symbol
update_symbol-Same name b =
    Holds-bind (Same b) (b.symbols name) _
      (λ _. record { sizes = refl; fragment = refl; fragments = refl; relaxed = refl })

update_symbols-Same :
    (names : List (List ℕ)) (b b' : Build) → Same b b' → Holds (Same b) (update_symbols names b')
unfolding update_symbols
update_symbols-Same [] b b' s = s
update_symbols-Same (name ∷ names) b b' s =
    Holds-then (Same b) (Same b') (update_symbol name b') _ (update_symbol-Same name b') (λ b'' h.
      update_symbols-Same names b b'' (record {
        sizes = h.sizes ∙ s.sizes;
        fragment = h.fragment ∙ s.fragment;
        fragments = h.fragments ∙ s.fragments;
        relaxed = h.relaxed ∙ s.relaxed;
      }))

build_label-Same :
    (c : Context) (name : List ℕ) (from_assembly : Bool) (b : Build)
    → Holds (Same b) (build_label c name from_assembly b)
unfolding build_label
build_label-Same c name from_assembly b =
    Holds-if (Same b) from_assembly _ _
      (Holds-then (Same b) (Same b) (update_symbol name b) _ (update_symbol-Same name b) (λ b' h.
        Holds-bind (Same b) (find name c.symbol_table) _ (λ s. update_symbols-Same _ b b' h)))
      (record { sizes = refl; fragment = refl; fragments = refl; relaxed = refl })

Same-Effect :
    (entry : ℕ) (b b' : Build) → size_at b.size_map entry ≡ 0 → Same b b' → Effect entry b b'
Same-Effect entry b b' new s = stays 0 sized (rw s.fragment (omega arith)) s.fragments s.relaxed
  where
    sized : Sized entry 0 b b'
    sized j = elim (Bool-cases (j == entry)) [
      | inl y ↦ let e : j ≡ entry = ground (arith, y) in rw (s.sizes, y, e, new) refl
      | inr n ↦ rw (s.sizes, n) refl
    ]

-- A directive whose size goes into the map alone
unfoldable pub is_float_entry : MaoEntry → Bool
is_float_entry (directive_entry op operands) = is_float op
is_float_entry _ = false

pub build_entry-Effect :
    (c : Context) (entry : ℕ) (e : MaoEntry) (b : Build) (r : MaoEntry × Build)
    → is_float_entry e ≡ false
    → size_at b.size_map entry ≡ 0
    → build_entry c entry e b ≡ some r
    → Effect entry b r.1
unfolding is_float_entry build_entry
build_entry-Effect c entry (instruction_entry i) b r f new h =
    Holds-elim (λ (r : MaoEntry × Build). Effect entry b r.1) _ r
      (kept entry b _ _ (instruction_effect entry b c.cpui386 i)) h
build_entry-Effect c entry (directive_entry op operands) b r f new h =
    Holds-elim (λ (r : MaoEntry × Build). Effect entry b r.1) _ r
      (directive_effect entry b op operands f) h
build_entry-Effect c entry (label_entry name from_assembly) b r f new h =
    Holds-elim (λ (r : MaoEntry × Build). Effect entry b r.1) _ r
      (kept entry b _ _
        (labelled (build_label c name from_assembly b) (build_label-Same c name from_assembly b)))
      h
  where
    labelled : (m : Checked Build) → Holds (Same b) m → Effects entry b m
    labelled none s = tt
    labelled (some b') s = Same-Effect entry b b' new s
build_entry-Effect c entry undefined_entry b r f new h = cc h
