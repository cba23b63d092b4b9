-- ===== src/ReachingDefs/Block.antt =====
-- What the searches of src/MaoReachingDefs.cc through a basic block find.
use mathlib.Core.List.{reverse, reverse-cons, reverse-append, reverse-reverse, append_assoc}
use mao.Prelude.{
  ℕ, ◌<◌, ◌≡◌, refl, sym, ◌∙◌, ap, Bool, true, false, ◌||◌, List, [], ◌∷◌, ◌++◌, Option, some, none,
  arith, Bool-cases, inl, inr, All, All-append,
}
use mao.BitString.{BitString}
use mao.BitString.Members.{member, init_obj_lem, get-member}
use mao.BitString.Algebra.{Yields}
use mao.DataFlow.Sets.{Fits, union-Yields}
use mao.Liveness.{Entry, instruction, other}
use mao.Liveness.Block.{IsMasked}
use mao.ReachingDefs.{defs_loop, get_defs, defining_loop, get_defining_instruction}

-- Some instruction of the list writes register `r`.
unfoldable pub defines : List Entry → ℕ → Bool
defines [] r = false
defines (other ∷ es) r = defines es r
defines (instruction _ def_mask _ ∷ es) r = member def_mask r || defines es r

defs_loop-Yields :
    (es : List Entry) (c : BitString)
    → Fits 256 c
    → All IsMasked es
    → Yields (defs_loop c es) 256 (λ r. member c r || defines es r)
unfolding defs_loop defines
defs_loop-Yields [] c f h = (c, refl, f.valid, f.width, λ r. ground arith)
defs_loop-Yields (other ∷ es) c f h = defs_loop-Yields es c f h.1
defs_loop-Yields (instruction a d u ∷ es) c f h =
    let (c', e, v, w, m) = union-Yields 256 c d f h.0.0 in
    let (t, e', v', w', m') = defs_loop-Yields es c' (record { valid = v; width = w }) h.1 in
    (t, rw (e, e'), v', w', λ r. ground (arith, m r, m' r))

-- `GetDefs` returns, and its set holds exactly the registers that some instruction of the block
-- writes, where the masks of the instructions have 256 bits.
pub get_defs-Yields : (bb : List Entry) → All IsMasked bb → Yields (get_defs bb) 256 (defines bb)
unfolding get_defs
get_defs-Yields bb h =
    let (z, e, w, v, none_in) = init_obj_lem 256 (omega arith) in
    let (c, e', v', w', m) = defs_loop-Yields bb z (record { valid = v; width = w }) h in
    (c, rw e e', v', w', λ r. ground (arith, m r, none_in r))

-- The search from the end of the entries finds the last instruction that writes `r`, or there is none.
abbrev pub IsLastDefinition : List Entry → ℕ → Option ℕ → Type 0
IsLastDefinition entries r none = defines entries r ≡ false
IsLastDefinition entries r (some address) =
    (before after : List Entry) × (def_mask use_mask : BitString) × (entries
      ≡ before ++ instruction address def_mask use_mask ∷ after)
    × (member def_mask r ≡ true)
    × (defines after r ≡ false)

-- The same in the order in which the loop meets the entries.
abbrev IsFirst : List Entry → ℕ → Option ℕ → Type 0
IsFirst es r none = defines es r ≡ false
IsFirst es r (some address) =
    (before after : List Entry) × (def_mask use_mask : BitString) × (es
      ≡ before ++ instruction address def_mask use_mask ∷ after)
    × (member def_mask r ≡ true)
    × (defines before r ≡ false)

IsFirst-skip :
    (x : Entry) (es : List Entry) (r : ℕ) (found : Option ℕ)
    → ((xs : List Entry) → defines (x ∷ xs) r ≡ defines xs r)
    → IsFirst es r found
    → IsFirst (x ∷ es) r found
IsFirst-skip x es r none same h = same es ∙ h
IsFirst-skip x es r (some address) same (before, after, d, u, e, m, n) =
    (x ∷ before, after, d, u, ap (λ (l : List Entry). x ∷ l) e, m, same before ∙ n)

defining_loop-IsFirst :
    (es : List Entry) (r : ℕ)
    → r < 256
    → All IsMasked es
    → (found : Option ℕ) × (defining_loop r es ≡ some found) × IsFirst es r found
unfolding defining_loop defines
defining_loop-IsFirst [] r lt h = (none, refl, refl)
defining_loop-IsFirst (other ∷ es) r lt h =
    let (found, e, first) = defining_loop-IsFirst es r lt h.1 in
    (found, e, IsFirst-skip other es r found (λ xs. refl) first)
defining_loop-IsFirst (instruction a d u ∷ es) r lt h =
    let got = get-member d r (rw (h.0.0.width) lt) in
    elim (Bool-cases (member d r)) [
      | inl m ↦ (some a, rw (got, m) refl, ([], es, d, u, refl, m, refl))
      | inr m ↦
          let (found, e, first) = defining_loop-IsFirst es r lt h.1 in
          (
            found,
            rw (got, m) e,
            IsFirst-skip (instruction a d u) es r found (λ xs. rw m refl) first,
          )
    ]

defines-append :
    (xs ys : List Entry) (r : ℕ) → defines (xs ++ ys) r ≡ (defines xs r || defines ys r)
unfolding defines
defines-append [] ys r = refl
defines-append (other ∷ xs) ys r = defines-append xs ys r
defines-append (instruction a d u ∷ xs) ys r = ground (arith, defines-append xs ys r)

defines-reverse : (xs : List Entry) (r : ℕ) → defines (reverse xs) r ≡ defines xs r
unfolding defines
defines-reverse [] r = refl
defines-reverse (other ∷ xs) r =
    rw (reverse-cons, defines-append, defines-reverse xs r) (ground arith)
defines-reverse (instruction a d u ∷ xs) r =
    rw (reverse-cons, defines-append, defines-reverse xs r) (ground arith)

reversed :
    (entries : List Entry) (r : ℕ) (found : Option ℕ)
    → IsFirst (reverse entries) r found
    → IsLastDefinition entries r found
reversed entries r none h = sym (defines-reverse entries r) ∙ h
reversed entries r (some address) (before, after, d, u, e, m, n) = (
  reverse after,
  reverse before,
  d,
  u,
  sym (reverse-reverse entries)
      ∙ ap reverse e
      ∙ rw (reverse-append before (instruction address d u ∷ after), reverse-cons, append_assoc)
          refl,
  m,
  defines-reverse before r ∙ n,
)

All-reverse {κ} : (P : Entry → Type κ) (xs : List Entry) → All P xs → All P (reverse xs)
All-reverse P [] h = tt
All-reverse P (x ∷ xs) h =
    rw reverse-cons (All-append P (reverse xs) (x ∷ []) (All-reverse P xs h.1) (h.0, tt))

-- Where the masks have 256 bits, for a register below 256, `GetDefiningInstruction` returns the last instruction of the entries
-- that writes it, or NULL where none does.
pub get_defining_instruction-IsLastDefinition :
    (entries : List Entry) (r : ℕ)
    → r < 256
    → All IsMasked entries
    → (found : Option ℕ) × (get_defining_instruction r entries ≡ some found)
      × IsLastDefinition entries r found
unfolding get_defining_instruction
get_defining_instruction-IsLastDefinition entries r lt h =
    let (found, e, first) =
      defining_loop-IsFirst (reverse entries) r lt (All-reverse IsMasked entries h) in
    (found, e, reversed entries r found first)
