-- ===== src/Entries/UnlinkChain.antt =====
-- src/MaoEntry.cc, `Unlink(last_in_chain)`: it takes a chain of entries out, inside a subsection.
use mao.Prelude.{
  ℕ, ◌≡◌, refl, ap, ◌∙◌, true, false, none, some, List, [], ◌∷◌, ◌++◌, arith, ◌==◌, ==_refl,
}
use mao.Entries.{Pointer, same, put, Store, set_next, set_prev, leave_ranges, unlink_chain}
use mao.Entries.Chain.{
  head_or, last_or, has, Distinct, Forward, Backward, has_apart, has-append, has-last, Apart-member,
  Forward-put, Forward-put_last, Forward-left, Forward-right, Backward-left, Backward-right,
  Backward-put, Backward-put_head,
}
use mao.Entries.Splice.{
  put_at, Linked, excise, xs_c, c_ys, c-Distinct, Apart-sym, Forward-put_at, Backward-put_at,
  avoids-last, avoids-head,
}
use mao.Entries.Ranges.{move_subsection_last-other}
use mao.Entries.After.{StartsIn, last_or-snoc}
use mao.Entries.Unlink.{unlinked, unlinked-next, unlinked-prev, unlinked-rest, leave_ranges-run}

has-append_none :
    (a : ℕ) (xs ys : List ℕ) → has a xs ≡ false → has a ys ≡ false → has a (xs ++ ys) ≡ false
has-append_none a xs ys h k = ground (arith, has-append a xs ys)

-- The chain of `e` and `c'` between `xs` and `ys`, with `z` as its last entry
module _ (next prev : ℕ → Pointer) (xs : List ℕ) (e z : ℕ) (c' ys : List ℕ)
    (distinct : Distinct (xs ++ ((e ∷ c') ++ ys))) (ends : last_or none (e ∷ c') ≡ some z)
    (chain : Linked next prev none (xs ++ ((e ∷ c') ++ ys)) none) where
  abbrev c : List ℕ
  c = e ∷ c'

  abbrev around_next : ℕ → Pointer
  around_next = put_at next (last_or none xs) (head_or ys none)

  abbrev around_prev : ℕ → Pointer
  around_prev = put_at prev (head_or ys none) (last_or none xs)

  outside : (a : ℕ) → has a c ≡ true → has a (xs ++ ys) ≡ false
  outside a i =
      has-append_none a xs ys
        (Apart-member a c xs (Apart-sym xs c (xs_c next prev xs c ys distinct)) i)
        (Apart-member a c ys (c_ys next prev xs c ys distinct) i)

  -- What is left, with the two ends of `c` closed
  pub rest-Linked : Linked (put around_next z none) (put around_prev e none) none (xs ++ ys) none
  unfolding has
  rest-Linked =
      let l = excise next prev xs c ys distinct chain in
      record {
        forward =
            Forward-put around_next z none (xs ++ ys) none (outside z (has-last z c ends))
              l.forward;
        backward =
            Backward-put around_prev e none none (xs ++ ys) (outside e (ground arith)) l.backward;
      }

  pub closed-Linked : Linked (put around_next z none) (put around_prev e none) none c none
  unfolding Distinct
  closed-Linked =
      let d = c-Distinct next prev xs c ys distinct in
      record {
        forward = Forward-put_last around_next z none c (head_or ys none) ends d (
            Forward-put_at next (last_or none xs) (head_or ys none) c (head_or ys none)
              (avoids-last xs c (xs_c next prev xs c ys distinct))
              (Forward-left next c ys none (Forward-right next xs (c ++ ys) none chain.forward)));
        backward = Backward-put_head around_prev e none (last_or none xs) c' d.0 (
            Backward-put_at prev (head_or ys none) (last_or none xs) (last_or none xs) c
              (avoids-head c ys (c_ys next prev xs c ys distinct))
              (Backward-left prev (last_or none xs) c ys
                (Backward-right prev none xs (c ++ ys) chain.backward)));
      }

Forward-end :
    (next : ℕ → Pointer) (xs : List ℕ) (z : ℕ) (after : Pointer)
    → last_or none xs ≡ some z
    → Forward next xs after
    → next z ≡ after
unfolding Forward last_or head_or
Forward-end next [] z after l p = cc
Forward-end next (x ∷ []) z after l p = let f : x ≡ z = ground arith in rw (← f) (p.0)
Forward-end next (x ∷ y ∷ xs) z after l p = Forward-end next (y ∷ xs) z after l p.1

same_refl : (q : Pointer) → same q q ≡ true
same_refl none = refl
same_refl (some a) = rw ==_refl

-- `Unlink(last_in_chain)` takes the entries from `e` to `z` out of a subsection that neither starts nor
-- ends with them.
pub unlink_chain-Linked :
    (e z p k : ℕ) (ws c' ys : List ℕ) (s : Store)
    → Linked s.next s.prev none ((ws ++ (p ∷ [])) ++ ((e ∷ c') ++ ys)) none
    → Distinct ((ws ++ (p ∷ [])) ++ ((e ∷ c') ++ ys))
    → last_or none (e ∷ c') ≡ some z
    → s.entry_to_function e ≡ s.entry_to_function z
    → s.entry_to_subsection e ≡ some k
    → s.entry_to_subsection z ≡ some k
    → StartsIn s k (ws ++ (p ∷ []))
    → same (s.subsection k).last_entry (some z) ≡ false
    → (s' : Store) × (unlink_chain e z s ≡ some s')
      × Linked s'.next s'.prev none ((ws ++ (p ∷ [])) ++ ys) none
      × Linked s'.next s'.prev none (e ∷ c') none
unfolding unlink_chain unlinked set_next set_prev has Backward
unlink_chain-Linked e z p k ws c' ys s chain d ends in_f in_k in_k' starts inner =
    let front = ws ++ (p ∷ []) in
    let c = e ∷ c' in
    let after : Pointer = head_or ys none in
    let l : Store = unlinked (some p) after s in
    let (maps, kept) = unlinked-rest (some p) after s in
    let before_is : s.prev e ≡ some p =
      (Backward-right s.prev none front (c ++ ys) chain.backward).0 ∙ last_or-snoc ws p in
    let after_is : s.next z ≡ after =
      Forward-end s.next c z after ends
        (Forward-left s.next c ys none (Forward-right s.next front (c ++ ys) none chain.forward)) in
    let l_k : l.entry_to_subsection e ≡ some k = ap (λ (m : ℕ → Pointer). m e) maps ∙ in_k in
    let e_front : has e front ≡ false =
      Apart-member e c front (Apart-sym front c (xs_c s.next s.prev front c ys d)) (ground arith) in
    let start_e : (starts.start == e) ≡ false =
      ground (arith, has_apart e starts.start front e_front starts.inside) in
    let not_first : same (l.subsection k).first_entry (some e) ≡ false =
      rw (kept, starts.first_is) start_e in
    let (u, run, su, ranges) = leave_ranges-run e z p k after l l_k not_first in
    let stays : same (u.subsection k).last_entry (some z) ≡ false = rw (ranges, kept) inner in
    let ran : leave_ranges e z (some p) after l ≡ some u =
      run ∙ move_subsection_last-other k z (some p) u stays in
    let n_eq = su.next ∙ unlinked-next (some p) after s in
    let p_eq = su.prev ∙ unlinked-prev (some p) after s in
    let same_f : same (s.entry_to_function e) (s.entry_to_function z) ≡ true =
      rw in_f (same_refl (s.entry_to_function z)) in
    let same_k : same (s.entry_to_subsection e) (s.entry_to_subsection z) ≡ true =
      rw (in_k, in_k') (==_refl k) in
    (
      set_next z none (set_prev e none u),
      rw (before_is, after_is, same_f, same_k, ran),
      rw (n_eq, p_eq)
          (rw (last_or-snoc ws p) at (rest-Linked s.next s.prev front e z c' ys d ends chain)),
      rw (n_eq, p_eq)
          (rw (last_or-snoc ws p) at (closed-Linked s.next s.prev front e z c' ys d ends chain)),
    )
