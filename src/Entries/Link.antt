-- ===== src/Entries/Link.antt =====
-- src/MaoEntry.cc, `GetLastEntry`, `LinkBefore` and `LinkAfter`: what they do to the chain of entries.
use mao.Prelude.{
  ℕ, zero, suc, ◌≤◌, ◌≡◌, refl, ap, ◌∙◌, false, none, some, List, [], ◌∷◌, ◌++◌, arith, ◌==◌,
  length,
}
use mao.Entries.{
  Pointer, put, Store, set_next, set_prev, relink_next, last_entry_loop, get_last_entry,
  has_subsection, link_before, move_function_first, move_subsection_first,
}
use mao.Entries.Chain.{
  head_or, last_or, has, Apart, Distinct, Forward, Backward, put_other, Backward-right,
}
use mao.Entries.Splice.{put_at, Linked, insert, c-Distinct, c_ys}
use mao.Entries.Ranges.{
  SameLinks, move_function_first-SameLinks, move_subsection_first-SameLinks, relink_next-next,
  relink_next-rest,
}

last_entry_loop-eq :
    (fuel entry x : ℕ) (c' : List ℕ) (s : Store)
    → Forward s.next (x ∷ c') none
    → has entry c' ≡ false
    → length (x ∷ c') ≤ fuel
    → (z : ℕ) × (last_or none (x ∷ c') ≡ some z) × (last_entry_loop fuel entry x s ≡ some z)
unfolding last_entry_loop Forward last_or has head_or
last_entry_loop-eq zero entry x c' s p o n = absurd (omega arith)
last_entry_loop-eq (suc fuel) entry x [] s p o n = (x, refl, rw (p.0, last_entry_loop))
last_entry_loop-eq (suc fuel) entry x (y ∷ c') s p o n =
    let (z, l, e) = last_entry_loop-eq fuel entry y c' s p.1 (ground arith) (omega arith) in
    let ne : (entry == y) ≡ false = ground arith in (z, l, rw (p.0, last_entry_loop, ne) e)

pub get_last_entry-eq :
    (fuel e : ℕ) (c' : List ℕ) (s : Store)
    → Forward s.next (e ∷ c') none
    → Distinct (e ∷ c')
    → length (e ∷ c') ≤ fuel
    → (z : ℕ) × (last_or none (e ∷ c') ≡ some z) × (get_last_entry fuel e s ≡ some z)
unfolding get_last_entry Distinct
get_last_entry-eq fuel e c' s p d n = last_entry_loop-eq fuel e e c' s p d.0 n

-- The links that `LinkBefore` writes.
linked_before : ℕ → ℕ → ℕ → Store → Store
unfolding set_next set_prev
linked_before z t e s =
    let s1 = set_next z (some t) s in
    let s2 = set_prev e (s1.prev t) s1 in set_prev t (some z) (relink_next (s2.prev t) (some e) s2)

pub has_subsection-eq :
    (t k : ℕ) (s : Store) → s.entry_to_subsection t ≡ some k → has_subsection t s ≡ some tt
unfolding has_subsection
has_subsection-eq t k s e = rw (e, has_subsection)

module _ (fuel t e z k : ℕ) (s : Store) (ends : get_last_entry fuel e s ≡ some z)
    (inside : s.entry_to_subsection t ≡ some k) where
  linked_before-subsections : (linked_before z t e s).entry_to_subsection ≡ s.entry_to_subsection
  unfolding linked_before set_next set_prev
  linked_before-subsections =
      let s1 = set_next z (some t) s in
      let s2 = set_prev e (s1.prev t) s1 in
      let (a, b, c, d) = relink_next-rest (s2.prev t) (some e) s2 in c

  link_before-links :
      (s' : Store) × (link_before fuel t e s ≡ some s') × SameLinks (linked_before z t e s) s'
  unfolding link_before linked_before
  link_before-links =
      let l : Store = linked_before z t e s in
      let q : Pointer = l.entry_to_function t in
      let u : Store = move_function_first q t (some e) l in
      let r : Pointer = u.entry_to_subsection t in
      let su : SameLinks l u = move_function_first-SameLinks q t (some e) l in
      let sv : SameLinks u (move_subsection_first r t (some e) u) =
        move_subsection_first-SameLinks r t (some e) u in
      let i : r ≡ some k =
        ap (λ (m : ℕ → Pointer). m t) su.subsections
        ∙ ap (λ (m : ℕ → Pointer). m t) linked_before-subsections
        ∙ inside in
      (
        move_subsection_first r t (some e) u,
        rw (ends, has_subsection-eq t k u i) refl,
        record {
          next = sv.next ∙ su.next;
          prev = sv.prev ∙ su.prev;
          functions = sv.functions ∙ su.functions;
          subsections = sv.subsections ∙ su.subsections;
        },
      )

module _ (z t e : ℕ) (s : Store) (w : Pointer) (apart : (t == e) ≡ false)
    (before : s.prev t ≡ w) where
  prev_here : put s.prev e (s.prev t) t ≡ w
  prev_here = put_other s.prev e t (s.prev t) apart ∙ before

  linked_before-next : (linked_before z t e s).next ≡ put_at (put s.next z (some t)) w (some e)
  unfolding linked_before set_next set_prev
  linked_before-next =
      let s1 = set_next z (some t) s in
      let s2 = set_prev e (s1.prev t) s1 in
      relink_next-next (s2.prev t) (some e) s2
      ∙ ap (λ (q : Pointer). put_at (put s.next z (some t)) q (some e)) prev_here

  linked_before-prev : (linked_before z t e s).prev ≡ put (put s.prev e w) t (some z)
  unfolding linked_before set_next set_prev
  linked_before-prev =
      let s1 = set_next z (some t) s in
      let s2 = set_prev e (s1.prev t) s1 in
      let (a, b, c, d) = relink_next-rest (s2.prev t) (some e) s2 in
      ap (λ (m : ℕ → Pointer). put m t (some z)) a
      ∙ ap (λ (q : Pointer). put (put s.prev e q) t (some z)) before

-- `LinkBefore` puts the chain in front of the entry.
pub link_before-Linked :
    (fuel t e k : ℕ) (xs c' ys : List ℕ) (s : Store)
    → Linked s.next s.prev none (xs ++ (t ∷ ys)) none
    → Linked s.next s.prev none (e ∷ c') none
    → Distinct (xs ++ ((e ∷ c') ++ (t ∷ ys)))
    → length (e ∷ c') ≤ fuel
    → s.entry_to_subsection t ≡ some k
    → (s' : Store) × (link_before fuel t e s ≡ some s')
      × Linked s'.next s'.prev none (xs ++ ((e ∷ c') ++ (t ∷ ys))) none
unfolding Apart has head_or put_at Backward
link_before-Linked fuel t e k xs c' ys s l c d n inside =
    let apart_c : Apart (e ∷ c') (t ∷ ys) = c_ys s.next s.prev xs (e ∷ c') (t ∷ ys) d in
    let (z, z_last, ends) =
      get_last_entry-eq fuel e c' s c.forward (c-Distinct s.next s.prev xs (e ∷ c') (t ∷ ys) d) n in
    let (s', run, links) = link_before-links fuel t e z k s ends inside in
    let apart : (t == e) ≡ false = ground (arith, apart_c.0) in
    let before : s.prev t ≡ last_or none xs =
      (Backward-right s.prev none xs (t ∷ ys) l.backward).0 in
    let new = insert s.next s.prev xs e c' (t ∷ ys) d l c in
    let next_eq = links.next ∙ linked_before-next z t e s (last_or none xs) apart before in
    let prev_eq = links.prev ∙ linked_before-prev z t e s (last_or none xs) apart before in
    (s', run, rw (next_eq, prev_eq) (rw z_last at new))
