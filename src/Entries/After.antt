-- ===== src/Entries/After.antt =====
-- src/MaoEntry.cc, `LinkAfter`: what it does to the chain of entries, with the links that
-- `SubSection::set_last_entry` (src/MaoSection.cc) writes.
use mao.Prelude.{
  ℕ, ◌≤◌, ◌≡◌, refl, sym, ap, ◌∙◌, inl, inr, true, false, none, some, List, [], ◌∷◌, ◌++◌, arith,
  ◌==◌, Bool-cases, if◌then◌else◌, length,
}
use mao.Entries.{
  Pointer, same, put, Store, set_next, set_prev, relink_prev, get_last_entry, link_after,
  move_subsection_last, write_subsection_last,
}
use mao.Entries.Chain.{
  head_or, last_or, has, Distinct, Forward, put_other, last_or-append, has-last, has-append,
  has_apart, Apart-member, Forward-left, Forward-right,
}
use mao.Entries.Splice.{put_at, Linked, insert, excise, xs_c, c-Distinct}
use mao.Entries.Ranges.{
  SameLinks, move_function_last-some, relink_prev-prev, relink_prev-rest,
  move_subsection_last-other, move_subsection_last-link,
}
use mao.Entries.Link.{get_last_entry-eq, has_subsection-eq}

-- The last entry alone
unfoldable pub last_only : List ℕ → List ℕ
last_only [] = []
last_only (x ∷ []) = x ∷ []
last_only (x ∷ y ∷ xs) = last_only (y ∷ xs)

last_only-eq :
    (x z : ℕ) (c' : List ℕ) → last_or none (x ∷ c') ≡ some z → last_only (x ∷ c') ≡ z ∷ []
unfolding last_only last_or
last_only-eq x z [] e = ground arith
last_only-eq x z (y ∷ c') e = last_only-eq y z c' e

split_last :
    (x z : ℕ) (c' : List ℕ)
    → last_or none (x ∷ c') ≡ some z
    → (m : List ℕ) × ((ys : List ℕ) → (x ∷ c') ++ ys ≡ m ++ (z ∷ ys))
unfolding last_or
split_last x z [] e = ([], λ ys. ground arith)
split_last x z (y ∷ c') e =
    let (m, f) = split_last y z c' e in (x ∷ m, λ ys. ap (λ (l : List ℕ). x ∷ l) (f ys))

-- The links that `LinkAfter` writes before the ranges follow.
linked_after : ℕ → ℕ → ℕ → Store → Store
unfolding set_next set_prev
linked_after z t e s =
    let s1 = set_next z (s.next t) s in
    let s2 = set_prev e (some t) s1 in set_next t (some e) (relink_prev (s2.next t) (some z) s2)

module _ (z t e : ℕ) (s : Store) (w : Pointer) (apart : (t == z) ≡ false)
    (after : s.next t ≡ w) where
  next_here : put s.next z (s.next t) t ≡ w
  next_here = put_other s.next z t (s.next t) apart ∙ after

  linked_after-prev : (linked_after z t e s).prev ≡ put_at (put s.prev e (some t)) w (some z)
  unfolding linked_after set_next set_prev
  linked_after-prev =
      let s1 = set_next z (s.next t) s in
      let s2 = set_prev e (some t) s1 in
      relink_prev-prev (s2.next t) (some z) s2
      ∙ ap (λ (q : Pointer). put_at (put s.prev e (some t)) q (some z)) next_here

  linked_after-next : (linked_after z t e s).next ≡ put (put s.next z w) t (some e)
  unfolding linked_after set_next set_prev
  linked_after-next =
      let s1 = set_next z (s.next t) s in
      let s2 = set_prev e (some t) s1 in
      let (a, b, c, d) = relink_prev-rest (s2.next t) (some z) s2 in
      ap (λ (m : ℕ → Pointer). put m t (some e)) a
      ∙ ap (λ (q : Pointer). put (put s.next z q) t (some e)) after

-- The run up to the update of the subsection.
module _ (fuel t e z k : ℕ) (s : Store) (ends : get_last_entry fuel e s ≡ some z)
    (inside : s.entry_to_subsection t ≡ some k) where
  linked_after-rest :
      ((linked_after z t e s).entry_to_subsection ≡ s.entry_to_subsection)
      × ((linked_after z t e s).subsection ≡ s.subsection)
  unfolding linked_after set_next set_prev
  linked_after-rest =
      let s1 = set_next z (s.next t) s in
      let s2 = set_prev e (some t) s1 in
      let (a, b, c, d) = relink_prev-rest (s2.next t) (some z) s2 in (c, d)

  link_after-run :
      (u : Store) × (link_after fuel t e s ≡ move_subsection_last (some k) t (some z) u)
      × SameLinks (linked_after z t e s) u
      × (u.subsection ≡ s.subsection)
  unfolding link_after linked_after
  link_after-run =
      let l : Store = linked_after z t e s in
      let q : Pointer = l.entry_to_function t in
      let (u, run, links, ranges) = move_function_last-some q t z l in
      let (maps, kept) = linked_after-rest in
      let i : u.entry_to_subsection t ≡ some k =
        ap (λ (m : ℕ → Pointer). m t) (links.subsections ∙ maps) ∙ inside in
      (
        u,
        rw (ends, run, has_subsection-eq t k u i)
            (ap (λ (r : Pointer). move_subsection_last r t (some z) u) i),
        links,
        ranges ∙ kept,
      )

-- The fields after a last entry of a subsection that moves from `t` to `z`.
pub moved-links :
    (u : Store) (k t z : ℕ)
    → (s' : Store) × (s'
        ≡ write_subsection_last k (some z) (set_prev z (some t) (set_next t (some z) u)))
      × (s'.next ≡ put u.next t (some z))
      × (s'.prev ≡ put u.prev z (some t))
unfolding write_subsection_last set_next set_prev
moved-links u k t z = (
  write_subsection_last k (some z) (set_prev z (some t) (set_next t (some z) u)),
  refl,
  refl,
  refl,
)

pub last_or-snoc : (xs : List ℕ) (t : ℕ) → last_or none (xs ++ (t ∷ [])) ≡ some t
unfolding last_or
last_or-snoc xs t = last_or-append none xs (t ∷ [])

-- The subsection `k` of the entry `t` has its first entry at `t` or before it.
pub record StartsIn (s : Store) (k : ℕ) (xs : List ℕ) : Type 0 where
  pub start : ℕ
  pub first_is : (s.subsection k).first_entry ≡ some start
  pub inside : has start xs ≡ true

-- What is left of a chain that is linked behind `t`
unfoldable pub survivors : Store → ℕ → ℕ → List ℕ → List ℕ
unfolding last_only
survivors s k t c = if same (s.subsection k).last_entry (some t) then last_only c else c

module _ (fuel t e k : ℕ) (xs c' ys : List ℕ) (s : Store)
    (chain : Linked s.next s.prev none ((xs ++ (t ∷ [])) ++ ys) none)
    (new : Linked s.next s.prev none (e ∷ c') none)
    (distinct : Distinct ((xs ++ (t ∷ [])) ++ ((e ∷ c') ++ ys))) (enough : length (e ∷ c') ≤ fuel)
    (inside : s.entry_to_subsection t ≡ some k) (starts : StartsIn s k (xs ++ (t ∷ []))) where
  abbrev front : List ℕ
  front = xs ++ (t ∷ [])

  abbrev c : List ℕ
  c = e ∷ c'

  front_ne : (a z : ℕ) → has a front ≡ true → last_or none c ≡ some z → (a == z) ≡ false
  front_ne a z h l =
      has_apart a z c (Apart-member a front c (xs_c s.next s.prev front c ys distinct) h)
        (has-last z c l)

  t_ne : (z : ℕ) → last_or none c ≡ some z → (t == z) ≡ false
  unfolding has
  t_ne z l = front_ne t z (ground (arith, has-append t xs (t ∷ []))) l

  next_is : s.next t ≡ head_or ys none
  unfolding Forward head_or
  next_is =
      (Forward-right s.next xs (t ∷ []) (head_or ys none)
        (Forward-left s.next front ys none chain.forward)).0

  full :
      (z : ℕ)
      → last_or none c ≡ some z
      → Linked
          (linked_after z t e s).next
          (linked_after z t e s).prev
          none
          (front ++ (c ++ ys))
          none
  unfolding put_at
  full z l =
      let all = insert s.next s.prev front e c' ys distinct chain new in
      let w = head_or ys none in
      rw
        (
          linked_after-next z t e s w (t_ne z l) next_is,
          linked_after-prev z t e s w (t_ne z l) next_is,
        )
        (rw (l, last_or-snoc xs t) at all)

  -- The chain where the subsection ends elsewhere, and where it ends at `t`
  link_after-inner :
      (z : ℕ)
      → last_or none c ≡ some z
      → get_last_entry fuel e s ≡ some z
      → same (s.subsection k).last_entry (some t) ≡ false
      → (s' : Store) × (link_after fuel t e s ≡ some s')
        × Linked s'.next s'.prev none (front ++ (c ++ ys)) none
  link_after-inner z l ends other =
      let (u, run, links, ranges) = link_after-run fuel t e z k s ends inside in
      let stays : same (u.subsection k).last_entry (some t) ≡ false = rw ranges other in
      (
        u,
        run ∙ move_subsection_last-other k t (some z) u stays,
        rw (links.next, links.prev) (full z l),
      )

  link_after-end :
      (z : ℕ)
      → last_or none c ≡ some z
      → get_last_entry fuel e s ≡ some z
      → (s.subsection k).last_entry ≡ some t
      → (s' : Store) × (link_after fuel t e s ≡ some s')
        × Linked s'.next s'.prev none (front ++ (z ∷ ys)) none
  unfolding put_at head_or
  link_after-end z l ends last_is =
      let (u, run, links, ranges) = link_after-run fuel t e z k s ends inside in
      let apart : (z == starts.start) ≡ false =
        ground (arith, front_ne starts.start z starts.inside l) in
      let at_t : (u.subsection k).last_entry ≡ some t = rw ranges last_is in
      let not_first : same (some z) (u.subsection k).first_entry ≡ false =
        rw (ranges, starts.first_is) apart in
      let (m, split) = split_last e z c' l in
      let all : Linked u.next u.prev none (front ++ (m ++ (z ∷ ys))) none =
        rw (links.next, links.prev, ← split ys) (full z l) in
      let d : Distinct (front ++ (m ++ (z ∷ ys))) = rw (← split ys) distinct in
      let rest = excise u.next u.prev front m (z ∷ ys) d all in
      let (s', is, n, p) = moved-links u k t z in
      (
        s',
        run ∙ move_subsection_last-link k t z u at_t not_first ∙ ap some (sym is),
        rw (n, p) (rw (last_or-snoc xs t) at rest),
      )

pub same-some : (q : Pointer) (t : ℕ) → same q (some t) ≡ true → q ≡ some t
same-some none t e = cc
same-some (some a) t e = ground arith

-- `LinkAfter` puts the chain behind the entry, but behind the last entry of a subsection only the
-- last entry of the chain.
pub link_after-Linked :
    (fuel t e k : ℕ) (xs c' ys : List ℕ) (s : Store)
    → Linked s.next s.prev none ((xs ++ (t ∷ [])) ++ ys) none
    → Linked s.next s.prev none (e ∷ c') none
    → Distinct ((xs ++ (t ∷ [])) ++ ((e ∷ c') ++ ys))
    → length (e ∷ c') ≤ fuel
    → s.entry_to_subsection t ≡ some k
    → StartsIn s k (xs ++ (t ∷ []))
    → (s' : Store) × (link_after fuel t e s ≡ some s')
      × Linked s'.next s'.prev none ((xs ++ (t ∷ [])) ++ (survivors s k t (e ∷ c') ++ ys)) none
unfolding survivors
link_after-Linked fuel t e k xs c' ys s chain new d n inside starts =
    let front = xs ++ (t ∷ []) in
    let (z, l, ends) =
      get_last_entry-eq fuel e c' s new.forward (c-Distinct s.next s.prev front (e ∷ c') ys d) n in
    elim (Bool-cases (same (s.subsection k).last_entry (some t))) [
      | inl at_end ↦
          rw (at_end, last_only-eq e z c' l)
            (link_after-end fuel t e k xs c' ys s chain new d n inside starts z l ends
              (same-some (s.subsection k).last_entry t at_end))
      | inr inner ↦
          rw inner
            (link_after-inner fuel t e k xs c' ys s chain new d n inside starts z l ends inner)
    ]
