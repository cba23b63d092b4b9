-- ===== src/Entries/Unlink.antt =====
-- src/MaoEntry.cc, `Unlink`: what it does to the chain of entries, with the links that
-- `SubSection::set_last_entry` (src/MaoSection.cc) writes.
use mao.Prelude.{
  ℕ, ◌≡◌, refl, sym, ap, ◌∙◌, inl, inr, true, false, none, some, List, [], ◌∷◌, ◌++◌, arith, ◌==◌,
  Bool-cases,
}
use mao.Entries.{
  Pointer, same, Store, relink_next, relink_prev, leave_ranges, unlink, move_function_first,
  move_subsection_last, write_subsection_last,
}
use mao.Entries.Chain.{
  head_or, has, Distinct, Forward, Backward, has_apart, has-append, Distinct-append_right,
  Distinct-without, Forward-right, Backward-right,
}
use mao.Entries.Splice.{put_at, Linked, excise, xs_c, Apart-cons}
use mao.Entries.Ranges.{
  SameLinks, move_function_first-SameLinks, move_function_first-subsection, move_function_last-some,
  move_subsection_first-other, relink_next-next, relink_next-rest, relink_prev-prev,
  relink_prev-rest, move_subsection_last-other, move_subsection_last-first,
  move_subsection_last-link,
}
use mao.Entries.After.{StartsIn, moved-links, last_or-snoc, same-some}
use mao.Entries.TakenOut.{TakenOut, spoils, cleared, TakenOut-cleared, TakenOut-spoiled}

-- The links that `Unlink` writes before the ranges follow.
unfoldable pub unlinked : Pointer → Pointer → Store → Store
unlinked before after s = relink_prev after before (relink_next before after s)

module _ (before after : Pointer) (s : Store) where
  pub unlinked-next : (unlinked before after s).next ≡ put_at s.next before after
  unfolding unlinked
  unlinked-next =
      let (a, b, c, d) = relink_prev-rest after before (relink_next before after s) in
      a ∙ relink_next-next before after s

  pub unlinked-prev : (unlinked before after s).prev ≡ put_at s.prev after before
  unfolding unlinked
  unlinked-prev =
      let (a, b, c, d) = relink_next-rest before after s in
      relink_prev-prev after before (relink_next before after s)
      ∙ ap (λ (m : ℕ → Pointer). put_at m after before) a

  pub unlinked-rest :
      ((unlinked before after s).entry_to_subsection ≡ s.entry_to_subsection)
      × ((unlinked before after s).subsection ≡ s.subsection)
  unfolding unlinked
  unlinked-rest =
      let (a, b, c, d) = relink_next-rest before after s in
      let (a', b', c', d') = relink_prev-rest after before (relink_next before after s) in
      (c' ∙ c, d' ∙ d)

-- The ranges of the entries from `e` to `z` behind an entry `p`, where the subsection does not start at `e`.
module _ (e z p k : ℕ) (after : Pointer) (l : Store) (inside : l.entry_to_subsection e ≡ some k)
    (not_first : same (l.subsection k).first_entry (some e) ≡ false) where
  pub leave_ranges-run :
      (u : Store) × (leave_ranges e z (some p) after l ≡ move_subsection_last (some k) z (some p) u)
      × SameLinks l u
      × (u.subsection ≡ l.subsection)
  unfolding leave_ranges
  leave_ranges-run =
      let q : Pointer = l.entry_to_function e in
      let v : Store = move_function_first q e after l in
      let sv = move_function_first-SameLinks q e after l in
      let kept = move_function_first-subsection q e after l in
      let (u, run, su, ranges) = move_function_last-some q z p v in
      let still : same (u.subsection k).first_entry (some e) ≡ false =
        rw (ranges, kept) not_first in
      (
        u,
        rw (run, inside, move_subsection_first-other k e after u still) refl,
        record {
          next = su.next ∙ sv.next;
          prev = su.prev ∙ sv.prev;
          functions = su.functions ∙ sv.functions;
          subsections = su.subsections ∙ sv.subsections;
        },
        ranges ∙ kept,
      )

module _ (e p k : ℕ) (ws ys : List ℕ) (s : Store)
    (chain : Linked s.next s.prev none ((ws ++ (p ∷ [])) ++ (e ∷ ys)) none)
    (distinct : Distinct ((ws ++ (p ∷ [])) ++ (e ∷ ys))) (inside : s.entry_to_subsection e ≡ some k)
    (starts : StartsIn s k (ws ++ (p ∷ []))) where
  abbrev front : List ℕ
  front = ws ++ (p ∷ [])

  abbrev after : Pointer
  after = head_or ys none

  e_front : has e front ≡ false
  e_front = (Apart-cons e front [] (xs_c s.next s.prev front (e ∷ []) ys distinct)).0

  e_out : has e (front ++ ys) ≡ false
  unfolding Distinct
  e_out =
      ground
        (arith, has-append e front ys, e_front, (Distinct-append_right front (e ∷ ys) distinct).0)

  left-Distinct : Distinct (front ++ ys)
  left-Distinct = Distinct-without front e ys distinct

  before_is : s.prev e ≡ some p
  unfolding Backward
  before_is = (Backward-right s.prev none front (e ∷ ys) chain.backward).0 ∙ last_or-snoc ws p

  after_is : s.next e ≡ after
  unfolding Forward
  after_is = (Forward-right s.next front (e ∷ ys) none chain.forward).0

  rest :
      Linked
        (unlinked (some p) after s).next
        (unlinked (some p) after s).prev
        none
        (front ++ ys)
        none
  rest =
      rw (unlinked-next (some p) after s, unlinked-prev (some p) after s)
        (rw (last_or-snoc ws p) at (excise s.next s.prev front (e ∷ []) ys distinct chain))

  apart : (a : ℕ) → has a front ≡ true → (a == e) ≡ false
  apart a h = ground (arith, has_apart e a front e_front h)

  p_e : (p == e) ≡ false
  unfolding has
  p_e = apart p (ground (arith, has-append p ws (p ∷ [])))

  abbrev Result : Type 0
  Result = (s' : Store) × (unlink e s ≡ some s') × TakenOut s' e p ws ys (spoils s k e p)

  -- The run ends with the update of the subsection, whose outcome is `t`.
  unlink-run :
      (t : Store)
      → leave_ranges e e (some p) after (unlinked (some p) after s) ≡ some t
      → unlink e s ≡ some (cleared e t)
  unfolding unlink unlinked
  unlink-run t run = rw (before_is, after_is, run)

  module _ (u : Store)
      (run : leave_ranges e e (some p) after (unlinked (some p) after s)
        ≡ move_subsection_last (some k) e (some p) u)
      (links : Linked u.next u.prev none (front ++ ys) none)
      (ranges : u.subsection ≡ s.subsection) where
    keeps_last : same (s.subsection k).last_entry (some e) ≡ false → Result
    unfolding spoils
    keeps_last other =
        let stays : same (u.subsection k).last_entry (some e) ≡ false = rw ranges other in
        (
          cleared e u,
          unlink-run u (run ∙ move_subsection_last-other k e (some p) u stays),
          rw other (TakenOut-cleared e p ws ys e_out left-Distinct u u links refl refl),
        )

    moves_to_first :
        same (s.subsection k).last_entry (some e) ≡ true
        → same (some p) (s.subsection k).first_entry ≡ true
        → Result
    unfolding spoils write_subsection_last
    moves_to_first at_e at_first =
        let last_is : same (u.subsection k).last_entry (some e) ≡ true = rw ranges at_e in
        let first_is : same (some p) (u.subsection k).first_entry ≡ true = rw ranges at_first in
        let t = write_subsection_last k (some p) u in
        (
          cleared e t,
          unlink-run t (run ∙ move_subsection_last-first k e (some p) u last_is first_is),
          rw (at_e, at_first) (TakenOut-cleared e p ws ys e_out left-Distinct u t links refl refl),
        )

    links_back :
        same (s.subsection k).last_entry (some e) ≡ true
        → same (some p) (s.subsection k).first_entry ≡ false
        → Result
    unfolding spoils
    links_back at_e inner =
        let last_is : (u.subsection k).last_entry ≡ some e =
          rw ranges (same-some (s.subsection k).last_entry e at_e) in
        let first_is : same (some p) (u.subsection k).first_entry ≡ false = rw ranges inner in
        let (t, is, n, q) = moved-links u k e p in
        (
          cleared e t,
          unlink-run t
              (run ∙ move_subsection_last-link k e p u last_is first_is ∙ ap some (sym is)),
          rw (at_e, inner) (TakenOut-spoiled e p ws ys e_out left-Distinct u t links n q p_e),
        )

  unlink-taken : Result
  unlink-taken =
      let l : Store = unlinked (some p) after s in
      let (maps, kept) = unlinked-rest (some p) after s in
      let in_k : l.entry_to_subsection e ≡ some k = ap (λ (m : ℕ → Pointer). m e) maps ∙ inside in
      let not_first : same (l.subsection k).first_entry (some e) ≡ false =
        rw (kept, starts.first_is) (apart starts.start starts.inside) in
      let (u, run, su, ranges) = leave_ranges-run e e p k after l in_k not_first in
      let links : Linked u.next u.prev none (front ++ ys) none = rw (su.next, su.prev) rest in
      let same_ranges = ranges ∙ kept in
      elim (Bool-cases (same (s.subsection k).last_entry (some e))) [
        | inl at_e ↦ elim (Bool-cases (same (some p) (s.subsection k).first_entry)) [
          | inl at_first ↦ moves_to_first u run links same_ranges at_e at_first
          | inr inner ↦ links_back u run links same_ranges at_e inner
        ]
        | inr other ↦ keeps_last u run links same_ranges other
      ]

-- `Unlink` of an entry `e` right behind `p` takes it out of the chain, read forwards, and leaves it no
-- links. Read backwards the chain is the old one without `e` too, unless `e` ended its subsection and `p`
-- does not start it: then `p` leads back to `e`, and all other entries to the ones before them.
pub unlink-TakenOut :
    (e p k : ℕ) (ws ys : List ℕ) (s : Store)
    → Linked s.next s.prev none ((ws ++ (p ∷ [])) ++ (e ∷ ys)) none
    → Distinct ((ws ++ (p ∷ [])) ++ (e ∷ ys))
    → s.entry_to_subsection e ≡ some k
    → StartsIn s k (ws ++ (p ∷ []))
    → (s' : Store) × (unlink e s ≡ some s') × TakenOut s' e p ws ys (spoils s k e p)
unlink-TakenOut = unlink-taken
