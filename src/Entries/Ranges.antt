-- ===== src/Entries/Ranges.antt =====
-- src/MaoFunction.h and src/MaoSection.cc, the first and last entries of functions and subsections:
-- what their setters keep, and how they follow a chain.
use mao.Prelude.{
  ℕ, ◌≡◌, refl, inl, inr, Bool, true, false, none, some, ==_refl, Bool-cases, if◌then◌else◌,
}
use mao.Entries.{
  Pointer, same, Store, set_next, set_prev, relink_next, relink_prev, move_function_first,
  move_function_last, move_subsection_first, move_subsection_last, set_function_first,
  set_subsection_first, set_subsection_last, link_entries, write_function_last,
  write_subsection_last, set_function_last,
}
use mao.Entries.Splice.{put_at}

-- The links and the maps of the two stores are the same.
pub record SameLinks (s t : Store) : Type 0 where
  pub next : t.next ≡ s.next
  pub prev : t.prev ≡ s.prev
  pub functions : t.entry_to_function ≡ s.entry_to_function
  pub subsections : t.entry_to_subsection ≡ s.entry_to_subsection

pub SameLinks-refl : (s : Store) → SameLinks s s
SameLinks-refl s = record { next = refl; prev = refl; functions = refl; subsections = refl }

SameLinks-if :
    (b : Bool) (s t u : Store) → SameLinks s t → SameLinks s u → SameLinks s (if b then t else u)
SameLinks-if true s t u p q = p
SameLinks-if false s t u p q = q

pub move_function_first-SameLinks :
    (q : Pointer) (at : ℕ) (to : Pointer) (s : Store) → SameLinks s (move_function_first q at to s)
unfolding move_function_first set_function_first
move_function_first-SameLinks none at to s = SameLinks-refl s
move_function_first-SameLinks (some f) at to s =
    SameLinks-if (same (s.function f).first_entry (some at)) s (set_function_first f to s) s
      (record { next = refl; prev = refl; functions = refl; subsections = refl }) (SameLinks-refl s)

pub move_function_first-subsection :
    (q : Pointer) (at : ℕ) (to : Pointer) (s : Store)
    → (move_function_first q at to s).subsection ≡ s.subsection
unfolding move_function_first set_function_first
move_function_first-subsection none at to s = refl
move_function_first-subsection (some f) at to s =
    elim (Bool-cases (same (s.function f).first_entry (some at))) [
      | inl e ↦ rw (e, move_function_first) refl
      | inr e ↦ rw (e, move_function_first) refl
    ]

pub move_subsection_first-SameLinks :
    (q : Pointer) (at : ℕ) (to : Pointer) (s : Store)
    → SameLinks s (move_subsection_first q at to s)
unfolding move_subsection_first set_subsection_first
move_subsection_first-SameLinks none at to s = SameLinks-refl s
move_subsection_first-SameLinks (some k) at to s =
    SameLinks-if (same (s.subsection k).first_entry (some at)) s (set_subsection_first k to s) s
      (record { next = refl; prev = refl; functions = refl; subsections = refl }) (SameLinks-refl s)

write_function_last-SameLinks : (f e : ℕ) (s : Store) → SameLinks s (write_function_last f e s)
unfolding write_function_last
write_function_last-SameLinks f e s = record {
  next = refl;
  prev = refl;
  functions = refl;
  subsections = refl;
}

-- A function with a new last entry: the links and the subsections stay.
pub move_function_last-some :
    (q : Pointer) (at to : ℕ) (s : Store)
    → (t : Store) × (move_function_last q at (some to) s ≡ some t)
      × SameLinks s t
      × (t.subsection ≡ s.subsection)
unfolding move_function_last set_function_last write_function_last
move_function_last-some none at to s = (s, refl, SameLinks-refl s, refl)
move_function_last-some (some f) at to s =
    elim (Bool-cases (same (s.function f).last_entry (some at))) [
      | inl e ↦ (
        write_function_last f to s,
        rw (e, move_function_last) refl,
        write_function_last-SameLinks f to s,
        refl,
      )
      | inr e ↦ (s, rw (e, move_function_last) refl, SameLinks-refl s, refl)
    ]

pub relink_next-next : (q to : Pointer) (s : Store) → (relink_next q to s).next ≡ put_at s.next q to
unfolding relink_next set_next put_at
relink_next-next none to s = refl
relink_next-next (some a) to s = refl

pub relink_next-rest :
    (q to : Pointer) (s : Store)
    → ((relink_next q to s).prev ≡ s.prev)
      × ((relink_next q to s).entry_to_function ≡ s.entry_to_function)
      × ((relink_next q to s).entry_to_subsection ≡ s.entry_to_subsection)
      × ((relink_next q to s).subsection ≡ s.subsection)
unfolding relink_next set_next
relink_next-rest none to s = (refl, refl, refl, refl)
relink_next-rest (some a) to s = (refl, refl, refl, refl)

pub relink_prev-prev : (q to : Pointer) (s : Store) → (relink_prev q to s).prev ≡ put_at s.prev q to
unfolding relink_prev set_prev put_at
relink_prev-prev none to s = refl
relink_prev-prev (some a) to s = refl

pub relink_prev-rest :
    (q to : Pointer) (s : Store)
    → ((relink_prev q to s).next ≡ s.next)
      × ((relink_prev q to s).entry_to_function ≡ s.entry_to_function)
      × ((relink_prev q to s).entry_to_subsection ≡ s.entry_to_subsection)
      × ((relink_prev q to s).subsection ≡ s.subsection)
unfolding relink_prev set_prev
relink_prev-rest none to s = (refl, refl, refl, refl)
relink_prev-rest (some a) to s = (refl, refl, refl, refl)

pub move_subsection_first-other :
    (k at : ℕ) (to : Pointer) (s : Store)
    → same (s.subsection k).first_entry (some at) ≡ false
    → move_subsection_first (some k) at to s ≡ s
unfolding move_subsection_first
move_subsection_first-other k at to s e = rw e

-- A subsection whose last entry moves: without links where another entry is the last one,
pub move_subsection_last-other :
    (k at : ℕ) (to : Pointer) (s : Store)
    → same (s.subsection k).last_entry (some at) ≡ false
    → move_subsection_last (some k) at to s ≡ some s
unfolding move_subsection_last
move_subsection_last-other k at to s e = rw e

-- to the first entry, without links,
pub move_subsection_last-first :
    (k at : ℕ) (to : Pointer) (s : Store)
    → same (s.subsection k).last_entry (some at) ≡ true
    → same to (s.subsection k).first_entry ≡ true
    → move_subsection_last (some k) at to s ≡ some (write_subsection_last k to s)
unfolding move_subsection_last set_subsection_last
move_subsection_last-first k at to s e f = rw (e, f, set_subsection_last)

-- and else with a link from the old last entry to the new one.
pub move_subsection_last-link :
    (k at e : ℕ) (s : Store)
    → (s.subsection k).last_entry ≡ some at
    → same (some e) (s.subsection k).first_entry ≡ false
    → move_subsection_last (some k) at (some e) s
      ≡ some (write_subsection_last k (some e) (set_prev e (some at) (set_next at (some e) s)))
unfolding move_subsection_last set_subsection_last link_entries
move_subsection_last-link k at e s l f = rw (l, ==_refl, f, set_subsection_last)
