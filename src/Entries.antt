-- ===== src/Entries.antt =====
-- src/MaoEntry.cc, the editing of the list of entries: `Unlink` in both forms, `GetLastEntry`,
-- `LinkBefore` and `LinkAfter`, with the setters of src/MaoFunction.h and src/MaoSection.cc that they
-- call. An entry, a function and a subsection are known by their addresses, and `NULL` is `none`. The
-- fields of the entries and of the ranges are functions of the address, the maps `entry_to_function_`
-- and `entry_to_subsection_` of the unit too. The result `none` is a failed assertion, a read or
-- write through `NULL`, or lack of fuel in the loop of `GetLastEntry`.
pub mod Chain
pub mod Splice
pub mod Ranges
pub mod Link
pub mod After
pub mod TakenOut
pub mod Unlink
pub mod UnlinkChain
mod Examples
use mao.Prelude.{
  ℕ, zero, suc, Bool, true, false, not, ◌&&◌, Option, some, none, ◌==◌, if◌then◌else◌,
}
use mao.Prelude.Checked.{Checked, ◌>>=◌, ◌>>◌, mao_assert}

abbrev pub Pointer : Type 0
Pointer = Option ℕ

-- Two pointers are equal.
abbrev pub same : Pointer → Pointer → Bool
same none none = true
same none (some b) = false
same (some a) none = false
same (some a) (some b) = a == b

-- A write to a field of one address
unfoldable pub put : {A : Type 0} → (ℕ → A) → ℕ → A → ℕ → A
put m k v j = if j == k then v else m j

-- The entries of a function: `first_entry_`, `last_entry_` and `end_entry_`
pub record Function : Type 0 where
  pub first_entry : Pointer
  pub last_entry : Pointer
  pub end_entry : Pointer

-- The entries of a subsection
pub record SubSection : Type 0 where
  pub first_entry : Pointer
  pub last_entry : Pointer

pub record Store : Type 0 where
  pub next : ℕ → Pointer
  pub prev : ℕ → Pointer
  pub entry_to_function : ℕ → Pointer
  pub entry_to_subsection : ℕ → Pointer
  pub function : ℕ → Function
  pub subsection : ℕ → SubSection

unfoldable pub set_next : ℕ → Pointer → Store → Store
set_next e to s = record s { next = put s.next e to }

unfoldable pub set_prev : ℕ → Pointer → Store → Store
set_prev e to s = record s { prev = put s.prev e to }

unfoldable pub set_function_first : ℕ → Pointer → Store → Store
set_function_first f entry s = record s {
  function = put s.function f (record (s.function f) { first_entry = entry });
}

-- `end_entry_` is the entry behind the last one, and the last one itself where there is none.
unfoldable pub write_function_last : ℕ → ℕ → Store → Store
write_function_last f e s =
    let end : Pointer = elim (s.next e) [ none ↦ some e | some n ↦ some n ] in
    record s {
      function = put s.function f (record (s.function f) { last_entry = some e; end_entry = end });
    }

-- It reads the link of the entry, which must not be `NULL`.
unfoldable pub set_function_last : ℕ → Pointer → Store → Checked Store
unfolding write_function_last
set_function_last f none s = none
set_function_last f (some e) s = some (write_function_last f e s)

unfoldable pub set_subsection_first : ℕ → Pointer → Store → Store
set_subsection_first k entry s = record s {
  subsection = put s.subsection k (record (s.subsection k) { first_entry = entry });
}

-- `last_entry_->set_next(entry); entry->set_prev(last_entry_);`
unfoldable pub link_entries : Pointer → Pointer → Store → Checked Store
unfolding set_next set_prev
link_entries none entry s = none
link_entries (some l) none s = none
link_entries (some l) (some e) s = some (set_prev e (some l) (set_next l (some e) s))

unfoldable pub write_subsection_last : ℕ → Pointer → Store → Store
write_subsection_last k entry s = record s {
  subsection = put s.subsection k (record (s.subsection k) { last_entry = entry });
}

-- It also links the new last entry behind the old one, unless it is the first entry.
unfoldable pub set_subsection_last : ℕ → Pointer → Store → Checked Store
unfolding link_entries write_subsection_last
set_subsection_last k entry s = do
  t ←
      if same entry (s.subsection k).first_entry
      then some s
      else link_entries (s.subsection k).last_entry entry s
  some (write_subsection_last k entry t)

-- `if (p != NULL) p->set_next(to)` and `if (p != NULL) p->set_prev(to)`
unfoldable pub relink_next : Pointer → Pointer → Store → Store
unfolding set_next
relink_next none to s = s
relink_next (some p) to s = set_next p to s

unfoldable pub relink_prev : Pointer → Pointer → Store → Store
unfolding set_prev
relink_prev none to s = s
relink_prev (some p) to s = set_prev p to s

-- `if (function && function->first_entry() == at) function->set_first_entry(to)`, and so on
unfoldable pub move_function_first : Pointer → ℕ → Pointer → Store → Store
unfolding set_function_first
move_function_first none at to s = s
move_function_first (some f) at to s =
    if same (s.function f).first_entry (some at) then set_function_first f to s else s

unfoldable pub move_function_last : Pointer → ℕ → Pointer → Store → Checked Store
unfolding set_function_last
move_function_last none at to s = some s
move_function_last (some f) at to s =
    if same (s.function f).last_entry (some at) then set_function_last f to s else some s

unfoldable pub move_subsection_first : Pointer → ℕ → Pointer → Store → Store
unfolding set_subsection_first
move_subsection_first none at to s = s
move_subsection_first (some k) at to s =
    if same (s.subsection k).first_entry (some at) then set_subsection_first k to s else s

unfoldable pub move_subsection_last : Pointer → ℕ → Pointer → Store → Checked Store
unfolding set_subsection_last
move_subsection_last none at to s = some s
move_subsection_last (some k) at to s =
    if same (s.subsection k).last_entry (some at) then set_subsection_last k to s else some s

-- The four updates of the ranges in `Unlink`, for the entries `first` to `last` taken out between
-- `before` and `after`
unfoldable pub leave_ranges : ℕ → ℕ → Pointer → Pointer → Store → Checked Store
unfolding move_function_first move_function_last move_subsection_first move_subsection_last
leave_ranges first last before after s = do
  let f = s.entry_to_function first
  let k = s.entry_to_subsection first
  t ← move_function_last f last before (move_function_first f first after s)
  move_subsection_last k last before (move_subsection_first k first after t)

-- `Unlink()`
unfoldable pub unlink : ℕ → Store → Checked Store
unfolding set_next set_prev relink_next relink_prev leave_ranges
unlink e s = do
  let before = s.prev e
  let after = s.next e
  t ← leave_ranges e e before after (relink_prev after before (relink_next before after s))
  some (set_next e none (set_prev e none t))

-- `Unlink(last_in_chain)`
unfoldable pub unlink_chain : ℕ → ℕ → Store → Checked Store
unfolding set_next set_prev relink_next relink_prev leave_ranges
unlink_chain e last_in_chain s = do
  let before = s.prev e
  let after = s.next last_in_chain
  mao_assert (same (s.entry_to_function e) (s.entry_to_function last_in_chain))
  mao_assert (same (s.entry_to_subsection e) (s.entry_to_subsection last_in_chain))
  t ←
      leave_ranges e last_in_chain before after
        (relink_prev after before (relink_next before after s))
  some (set_next last_in_chain none (set_prev e none t))

-- The loop of `GetLastEntry`, with the assertion against a cycle
unfoldable pub last_entry_loop : ℕ → ℕ → ℕ → Store → Checked ℕ
last_entry_loop zero entry last_entry s = none
last_entry_loop (suc fuel) entry last_entry s = elim (s.next last_entry) [
  | none ↦ some last_entry
  | some n ↦ mao_assert (not (entry == n)) >> last_entry_loop fuel entry n s
]

-- `GetLastEntry`
unfoldable pub get_last_entry : ℕ → ℕ → Store → Checked ℕ
unfolding last_entry_loop
get_last_entry fuel entry s = last_entry_loop fuel entry entry s

-- `MAO_ASSERT(subsection)`
unfoldable pub has_subsection : ℕ → Store → Checked (Unit {0})
has_subsection e s = elim (s.entry_to_subsection e) [ none ↦ none | some k ↦ some tt ]

-- `LinkBefore`
unfoldable pub link_before : ℕ → ℕ → ℕ → Store → Checked Store
unfolding get_last_entry has_subsection set_next set_prev relink_next move_function_first
    move_subsection_first
link_before fuel this entry s = do
  last_entry ← get_last_entry fuel entry s
  let s1 = set_next last_entry (some this) s
  let s2 = set_prev entry (s1.prev this) s1
  let t = set_prev this (some last_entry) (relink_next (s2.prev this) (some entry) s2)
  let u = move_function_first (t.entry_to_function this) this (some entry) t
  has_subsection this u
  some (move_subsection_first (u.entry_to_subsection this) this (some entry) u)

-- `LinkAfter`
unfoldable pub link_after : ℕ → ℕ → ℕ → Store → Checked Store
unfolding get_last_entry has_subsection set_next set_prev relink_prev move_function_last
    move_subsection_last
link_after fuel this entry s = do
  last_entry ← get_last_entry fuel entry s
  let s1 = set_next last_entry (s.next this) s
  let s2 = set_prev entry (some this) s1
  let t = set_next this (some entry) (relink_prev (s2.next this) (some last_entry) s2)
  u ← move_function_last (t.entry_to_function this) this (some last_entry) t
  has_subsection this u
  move_subsection_last (u.entry_to_subsection this) this (some last_entry) u
