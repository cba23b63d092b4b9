-- ===== src/MaoUnit.antt =====
-- src/MaoUnit.cc, `DeleteEntry`, on the list of entries of Entries. The fields `entry_vector_`,
-- `entry_to_function_`, `entry_to_subsection_` and `labels_` of the unit and the size maps of the
-- relaxer are functions; a section and the name of a label are numbers. The result `none` is a failed
-- assertion or a use of a missing entry. The assertion that the function found for an entry is no null pointer
-- is left out, since `entry_to_function_` holds no null pointers here, and so is that of `GetSection`
-- that the function has a subsection, which the model of a function does not keep.
pub mod Delete
mod Examples
use mao.Prelude.{ℕ, Bool, true, false, not, Option, some, none, if◌then◌else◌}
use mao.Prelude.Checked.{Checked, ◌>>=◌, ◌>>◌, mao_assert}
use mao.Entries.{
  Pointer, same, put, Function, SubSection, Store, relink_next, relink_prev, set_function_first,
  set_function_last, set_subsection_first, set_subsection_last,
}

pub record MaoUnit : Type 0 where
  -- the entries and the maps from entries
  pub store : Store
  pub entry_id : ℕ → ℕ
  pub entry_vector : ℕ → Pointer
  -- the section of a function, and the size map of a section if the relaxer has made one
  pub section : ℕ → ℕ
  pub sizes : ℕ → Option (ℕ → Option ℕ)
  -- the name of an entry that is a label
  pub label_name : ℕ → Option ℕ
  pub labels : ℕ → Pointer

-- `GetFunction` and `GetSubSection`, of `NULL` too
unfoldable pub owner : (ℕ → Pointer) → Pointer → Pointer
owner map none = none
owner map (some e) = map e

-- `sizes->erase(sizes->find(entry))`, behind the assertion that it is there
unfoldable pub erase_size : ℕ → ℕ → MaoUnit → Checked MaoUnit
erase_size sec e u = elim (u.sizes sec) [
  | none ↦ some u
  | some m ↦ elim (m e) [
    | none ↦ none
    | some n ↦ some (record u { sizes = put u.sizes sec (some (put m e none)) })
  ]
]

-- Step 3: the function of the entry
unfoldable pub update_function : ℕ → Pointer → Pointer → Store → Checked Store
unfolding owner
update_function e before after s = elim (s.entry_to_function e) [
  | none ↦ some s
  | some f ↦ do
    mao_assert (not (same (s.function f).first_entry (s.function f).last_entry))
    t ←
        if same (s.function f).first_entry (some e)
        then (mao_assert (same (owner s.entry_to_function after) (some f))
            >> some (set_function_first f after s))
        else some s
    (if same (t.function f).last_entry (some e)
        then (mao_assert (same (owner t.entry_to_function before) (some f))
            >> set_function_last f before t)
        else some t)
]

-- Step 4: the subsection of the entry
unfoldable pub update_subsection : ℕ → Pointer → Pointer → Store → Checked Store
unfolding owner
update_subsection e before after s = elim (s.entry_to_subsection e) [
  | none ↦ some s
  | some k ↦ do
    mao_assert (not (same (s.subsection k).first_entry (s.subsection k).last_entry))
    t ←
        if same (s.subsection k).first_entry (some e)
        then (mao_assert (same (owner s.entry_to_subsection after) (some k))
            >> some (set_subsection_first k after s))
        else some s
    (if same (t.subsection k).last_entry (some e)
        then (mao_assert (same (owner t.entry_to_subsection before) (some k))
            >> set_subsection_last k before t)
        else some t)
]

-- The size maps, for an entry in a function
unfoldable pub forget_size : ℕ → MaoUnit → Checked MaoUnit
unfolding erase_size
forget_size e u = elim (u.store.entry_to_function e) [
  | none ↦ some u
  | some f ↦ erase_size (u.section f) e u
]

-- Step 5: the maps from entries
unfoldable pub forget_owners : ℕ → Store → Store
forget_owners e s = record s {
  entry_to_function = put s.entry_to_function e none;
  entry_to_subsection = put s.entry_to_subsection e none;
}

-- Step 6: the labels
unfoldable pub forget_label : ℕ → MaoUnit → Checked MaoUnit
forget_label e u = elim (u.label_name e) [
  | none ↦ some u
  | some name ↦ elim (u.labels name) [
    | none ↦ none
    | some l ↦ some (record u { labels = put u.labels name none })
  ]
]

-- `DeleteEntry`
unfoldable pub delete_entry : ℕ → MaoUnit → Checked MaoUnit
unfolding update_function update_subsection forget_size forget_owners forget_label
delete_entry e u = do
  let before = u.store.prev e
  let after = u.store.next e
  let s1 = relink_prev after before (relink_next before after u.store)
  let v = put u.entry_vector (u.entry_id e) none
  s2 ← update_function e before after s1
  u2 ← forget_size e (record u { store = s2; entry_vector = v })
  s3 ← update_subsection e before after u2.store
  forget_label e (record u2 { store = forget_owners e s3 })
