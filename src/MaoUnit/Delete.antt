-- ===== src/MaoUnit/Delete.antt =====
-- src/MaoUnit.cc, `DeleteEntry`: what is left of an entry inside its function and its subsection.
use mao.Prelude.{ℕ, ◌≡◌, refl, ap, ◌∙◌, false, Option, none, some, List, [], ◌∷◌, ◌++◌}
use mao.Entries.{Pointer, same, put, Store, relink_next, relink_prev}
use mao.Entries.Chain.{
  head_or, last_or, Distinct, Forward, Backward, Forward-right, Backward-right, put_same,
}
use mao.Entries.Splice.{put_at, Linked, excise}
use mao.Entries.Ranges.{relink_next-next, relink_next-rest, relink_prev-prev, relink_prev-rest}
use mao.MaoUnit.{
  MaoUnit, erase_size, update_function, update_subsection, forget_size, forget_owners, forget_label,
  delete_entry,
}

-- The entry is between the first and the last one of its function and of its subsection.
pub record IsInside (u : MaoUnit) (e f k : ℕ) : Type 0 where
  pub function_is : u.store.entry_to_function e ≡ some f
  pub subsection_is : u.store.entry_to_subsection e ≡ some k
  pub function_long : same (u.store.function f).first_entry (u.store.function f).last_entry ≡ false
  pub subsection_long :
      same (u.store.subsection k).first_entry (u.store.subsection k).last_entry ≡ false
  pub not_first : same (u.store.function f).first_entry (some e) ≡ false
  pub not_last : same (u.store.function f).last_entry (some e) ≡ false
  pub not_starting : same (u.store.subsection k).first_entry (some e) ≡ false
  pub not_ending : same (u.store.subsection k).last_entry (some e) ≡ false

module _ (e f k : ℕ) (before after : Pointer) (s : Store) where
  update_function-inside :
      s.entry_to_function e ≡ some f
      → same (s.function f).first_entry (s.function f).last_entry ≡ false
      → same (s.function f).first_entry (some e) ≡ false
      → same (s.function f).last_entry (some e) ≡ false
      → update_function e before after s ≡ some s
  unfolding update_function
  update_function-inside i long first last =
      rw (update_function, i) (rw long (rw first (rw last refl)))

  update_subsection-inside :
      s.entry_to_subsection e ≡ some k
      → same (s.subsection k).first_entry (s.subsection k).last_entry ≡ false
      → same (s.subsection k).first_entry (some e) ≡ false
      → same (s.subsection k).last_entry (some e) ≡ false
      → update_subsection e before after s ≡ some s
  unfolding update_subsection
  update_subsection-inside i long first last =
      rw (update_subsection, i) (rw long (rw first (rw last refl)))

-- A size map, if there is one, has the entry.
unfoldable pub Sized : Option (ℕ → Option ℕ) → ℕ → Type 0
Sized none e = Unit {0}
Sized (some m) e = (n : ℕ) × (m e ≡ some n)

-- It has not.
unfoldable pub Unsized : Option (ℕ → Option ℕ) → ℕ → Type 0
Unsized none e = Unit {0}
Unsized (some m) e = m e ≡ none

-- The entry is no label, or its name is in the map.
unfoldable pub Labelled : Option ℕ → (ℕ → Pointer) → Type 0
Labelled none labels = Unit {0}
Labelled (some name) labels = (l : ℕ) × (labels name ≡ some l)

unfoldable pub Unlabelled : Option ℕ → (ℕ → Pointer) → Type 0
Unlabelled none labels = Unit {0}
Unlabelled (some name) labels = labels name ≡ none

-- What the erasure of a size or a label keeps
record Keeps (u t : MaoUnit) : Type 0 where
  store : t.store ≡ u.store
  entry_vector : t.entry_vector ≡ u.entry_vector

erase_size-some :
    (sec e : ℕ) (u : MaoUnit) (q : Option (ℕ → Option ℕ))
    → u.sizes sec ≡ q
    → Sized q e
    → (t : MaoUnit) × (erase_size sec e u ≡ some t)
      × Keeps u t
      × Unsized (t.sizes sec) e
      × (t.label_name ≡ u.label_name)
      × (t.labels ≡ u.labels)
unfolding erase_size Sized Unsized
erase_size-some sec e u none i z =
    (u, rw (erase_size, i) refl, record { store = refl; entry_vector = refl }, rw i tt, refl, refl)
erase_size-some sec e u (some m) i (n, z) = (
  record u { sizes = put u.sizes sec (some (put m e none)) },
  rw (erase_size, i) (rw z refl),
  record { store = refl; entry_vector = refl },
  rw (put_same u.sizes sec (some (put m e none))) (put_same m e none),
  refl,
  refl,
)

forget_size-in :
    (e f : ℕ) (u : MaoUnit)
    → u.store.entry_to_function e ≡ some f
    → forget_size e u ≡ erase_size (u.section f) e u
unfolding forget_size
forget_size-in e f u i = rw (forget_size, i) refl

forget_label-some :
    (e : ℕ) (u : MaoUnit) (q : Option ℕ)
    → u.label_name e ≡ q
    → Labelled q u.labels
    → (t : MaoUnit) × (forget_label e u ≡ some t)
      × Keeps u t
      × Unlabelled q t.labels
      × (t.sizes ≡ u.sizes)
unfolding forget_label Labelled Unlabelled
forget_label-some e u none i z =
    (u, rw (forget_label, i) refl, record { store = refl; entry_vector = refl }, tt, refl)
forget_label-some e u (some name) i (l, z) = (
  record u { labels = put u.labels name none },
  rw (forget_label, i) (rw z refl),
  record { store = refl; entry_vector = refl },
  put_same u.labels name none,
  refl,
)

relink_next-function : (q to : Pointer) (s : Store) → (relink_next q to s).function ≡ s.function
unfolding relink_next
relink_next-function none to s = refl
relink_next-function (some a) to s = refl

relink_prev-function : (q to : Pointer) (s : Store) → (relink_prev q to s).function ≡ s.function
unfolding relink_prev
relink_prev-function none to s = refl
relink_prev-function (some a) to s = refl

-- The entry `e` is out of the chain, now `zs`, and of all maps; the other entries keep their places,
-- and the functions and subsections their ends.
pub record Deleted (u t : MaoUnit) (e f : ℕ) (zs : List ℕ) : Type 0 where
  pub chain : Linked t.store.next t.store.prev none zs none
  pub functions : t.store.entry_to_function ≡ put u.store.entry_to_function e none
  pub subsections : t.store.entry_to_subsection ≡ put u.store.entry_to_subsection e none
  pub same_functions : t.store.function ≡ u.store.function
  pub same_subsections : t.store.subsection ≡ u.store.subsection
  pub entries : t.entry_vector ≡ put u.entry_vector (u.entry_id e) none
  pub unsized : Unsized (t.sizes (u.section f)) e
  pub unlabelled : Unlabelled (u.label_name e) t.labels

module _ (e f k : ℕ) (xs ys : List ℕ) (u : MaoUnit)
    (chain : Linked u.store.next u.store.prev none (xs ++ (e ∷ ys)) none)
    (distinct : Distinct (xs ++ (e ∷ ys))) (inside : IsInside u e f k)
    (sized : Sized (u.sizes (u.section f)) e) (labelled : Labelled (u.label_name e) u.labels) where
  abbrev before : Pointer
  before = last_or none xs

  abbrev after : Pointer
  after = head_or ys none

  abbrev s1 : Store
  s1 = relink_prev after before (relink_next before after u.store)

  s1_next : s1.next ≡ put_at u.store.next before after
  s1_next =
      (relink_prev-rest after before (relink_next before after u.store)).0
      ∙ relink_next-next before after u.store

  s1_prev : s1.prev ≡ put_at u.store.prev after before
  s1_prev =
      relink_prev-prev after before (relink_next before after u.store)
      ∙ ap (λ (m : ℕ → Pointer). put_at m after before) (relink_next-rest before after u.store).0

  s1_functions : s1.entry_to_function ≡ u.store.entry_to_function
  s1_functions =
      (relink_prev-rest after before (relink_next before after u.store)).1
      ∙ (relink_next-rest before after u.store).1

  s1_subsections : s1.entry_to_subsection ≡ u.store.entry_to_subsection
  s1_subsections =
      (relink_prev-rest after before (relink_next before after u.store)).2
      ∙ (relink_next-rest before after u.store).2

  s1_subsection : s1.subsection ≡ u.store.subsection
  s1_subsection =
      (relink_prev-rest after before (relink_next before after u.store)).3
      ∙ (relink_next-rest before after u.store).3

  s1_function : s1.function ≡ u.store.function
  s1_function =
      relink_prev-function after before (relink_next before after u.store)
      ∙ relink_next-function before after u.store

  s1_chain : Linked s1.next s1.prev none (xs ++ ys) none
  s1_chain = rw (s1_next, s1_prev) (excise u.store.next u.store.prev xs (e ∷ []) ys distinct chain)

  before_is : u.store.prev e ≡ before
  unfolding Backward
  before_is = (Backward-right u.store.prev none xs (e ∷ ys) chain.backward).0

  after_is : u.store.next e ≡ after
  unfolding Forward
  after_is = (Forward-right u.store.next xs (e ∷ ys) none chain.forward).0

  function_step : update_function e before after s1 ≡ some s1
  function_step =
      update_function-inside e f k before after s1 (rw s1_functions inside.function_is)
        (rw s1_function inside.function_long) (rw s1_function inside.not_first)
        (rw s1_function inside.not_last)

  subsection_step : update_subsection e before after s1 ≡ some s1
  subsection_step =
      update_subsection-inside e f k before after s1 (rw s1_subsections inside.subsection_is)
        (rw s1_subsection inside.subsection_long) (rw s1_subsection inside.not_starting)
        (rw s1_subsection inside.not_ending)

  abbrev u1 : MaoUnit
  u1 = record u { store = s1; entry_vector = put u.entry_vector (u.entry_id e) none }

  delete-run :
      (u2 t : MaoUnit)
      → erase_size (u.section f) e u1 ≡ some u2
      → u2.store ≡ s1
      → forget_label e (record u2 { store = forget_owners e s1 }) ≡ some t
      → delete_entry e u ≡ some t
  unfolding delete_entry
  delete-run u2 t size stays last =
      let in_f : s1.entry_to_function e ≡ some f = rw s1_functions inside.function_is in
      let size_step : forget_size e u1 ≡ some u2 = forget_size-in e f u1 in_f ∙ size in
      rw (before_is, after_is, function_step) (rw size_step (rw stays (rw subsection_step last)))

  pub delete_entry-Deleted :
      (t : MaoUnit) × (delete_entry e u ≡ some t) × Deleted u t e f (xs ++ ys)
  unfolding forget_owners
  delete_entry-Deleted =
      let (u2, size, kept, gone, names, labels) =
        erase_size-some (u.section f) e u1 (u.sizes (u.section f)) refl sized in
      let w : MaoUnit = record u2 { store = forget_owners e s1 } in
      let (t, last, kept', unnamed, sizes) =
        forget_label-some e w (u.label_name e) (ap (λ (m : ℕ → Option ℕ). m e) names)
          (rw labels labelled) in
      (
        t,
        delete-run u2 t size kept.store last,
        record {
          chain = rw kept'.store s1_chain;
          functions =
              ap Store.entry_to_function kept'.store
              ∙ ap (λ (m : ℕ → Pointer). put m e none) s1_functions;
          subsections =
              ap Store.entry_to_subsection kept'.store
              ∙ ap (λ (m : ℕ → Pointer). put m e none) s1_subsections;
          same_functions = rw kept'.store s1_function;
          same_subsections = rw kept'.store s1_subsection;
          entries = kept'.entry_vector ∙ kept.entry_vector;
          unsized = rw sizes gone;
          unlabelled = unnamed;
        },
      )
