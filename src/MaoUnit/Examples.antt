-- ===== src/MaoUnit/Examples.antt =====
-- A run of `DeleteEntry` of src/MaoUnit.cc on a function of three entries, the second one a label.
use mao.Prelude.{ℕ, ◌≡◌, refl, none, some, [], ◌∷◌}
use mao.Entries.{Pointer, put}
use mao.Entries.Chain.{Distinct, Forward, Backward, head_or, has}
use mao.Entries.Splice.{Linked}
use mao.MaoUnit.{MaoUnit, delete_entry}
use mao.MaoUnit.Delete.{IsInside, Sized, Labelled, Deleted, delete_entry-Deleted}

abbrev null : ℕ → Pointer
null a = none

abbrev unit : MaoUnit
unit = record {
  store = record {
    next = put (put null 1 (some 2)) 2 (some 3);
    prev = put (put null 2 (some 1)) 3 (some 2);
    entry_to_function = λ _. some 0;
    entry_to_subsection = λ _. some 0;
    function = λ _. record { first_entry = some 1; last_entry = some 3; end_entry = some 3 };
    subsection = λ _. record { first_entry = some 1; last_entry = some 3 };
  };
  entry_id = λ e. e;
  entry_vector = λ i. some i;
  section = λ _. 0;
  sizes = λ _. some (λ _. some 2);
  label_name = put null 2 (some 7);
  labels = put null 7 (some 2);
}

unit-Linked : Linked unit.store.next unit.store.prev none (1 ∷ 2 ∷ 3 ∷ []) none
unfolding Forward Backward put head_or
unit-Linked = record { forward = (refl, (refl, (refl, tt))); backward = (refl, (refl, (refl, tt))) }

two-IsInside : IsInside unit 2 0 0
two-IsInside = record {
  function_is = refl;
  subsection_is = refl;
  function_long = refl;
  subsection_long = refl;
  not_first = refl;
  not_last = refl;
  not_starting = refl;
  not_ending = refl;
}

delete_entry-Deleted_example :
    (t : MaoUnit) × (delete_entry 2 unit ≡ some t) × Deleted unit t 2 0 (1 ∷ 3 ∷ [])
unfolding Distinct has Sized Labelled put
delete_entry-Deleted_example =
    delete_entry-Deleted 2 0 0 (1 ∷ []) (3 ∷ []) unit unit-Linked (refl, (refl, (refl, tt)))
      two-IsInside (2, refl) (2, refl)
