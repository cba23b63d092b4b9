-- ===== src/Entries/Examples.antt =====
-- Runs of the edits of src/MaoEntry.cc on a unit of four entries, and of a chain of two.
use mao.Prelude.{ℕ, ◌≡◌, refl, arith, true, none, some, [], ◌∷◌, ◌++◌}
use mao.Entries.{Pointer, put, Store, unlink, unlink_chain, link_before, link_after, get_last_entry}
use mao.Entries.Chain.{Distinct, Forward, Backward, head_or, last_or, has}
use mao.Entries.Splice.{Linked}
use mao.Entries.Link.{link_before-Linked}
use mao.Entries.After.{survivors, link_after-Linked}
use mao.Entries.UnlinkChain.{unlink_chain-Linked}
use mao.Entries.TakenOut.{TakenOut, spoils}
use mao.Entries.Unlink.{unlink-TakenOut}

abbrev null : ℕ → Pointer
null a = none

-- The entries 1 to 4 in subsection 0, and 2 to 4 in function 0; the chain of 5 and 6 is apart.
abbrev unit : Store
unit = record {
  next = put (put (put (put null 1 (some 2)) 2 (some 3)) 3 (some 4)) 5 (some 6);
  prev = put (put (put (put null 2 (some 1)) 3 (some 2)) 4 (some 3)) 6 (some 5);
  entry_to_function = put (put (put null 2 (some 0)) 3 (some 0)) 4 (some 0);
  entry_to_subsection = λ _. some 0;
  function = λ _. record { first_entry = some 2; last_entry = some 4; end_entry = some 4 };
  subsection = λ _. record { first_entry = some 1; last_entry = some 4 };
}

unit-Linked : Linked unit.next unit.prev none (1 ∷ 2 ∷ 3 ∷ 4 ∷ []) none
unfolding Forward Backward put head_or
unit-Linked = record {
  forward = (refl, (refl, (refl, (refl, tt))));
  backward = (refl, (refl, (refl, (refl, tt))));
}

chain-Linked : Linked unit.next unit.prev none (5 ∷ 6 ∷ []) none
unfolding Forward Backward put head_or
chain-Linked = record { forward = (refl, (refl, tt)); backward = (refl, (refl, tt)) }

link_before-Linked_example :
    (s' : Store) × (link_before 2 3 5 unit ≡ some s')
    × Linked s'.next s'.prev none (1 ∷ 2 ∷ 5 ∷ 6 ∷ 3 ∷ 4 ∷ []) none
unfolding Distinct has
link_before-Linked_example =
    link_before-Linked 2 3 5 0 (1 ∷ 2 ∷ []) (6 ∷ []) (4 ∷ []) unit unit-Linked chain-Linked
      (refl, (refl, (refl, (refl, (refl, (refl, tt)))))) (omega arith) refl

-- Behind the last entry, 5 is lost.
link_after-Linked_example :
    (s' : Store) × (link_after 2 4 5 unit ≡ some s')
    × Linked s'.next s'.prev none (1 ∷ 2 ∷ 3 ∷ 4 ∷ (survivors unit 0 4 (5 ∷ 6 ∷ []) ++ [])) none
unfolding Distinct has
link_after-Linked_example =
    link_after-Linked 2 4 5 0 (1 ∷ 2 ∷ 3 ∷ []) (6 ∷ []) [] unit unit-Linked chain-Linked
      (refl, (refl, (refl, (refl, (refl, (refl, tt)))))) (omega arith) refl
      (record { start = 1; first_is = refl; inside = refl })

survivors_at_end : survivors unit 0 4 (5 ∷ 6 ∷ []) ≡ 6 ∷ []
unfolding survivors
survivors_at_end = refl

unlink-TakenOut_example :
    (s' : Store) × (unlink 3 unit ≡ some s') × TakenOut s' 3 2 (1 ∷ []) (4 ∷ []) (spoils unit 0 3 2)
unfolding Distinct has
unlink-TakenOut_example =
    unlink-TakenOut 3 2 0 (1 ∷ []) (4 ∷ []) unit unit-Linked (refl, (refl, (refl, (refl, tt)))) refl
      (record { start = 1; first_is = refl; inside = refl })

unlink_chain-Linked_example :
    (s' : Store) × (unlink_chain 2 3 unit ≡ some s')
    × Linked s'.next s'.prev none (1 ∷ 4 ∷ []) none
    × Linked s'.next s'.prev none (2 ∷ 3 ∷ []) none
unfolding Distinct has last_or put
unlink_chain-Linked_example =
    unlink_chain-Linked 2 3 1 0 [] (3 ∷ []) (4 ∷ []) unit unit-Linked
      (refl, (refl, (refl, (refl, tt)))) refl refl refl refl
      (record { start = 1; first_is = refl; inside = refl }) refl

-- The entry before the last one of a subsection is linked back to the entry that is out.
spoils_at_end : spoils unit 0 4 3 ≡ true
unfolding spoils
spoils_at_end = refl

last_of_chain : get_last_entry 2 5 unit ≡ some 6
unfolding get_last_entry put
last_of_chain = refl
