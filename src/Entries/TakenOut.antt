-- ===== src/Entries/TakenOut.antt =====
-- src/MaoEntry.cc: the entries behind `Unlink`, where one has been taken out.
use mao.Prelude.{
  ℕ, ◌≡◌, ◌∙◌, Bool, true, false, not, ◌&&◌, none, some, List, [], ◌∷◌, ◌++◌, arith, ◌==◌,
  if◌then◌else◌,
}
use mao.Entries.{Pointer, same, put, Store, set_next, set_prev}
use mao.Entries.Chain.{
  has, Distinct, Forward, Backward, put_other, put_same, has-append, Distinct-append_left,
  Apart-append, Apart-member, Backward-left, Forward-put, Backward-right, Backward-put,
}
use mao.Entries.Splice.{Linked, Apart-cons}
use mao.Entries.After.{last_or-snoc}

-- Backwards, `p` leads to `e`; the entries `ws` before it and `ys` behind it are linked as they should.
pub record LeadsBack (t : Store) (e p : ℕ) (ws ys : List ℕ) : Type 0 where
  pub before : Backward t.prev none ws
  pub at_p : t.prev p ≡ some e
  pub behind : Backward t.prev (some p) ys

-- The entry `e` is out of the chain, which is `ws`, `p` and `ys` from now on.
pub record TakenOut (t : Store) (e p : ℕ) (ws ys : List ℕ) (spoiled : Bool) : Type 0 where
  pub forward : Forward t.next ((ws ++ (p ∷ [])) ++ ys) none
  pub backward :
      if spoiled then LeadsBack t e p ws ys else Backward t.prev none ((ws ++ (p ∷ [])) ++ ys)
  pub no_next : t.next e ≡ none
  pub no_prev : t.prev e ≡ none

-- `Unlink` links the entry before `e` back to `e`: where `e` ends the subsection, unless the
-- subsection starts right before it.
unfoldable pub spoils : Store → ℕ → ℕ → ℕ → Bool
spoils s k e p =
    same (s.subsection k).last_entry (some e) && not (same (some p) (s.subsection k).first_entry)

abbrev pub cleared : ℕ → Store → Store
cleared e s = set_next e none (set_prev e none s)

module _ (e p : ℕ) (ws ys : List ℕ) (out : has e ((ws ++ (p ∷ [])) ++ ys) ≡ false)
    (distinct : Distinct ((ws ++ (p ∷ [])) ++ ys)) where
  abbrev zs : List ℕ
  zs = (ws ++ (p ∷ [])) ++ ys

  pub TakenOut-cleared :
      (s t : Store)
      → Linked s.next s.prev none ((ws ++ (p ∷ [])) ++ ys) none
      → t.next ≡ s.next
      → t.prev ≡ s.prev
      → TakenOut (cleared e t) e p ws ys false
  unfolding set_next set_prev
  TakenOut-cleared s t l n q = record {
    forward = rw n (Forward-put s.next e none zs none out l.forward);
    backward = rw q (Backward-put s.prev e none none zs out l.backward);
    no_next = put_same t.next e none;
    no_prev = put_same t.prev e none;
  }

  p_ws : has p ws ≡ false
  p_ws =
      (Apart-cons p ws []
        (Apart-append ws (p ∷ []) (Distinct-append_left (ws ++ (p ∷ [])) ys distinct))).0

  p_ys : has p ys ≡ false
  unfolding has
  p_ys =
      Apart-member p (ws ++ (p ∷ [])) ys (Apart-append (ws ++ (p ∷ [])) ys distinct)
        (ground (arith, has-append p ws (p ∷ [])))

  e_ws : has e ws ≡ false
  e_ws = ground (arith, has-append e (ws ++ (p ∷ [])) ys, has-append e ws (p ∷ []))

  e_ys : has e ys ≡ false
  e_ys = ground (arith, has-append e (ws ++ (p ∷ [])) ys)

  LeadsBack-spoiled :
      (s t : Store)
      → Backward s.prev none ((ws ++ (p ∷ [])) ++ ys)
      → t.prev ≡ put s.prev p (some e)
      → (p == e) ≡ false
      → LeadsBack (cleared e t) e p ws ys
  unfolding set_next set_prev
  LeadsBack-spoiled s t l q apart =
      let m : ℕ → Pointer = put s.prev p (some e) in
      let left =
        Backward-left s.prev none ws (p ∷ []) (Backward-left s.prev none (ws ++ (p ∷ [])) ys l) in
      let right : Backward s.prev (some p) ys =
        rw (last_or-snoc ws p) at (Backward-right s.prev none (ws ++ (p ∷ [])) ys l) in
      record {
        before =
            rw q (
              Backward-put m e none none ws e_ws
                (Backward-put s.prev p (some e) none ws p_ws left));
        at_p = put_other t.prev e p none apart ∙ rw q (put_same s.prev p (some e));
        behind = rw q (
            Backward-put m e none (some p) ys e_ys
              (Backward-put s.prev p (some e) (some p) ys p_ys right));
      }

  pub TakenOut-spoiled :
      (s t : Store)
      → Linked s.next s.prev none ((ws ++ (p ∷ [])) ++ ys) none
      → t.next ≡ put s.next e (some p)
      → t.prev ≡ put s.prev p (some e)
      → (p == e) ≡ false
      → TakenOut (cleared e t) e p ws ys true
  unfolding set_next set_prev
  TakenOut-spoiled s t l n q apart = record {
    forward = rw n (
        Forward-put (put s.next e (some p)) e none zs none out
          (Forward-put s.next e (some p) zs none out l.forward));
    backward = LeadsBack-spoiled s t l.backward q apart;
    no_next = put_same t.next e none;
    no_prev = put_same t.prev e none;
  }
