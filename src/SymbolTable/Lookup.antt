-- ===== src/SymbolTable/Lookup.antt =====
-- `FindOrCreateAndFind` (src/SymbolTable.cc): one symbol for each name, with identifiers from 0 on.
use mao.Prelude.{
  ℕ, ◌+◌, ◌<◌, ◌≡◌, refl, sym, ◌∙◌, ap, inl, inr, true, false, List, [], ◌∷◌, ◌++◌, Option, some,
  none, arith, lt→ltb, if◌then◌else◌, length, Bool-cases, Option-cases,
}
use mao.SymbolTable.{
  Symbol, local, object_symbol, new_symbol, same_name, lookup, exists, add, find,
  find_or_create_and_find, max_symbol_length,
}

pub same_name_refl : (a : List ℕ) → same_name a a ≡ true
unfolding same_name
same_name_refl [] = refl
same_name_refl (x ∷ xs) = ground (arith, same_name_refl xs)

same_name_comm : (a b : List ℕ) → same_name a b ≡ same_name b a
unfolding same_name
same_name_comm [] [] = refl
same_name_comm [] (y ∷ ys) = refl
same_name_comm (x ∷ xs) [] = refl
same_name_comm (x ∷ xs) (y ∷ ys) = ground (arith, same_name_comm xs ys)

-- The identifiers count from `n` on, in the order in which the symbols came.
abbrev pub IdsFrom : ℕ → List Symbol → Type 0
IdsFrom n [] = Unit
IdsFrom n (s ∷ table) = (s.id ≡ n) × IdsFrom (n + 1) table

-- No two symbols have one name.
abbrev pub IsUnambiguous : List Symbol → Type 0
IsUnambiguous [] = Unit
IsUnambiguous (s ∷ table) = (lookup s.name table ≡ none) × IsUnambiguous table

pub record IsTable (table : List Symbol) : Type 0 where
  pub ids : IdsFrom 0 table
  pub names : IsUnambiguous table

add-missing : (s : Symbol) (t : List Symbol) → lookup s.name t ≡ none → add s t ≡ t ++ s ∷ []
unfolding lookup add
add-missing s [] e = refl
add-missing s (x ∷ t) e = elim (Bool-cases (same_name s.name x.name)) [
  | inl same ↦ absurd (cc (rw same at e))
  | inr not_same ↦
      rw not_same (ap (λ (l : List Symbol). x ∷ l) (add-missing s t (rw not_same at e)))
]

lookup-append_other :
    (name : List ℕ) (s : Symbol) (t : List Symbol)
    → same_name name s.name ≡ false
    → lookup name (t ++ s ∷ []) ≡ lookup name t
unfolding lookup
lookup-append_other name s [] d = rw d refl
lookup-append_other name s (x ∷ t) d = rw (lookup-append_other name s t d) refl

lookup-append_self :
    (s : Symbol) (t : List Symbol) → lookup s.name t ≡ none → lookup s.name (t ++ s ∷ []) ≡ some s
unfolding lookup
lookup-append_self s [] e = rw (same_name_refl s.name) refl
lookup-append_self s (x ∷ t) e = elim (Bool-cases (same_name s.name x.name)) [
  | inl same ↦ absurd (cc (rw same at e))
  | inr not_same ↦ rw not_same (lookup-append_self s t (rw not_same at e))
]

IdsFrom-append :
    (n : ℕ) (s : Symbol) (t : List Symbol)
    → IdsFrom n t
    → s.id ≡ n + length t
    → IdsFrom n (t ++ s ∷ [])
IdsFrom-append n s [] h e = (omega arith, tt)
IdsFrom-append n s (x ∷ t) h e = (h.0, IdsFrom-append (n + 1) s t h.1 (omega arith))

IsUnambiguous-append :
    (s : Symbol) (t : List Symbol)
    → IsUnambiguous t
    → lookup s.name t ≡ none
    → IsUnambiguous (t ++ s ∷ [])
unfolding lookup
IsUnambiguous-append s [] h e = (refl, tt)
IsUnambiguous-append s (x ∷ t) h e = elim (Bool-cases (same_name s.name x.name)) [
  | inl same ↦ absurd (cc (rw same at e))
  | inr d ↦ (
    lookup-append_other x.name s t (same_name_comm x.name s.name ∙ d) ∙ h.0,
    IsUnambiguous-append s t h.1 (rw d at e),
  )
]

same_name-eq : (a b : List ℕ) → same_name a b ≡ true → a ≡ b
unfolding same_name
same_name-eq [] [] h = refl
same_name-eq [] (y ∷ ys) h = absurd (cc h)
same_name-eq (x ∷ xs) [] h = absurd (cc h)
same_name-eq (x ∷ xs) (y ∷ ys) h =
    let head : x ≡ y = ground arith in
    let tail : xs ≡ ys = same_name-eq xs ys (ground arith) in cc (head, tail)

-- The tables before and after a call that returns `s` for `name`.
Served : List ℕ → Symbol → (before after : List Symbol) → Type 0
Served name s before after =
    IsTable after
    × (find name after ≡ some s)
    × ((other : List ℕ)
        → lookup other after ≡ (if same_name other name then some s else lookup other before))

Served-found :
    (name : List ℕ) (s : Symbol) (t : List Symbol)
    → IsTable t
    → lookup name t ≡ some s
    → Served name s t t
unfolding Served find
Served-found name s t ok e = (
  ok,
  e,
  λ other. elim (Bool-cases (same_name other name)) [
    | inl same ↦ let one : other ≡ name = same_name-eq other name same in rw same (rw one e)
    | inr d ↦ rw d refl
  ],
)

Served-added :
    (name : List ℕ) (s : Symbol) (t : List Symbol)
    → IsTable t
    → s.name ≡ name
    → s.id ≡ length t
    → lookup name t ≡ none
    → Served name s t (add s t)
unfolding Served find
Served-added name s t ok named numbered missing =
    let missing' : lookup s.name t ≡ none = rw named missing in
    rw (add-missing s t missing') (
      record {
        ids = IdsFrom-append 0 s t ok.ids (omega arith);
        names = IsUnambiguous-append s t ok.names missing';
      },
      rw (← named) (lookup-append_self s t missing'),
      λ other. elim (Bool-cases (same_name other name)) [
        | inl same ↦
            let one : other ≡ s.name = same_name-eq other name same ∙ sym named in
            rw same (rw one (lookup-append_self s t missing'))
        | inr d ↦ rw d (lookup-append_other other s t (ap (same_name other) named ∙ d))
      ],
    )

exists_lem :
    (name : List ℕ) (t : List Symbol) (o : Option Symbol)
    → lookup name t ≡ o
    → exists name t ≡ (elim o [ some s ↦ true | none ↦ false ])
unfolding exists
exists_lem name t o e = rw (exists, e) refl

-- A name that is there is found.
served_again :
    (name : List ℕ) (s : Symbol) (t : List Symbol) (section : Option ℕ)
    → lookup name t ≡ some s
    → find_or_create_and_find name section t ≡ some (s, t)
unfolding find_or_create_and_find find
served_again name s t section e = rw (exists_lem name t (some s) e, e) refl

-- The symbol that is made for a new name.
abbrev pub plain : List ℕ → ℕ → Option ℕ → Symbol
plain name id section = record {
  name = name;
  id = id;
  symbol_type = object_symbol;
  size = 0;
  symbol_visibility = local;
  common = false;
  common_size = 0;
  common_align = 0;
  section = section;
  equals = [];
}

created :
    (name : List ℕ) (t : List Symbol) (section : Option ℕ)
    → length name < max_symbol_length
    → lookup name t ≡ none
    → (s : Symbol) × (find_or_create_and_find name section t ≡ some (s, add s t))
      × (s.name ≡ name)
      × (s.id ≡ length t)
unfolding find_or_create_and_find new_symbol
created name t section short e = (
  plain name (length t) section,
  rw (exists_lem name t none e, lt→ltb (length name) max_symbol_length short) refl,
  refl,
  refl,
)

-- For a name below the length limit, and a table whose identifiers count from 0 on and whose names
-- differ, `FindOrCreateAndFind` returns a symbol and such a table again, in which `Find` returns the
-- symbol; a second call changes nothing, and all other names lead where they led.
pub find_or_create_and_find_lem :
    (t : List Symbol) (name : List ℕ) (section section' : Option ℕ)
    → IsTable t
    → length name < max_symbol_length
    → (s : Symbol) × (t' : List Symbol) × (find_or_create_and_find name section t ≡ some (s, t'))
      × IsTable t'
      × (find name t' ≡ some s)
      × (find_or_create_and_find name section' t' ≡ some (s, t'))
      × ((other : List ℕ)
          → lookup other t' ≡ (if same_name other name then some s else lookup other t))
unfolding Served find
find_or_create_and_find_lem t name section section' ok short = elim (Option-cases (lookup name t)) [
  | inl missing ↦
      let (s, e, named, numbered) = created name t section short missing in
      let (ok', there, others) = Served-added name s t ok named numbered missing in
      (s, add s t, e, ok', there, served_again name s (add s t) section' there, others)
  | inr (s, e) ↦
      let (ok', there, others) = Served-found name s t ok e in
      (s, t, served_again name s t section e, ok', there, served_again name s t section' e, others)
]
