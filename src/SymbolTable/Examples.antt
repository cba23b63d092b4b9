-- ===== src/SymbolTable/Examples.antt =====
-- A table with one symbol, asked for another name (src/SymbolTable.cc).
use mao.Prelude.{ℕ, ◌≡◌, refl, List, [], ◌∷◌, some, none, arith, if◌then◌else◌}
use mao.SymbolTable.{
  Symbol, find, find_or_create_and_find, same_name, lookup, exists, add, new_symbol,
}
use mao.SymbolTable.Lookup.{IsTable, plain, find_or_create_and_find_lem}

-- "main"
abbrev main_name : List ℕ
main_name = 109 ∷ 97 ∷ 105 ∷ 110 ∷ []

-- "mask"
abbrev mask_name : List ℕ
mask_name = 109 ∷ 97 ∷ 115 ∷ 107 ∷ []

abbrev table : List Symbol
table = plain main_name 0 none ∷ []

table-IsTable : IsTable table
unfolding lookup
table-IsTable = record { ids = (refl, tt); names = (refl, tt) }

mask_is_new :
    find_or_create_and_find mask_name none table
    ≡ some (plain mask_name 1 none, plain main_name 0 none ∷ plain mask_name 1 none ∷ [])
unfolding find_or_create_and_find find exists lookup same_name add new_symbol
mask_is_new = refl

find_or_create_and_find_lem_example :
    (s : Symbol) × (t' : List Symbol) × (find_or_create_and_find mask_name none table
      ≡ some (s, t'))
    × IsTable t'
    × (find mask_name t' ≡ some s)
    × (find_or_create_and_find mask_name (some 4) t' ≡ some (s, t'))
    × ((other : List ℕ)
        → lookup other t' ≡ (if same_name other mask_name then some s else lookup other table))
find_or_create_and_find_lem_example =
    find_or_create_and_find_lem table mask_name none (some 4) table-IsTable (omega arith)
