-- ===== src/SymbolTable.antt =====
-- src/SymbolTable.h and src/SymbolTable.cc: the symbols of the unit by name. A name is the list of its
-- characters, a section its number. The `std::map` is the list of the symbols, each under its name; the
-- order by `strcmp` shows in iterations only.
pub mod Lookup
mod Examples
use mao.Prelude.{
  ℕ, zero, ◌+◌, Bool, true, false, ◌&&◌, List, [], ◌∷◌, Option, some, none, ltb, ◌==◌,
  if◌then◌else◌, length,
}
use mao.Prelude.Checked.{Checked, ◌>>=◌, ◌>>◌, mao_assert}

-- `SymbolVisibility` and `SymbolType` (src/irlink.h)
pub data SymbolVisibility : Type 0 where
  local global weak : SymbolVisibility

pub data SymbolType : Type 0 where
  object_symbol function_symbol notype_symbol file_symbol section_symbol tls_symbol common_symbol :
      SymbolType

pub record Symbol : Type 0 where
  pub name : List ℕ
  pub id : ℕ
  pub symbol_type : SymbolType
  pub size : ℕ
  pub symbol_visibility : SymbolVisibility
  pub common : Bool
  pub common_size : ℕ
  pub common_align : ℕ
  pub section : Option ℕ
  pub equals : List ℕ

-- `kMaxSymbolLength`
abbrev pub max_symbol_length : ℕ
max_symbol_length = 1024

-- The constructor of `Symbol`, with its default arguments
unfoldable pub new_symbol : List ℕ → ℕ → Option ℕ → Checked Symbol
new_symbol name id section = do
  mao_assert (ltb (length name) max_symbol_length)
  some (record {
    name = name;
    id = id;
    symbol_type = object_symbol;
    size = 0;
    symbol_visibility = local;
    common = false;
    common_size = 0;
    common_align = 0;
    section = section;
    equals = [];
  })

-- `strcmp` finds no difference.
unfoldable pub same_name : List ℕ → List ℕ → Bool
same_name [] [] = true
same_name [] (b ∷ bs) = false
same_name (a ∷ as') [] = false
same_name (a ∷ as') (b ∷ bs) = (a == b) && same_name as' bs

-- `table_.find`
unfoldable pub lookup : List ℕ → List Symbol → Option Symbol
lookup name [] = none
lookup name (s ∷ table) =
    let rest = lookup name table in if same_name name s.name then some s else rest

-- `Exists`
unfoldable pub exists : List ℕ → List Symbol → Bool
exists name table = elim (lookup name table) [ some s ↦ true | none ↦ false ]

-- `Add`: `table_[symbol->name()] = symbol`
unfoldable pub add : Symbol → List Symbol → List Symbol
add symbol [] = symbol ∷ []
add symbol (s ∷ table) =
    let rest = add symbol table in if same_name symbol.name s.name then symbol ∷ table else s ∷ rest

-- `Find`
unfoldable pub find : List ℕ → List Symbol → Checked Symbol
find name table = lookup name table

-- `FindOrCreateAndFind`: the symbol, and the table behind the call
unfoldable pub find_or_create_and_find :
    List ℕ → Option ℕ → List Symbol → Checked (Symbol × List Symbol)
find_or_create_and_find name section table =
    let created = new_symbol name (length table) section >>= λ s. some (s, add s table) in
    let found = find name table >>= λ s. some (s, table) in
    if exists name table then found else created
