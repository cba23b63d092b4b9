-- ===== src/Relax/Directives.antt =====
-- src/MaoRelax.cc: the cases of the directives and of labels in `BuildFragments`, and its loop.
use mao.Prelude.Lists
use mao.Prelude.{
  ℕ, ◌+◌, ◌-◌, ◌*◌, ◌%◌, ◌^◌, Bool, true, false, not, ◌&&◌, ◌||◌, Option, none, some, List, [], ◌∷◌,
  ◌++◌, length, ltb, ◌==◌, if◌then◌else◌,
}
use mao.Prelude.Checked.{Checked, ◌>>=◌, ◌>>◌, mao_assert}
use mao.SymbolTable.{same_name, find}
use mao.Relax.Frag.{
  ExpressionS, o_multiply, is_constant, constant, make_expr_symbol, rs_space, Frag, new_fragment,
}
use mao.Relax.Entry.{
  Opcode, Operand, string_operand, int_operand, expression, MaoEntry, instruction_entry,
  directive_entry, label_entry, undefined_entry,
}
use mao.Relax.Build.{
  sign_extend, Place, Build, Context, set_size, add_fix, set_relax, frag_var, end_last_fragment,
  build_instruction, build_align, needs_bignum, to_bignum, build_leb_value,
}

-- An entry, as it is after its case, and the state
abbrev pub Step : Type 0
Step = Checked (MaoEntry × Build)

-- A case that changes no expression
abbrev pub keeping : MaoEntry → Checked Build → Step
keeping e m = m >>= λ b. some (e, b)

-- The cases of `.sleb128` and `.uleb128`
unfoldable pub build_leb128 : ℕ → Opcode → Bool → List Operand → Build → Step
build_leb128 entry op is_signed (expression e ∷ []) b =
    let changed : ExpressionS × Build =
      if needs_bignum is_signed e then to_bignum e b else (e, b) in
    keeping (directive_entry op (expression changed.0 ∷ []))
      (build_leb_value entry is_signed changed.0 changed.1)
build_leb128 entry op is_signed _ b = none

-- The cases of fixed size; `size` is no more than 8.
unfoldable pub build_data : ℕ → ℕ → Build → Build
build_data entry size b = set_size entry size (add_fix size b)

-- `StringSize`: the quotes go, a terminator may come.
unfoldable pub string_size : ℕ → Bool → List ℕ → ℕ
string_size multiplier null_terminate str =
    let chars : ℕ = (length str + 2 ^ 64 - 2) % 2 ^ 64 in
    let terminator : ℕ = if null_terminate then 1 else 0 in
    multiplier * ((chars + terminator) % 2 ^ 64) % 2 ^ 64 % 2 ^ 32

-- `HandleString`
unfoldable pub handle_string : ℕ → ℕ → Bool → List Operand → Build → Checked Build
handle_string entry multiplier null_terminate (string_operand str ∷ []) b =
    let size = string_size multiplier null_terminate str in
    some (add_fix (sign_extend size) (set_size entry size b))
handle_string entry multiplier null_terminate _ b = none

-- `increment` of `HandleSpace`, an `int`
abbrev pub increment : ℕ → ExpressionS → ℕ
increment mult size = size.x_add_number * (if mult == 0 then 1 else mult) % 2 ^ 64 % 2 ^ 32

-- `HandleSpace`
unfoldable pub handle_space : ℕ → ℕ → List Operand → Build → Checked Build
handle_space entry mult (expression size ∷ fill ∷ []) b =
    let bytes = increment mult size in
    let fixed = (do
      mao_assert (ltb 0 bytes && ltb bytes (2 ^ 31))
      some (set_size entry bytes (add_fix bytes b))) in
    let variable = (do
      mao_assert ((mult == 0) || (mult == 1))
      some (
          frag_var rs_space 1 0 (make_expr_symbol size) 0 none
            (set_relax entry (set_size entry 0 b)))) in
    if is_constant size then fixed else variable
handle_space entry mult _ b = none

-- The expression that `HandleFill` puts in place of its repeat operand where the size is 1
unfoldable pub multiplied : ℕ → ExpressionS → ExpressionS
multiplied size repeat_exp = record repeat_exp {
  x_op = o_multiply;
  x_add_symbol = make_expr_symbol repeat_exp;
  x_op_symbol = make_expr_symbol (constant size);
  x_add_number = 0;
}

-- `HandleFill`
unfoldable pub handle_fill : ℕ → List Operand → Build → Step
handle_fill entry (expression repeat_exp ∷ int_operand size ∷ value ∷ []) b =
    let total = size * repeat_exp.x_add_number % 2 ^ 64 in
    let fixed : Build = set_size entry total (add_fix total b) in
    let repeat' : ExpressionS =
      if not (size == 1) then repeat_exp else multiplied size repeat_exp in
    let variable : Build =
      frag_var rs_space 1 0 (make_expr_symbol repeat') 0 none
        (set_relax entry (set_size entry 0 b)) in
    let operands : ExpressionS → List Operand =
      (λ e. expression e ∷ int_operand size ∷ value ∷ []) in
    (do
      mao_assert (ltb 0 size && ltb size (2 ^ 31))
      if is_constant repeat_exp
          then some (directive_entry Opcode.fill (operands repeat_exp), fixed)
          else some (directive_entry Opcode.fill (operands repeat'), variable))
handle_fill entry _ b = none

-- The prefix `0x:`, and the sizes of `SizeOfFloat` for it and for the others
abbrev pub is_hexadecimal : List ℕ → Bool
is_hexadecimal str = same_name (Lists.take 3 str) (48 ∷ 120 ∷ 58 ∷ [])

-- `SizeOfFloat`: `size` is that of the hexadecimal form, `precision` the number of littlenums of the other.
unfoldable pub size_of_float : ℕ → ℕ → List Operand → Checked ℕ
size_of_float size precision (string_operand str ∷ []) =
    some (if is_hexadecimal str then size else precision * 2)
size_of_float size precision _ = none

-- The cases of `.dc.d`, `.dc.s` and `.dc.x`
unfoldable pub build_float : ℕ → ℕ → ℕ → List Operand → Build → Checked Build
build_float entry size precision operands b =
    size_of_float size precision operands >>= λ n. some (set_size entry n b)

-- The `switch` of `BuildFragments` over the opcodes
unfoldable pub build_directive : ℕ → Opcode → List Operand → Build → Step
build_directive entry op operands b =
    let e = directive_entry op operands in
    let bytes : ℕ → Step = (λ n. some (e, build_data entry n b)) in
    let string : ℕ → Bool → Step =
      (λ n terminate. keeping e (handle_string entry n terminate operands b)) in
    let space : ℕ → Step = (λ n. keeping e (handle_space entry n operands b)) in
    let float : ℕ → ℕ → Step =
      (λ n precision. keeping e (build_float entry n precision operands b)) in
    let none_at_all : Step = some (e, set_size entry 0 b) in
    elim op [
      | Opcode.p2align ↦ keeping e (build_align entry operands b)
      | Opcode.p2alignw ↦ keeping e (build_align entry operands b)
      | Opcode.p2alignl ↦ keeping e (build_align entry operands b)
      | Opcode.sleb128 ↦ build_leb128 entry Opcode.sleb128 true operands b
      | Opcode.uleb128 ↦ build_leb128 entry Opcode.uleb128 false operands b
      | Opcode.byte ↦ bytes 1
      | Opcode.word ↦ bytes 2
      | Opcode.rva ↦ bytes 4
      | Opcode.long ↦ bytes 4
      | Opcode.quad ↦ bytes 8
      | Opcode.ascii ↦ string 1 false
      | Opcode.string8 ↦ string 1 true
      | Opcode.string16 ↦ string 2 true
      | Opcode.string32 ↦ string 4 true
      | Opcode.string64 ↦ string 8 true
      | Opcode.space ↦ space 0
      | Opcode.ds_b ↦ space 1
      | Opcode.ds_w ↦ space 2
      | Opcode.ds_l ↦ space 4
      | Opcode.ds_d ↦ space 8
      | Opcode.ds_x ↦ space 12
      | Opcode.dc_d ↦ float 8 4
      | Opcode.dc_s ↦ float 4 2
      | Opcode.dc_x ↦ float 12 5
      | Opcode.fill ↦ handle_fill entry operands b
      | Opcode.org ↦ none
      | Opcode.struct ↦ none
      | Opcode.incbin ↦ none
      | Opcode.subsection ↦ none
      | Opcode.eqv ↦ none
      | Opcode.num_opcodes ↦ none
      | _ ↦ none_at_all
    ]

-- `UpdateSymbol`
unfoldable pub update_symbol : List ℕ → Build → Checked Build
update_symbol name b =
    let place : Place = record { frag = length b.ended; value = b.frag.fr_fix } in
    b.symbols name >>= λ _.
    some (record b { symbols = λ n. if same_name n name then some place else b.symbols n })

unfoldable pub update_symbols : List (List ℕ) → Build → Checked Build
update_symbols [] b = some b
update_symbols (name ∷ names) b = update_symbol name b >>= update_symbols names

-- The names of the symbols at some addresses
unfoldable pub names_at : (ℕ → List ℕ) → List ℕ → List (List ℕ)
names_at name_at [] = []
names_at name_at (s ∷ symbols) = name_at s ∷ names_at name_at symbols

-- The case of a label
unfoldable pub build_label : Context → List ℕ → Bool → Build → Checked Build
build_label c name from_assembly b =
    let update = (do
      b' ← update_symbol name b
      s ← find name c.symbol_table
      update_symbols (names_at c.name_at s.equals) b') in
    if from_assembly then update else some b

-- The `switch` of `BuildFragments` over the types of entries
unfoldable pub build_entry : Context → ℕ → MaoEntry → Build → Step
build_entry c entry (instruction_entry i) b =
    keeping (instruction_entry i) (build_instruction c.cpui386 entry i b)
build_entry c entry (directive_entry op operands) b = build_directive entry op operands b
build_entry c entry (label_entry name from_assembly) b =
    keeping (label_entry name from_assembly) (build_label c name from_assembly b)
build_entry c entry undefined_entry b = none

-- The loop of `BuildFragments` over the entries of the section, from place `entry` on
unfoldable pub build_entries : Context → ℕ → List MaoEntry → Build → Checked Build
build_entries c entry [] b = some b
build_entries c entry (e ∷ entries) b = do
  (e', b') ← build_entry c entry e b
  build_entries c (entry + 1) entries (record b' { section = b'.section ++ e' ∷ [] })

-- The state before the loop: the symbols that the assembler knows, and its `generic_bignum`
unfoldable pub new_build : (List ℕ → Option Place) → List ℕ → Build
new_build symbols generic_bignum = record {
  ended = [];
  frag = new_fragment;
  size_map = λ _. none;
  relax_map = λ _. none;
  symbols = symbols;
  generic_bignum = generic_bignum;
  section = [];
}

-- `BuildFragments`: the state behind the loop, and the chain of fragments
unfoldable pub build_fragments : Context → List MaoEntry → Build → Checked (List Frag × Build)
build_fragments c entries b = build_entries c 0 entries b >>= λ b'. some (end_last_fragment b', b')
