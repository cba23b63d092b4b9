-- ===== src/Relax/Build.antt =====
-- src/MaoRelax.cc: the state of `BuildFragments`, and the functions that it calls for one entry.
use mao.Prelude.Lists
use mao.Prelude.{
  ℕ, ◌+◌, ◌-◌, ◌%◌, ◌^◌, bit_or, Bool, not, ◌&&◌, ◌||◌, Option, none, some, List, [], ◌∷◌, ◌++◌,
  length, ltb, ◌==◌, if◌then◌else◌,
}
use mao.Prelude.Checked.{Checked, ◌>>=◌, ◌>>◌, mao_assert}
use mao.SymbolTable.{Symbol}
use mao.InstructionSize.{is_16bit, has_prefix, data_prefix, size_of_instruction}
use mao.JumpRelax.{uncond_jump, cond_jump, cond_jump86, small, code16, encode_relax_state}
use mao.Leb128.{sizeof_leb128}
use mao.Leb128.Big.Sleb.{output_big_leb128, convert_to_bignum}
use mao.Relax.Frag.{
  SymbolS, null, o_big, ExpressionS, is_constant, is_symbol, is_big, make_expr_symbol, RelaxStateT,
  rs_align_code, rs_leb128, rs_machine_dependent, Frag, new_fragment,
}
use mao.Relax.Entry.{Operand, int_operand, InstructionEntry, MaoEntry}

-- `int` as a pattern of 32 bits, in 64 bits
unfoldable pub sign_extend : ℕ → ℕ
sign_extend n = if ltb n (2 ^ 31) then n else n + (2 ^ 64 - 2 ^ 32)

-- What `UpdateSymbol` stores in a symbol of the assembler: the place of a fragment, and a value
pub record Place : Type 0 where
  pub frag : ℕ
  pub value : ℕ

-- `MaoEntryIntMap` and `FragToEntryMap`; an `int` is a pattern of 32 bits.
abbrev pub EntryMap : Type 0
EntryMap = ℕ → Option ℕ

abbrev pub put : EntryMap → ℕ → ℕ → EntryMap
put m k v j = if j == k then some v else m j

-- `operator[]`: a missing key counts as 0, and is put in.
abbrev pub value_or_zero : Option ℕ → ℕ
value_or_zero (some v) = v
value_or_zero none = 0

abbrev pub size_at : EntryMap → ℕ → ℕ
size_at m k = value_or_zero (m k)

-- What `BuildFragments` changes: the fragments that are ended and the one it fills, the maps, the symbols
-- of the assembler (`none` for a name it does not know), `generic_bignum`, and the entries walked over,
-- whose expressions it may change.
pub record Build : Type 0 where
  pub ended : List Frag
  pub frag : Frag
  pub size_map : EntryMap
  pub relax_map : EntryMap
  pub symbols : List ℕ → Option Place
  pub generic_bignum : List ℕ
  pub section : List MaoEntry

-- What it reads: the flag of the processor, the symbol table of the unit, and the names of symbols by
-- their addresses.
pub record Context : Type 0 where
  pub cpui386 : Bool
  pub symbol_table : List Symbol
  pub name_at : ℕ → List ℕ

-- `(*size_map)[entry] = size`, with the entry that the loop is at
abbrev pub set_size : ℕ → ℕ → Build → Build
set_size entry size b = record b { size_map = put b.size_map entry (size % 2 ^ 32) }

-- `frag->fr_fix += size`
abbrev pub add_fix : ℕ → Build → Build
add_fix size b = record b { frag = record b.frag { fr_fix = (b.frag.fr_fix + size) % 2 ^ 64 } }

-- `(*relax_map)[frag] = entry`
abbrev pub set_relax : ℕ → Build → Build
set_relax entry b = record b { relax_map = put b.relax_map (length b.ended) entry }

-- The fields that `FragVar` sets. `FragInitOther` sets nothing here.
abbrev pub var_fields : RelaxStateT → ℕ → ℕ → SymbolS → ℕ → Option ℕ → Frag → Frag
var_fields type var subtype symbol offset opcode f = record f {
  fr_var = var;
  fr_type = type;
  fr_subtype = subtype;
  fr_symbol = symbol;
  fr_offset = offset;
  fr_opcode = opcode;
}

-- `FragVar` with a new fragment behind
unfoldable pub frag_var : RelaxStateT → ℕ → ℕ → SymbolS → ℕ → Option ℕ → Build → Build
frag_var type var subtype symbol offset opcode b = record b {
  ended = b.ended ++ var_fields type var subtype symbol offset opcode b.frag ∷ [];
  frag = new_fragment;
}

-- `JUMP_PC_RELATIVE`, the opcode of the architecture for a short `jmp`
abbrev pub jump_pc_relative : ℕ
jump_pc_relative = 0xeb

-- `subtype` in `EndFragmentInstruction`
unfoldable pub jump_subtype : Bool → InstructionEntry → ℕ
jump_subtype cpui386 i =
    let width : ℕ = if is_16bit i.flag then code16 else 0 in
    let width : ℕ = if has_prefix i.instruction data_prefix then code16 - width else width in
    let type : ℕ =
      (if i.instruction.base_opcode == jump_pc_relative
        then uncond_jump
        else if cpui386
        then cond_jump
        else cond_jump86) in
    bit_or (encode_relax_state type small) width

-- `EndFragmentInstruction`
unfoldable pub end_fragment_instruction : Bool → ℕ → InstructionEntry → Build → Checked Build
end_fragment_instruction cpui386 entry i b = do
  mao_assert i.instruction.jump
  let simple = is_constant i.disps || is_symbol i.disps
  let sym : SymbolS = if simple then i.disps.x_add_symbol else make_expr_symbol i.disps
  let off : ℕ = if simple then i.disps.x_add_number else 0
  some (frag_var rs_machine_dependent i.reloc (jump_subtype cpui386 i) sym off (some entry) b)

-- `EndFragmentAlign`; both of its states are `rs_align_code`.
unfoldable pub end_fragment_align : ℕ → ℕ → Build → Build
end_fragment_align alignment max b =
    frag_var rs_align_code 1 max null (sign_extend alignment) none b

-- The same with no new fragment behind, which ends the chain
abbrev pub last_fragment : Build → Frag
last_fragment b = var_fields rs_align_code 1 0 null 0 none b.frag

unfoldable pub end_last_fragment : Build → List Frag
end_last_fragment b = b.ended ++ last_fragment b ∷ []

-- `EndFragmentLeb128`
unfoldable pub end_fragment_leb128 : ExpressionS → Bool → Build → Build
end_fragment_leb128 value is_signed b =
    frag_var rs_leb128 0 (if is_signed then 1 else 0) (make_expr_symbol value) 0 none b

-- The case of an instruction in `BuildFragments`
unfoldable pub build_instruction : Bool → ℕ → InstructionEntry → Build → Checked Build
build_instruction cpui386 entry i b = do
  (size, variable) ← size_of_instruction i.flag i.instruction
  let sized = set_size entry size (add_fix size b)
  if variable then end_fragment_instruction cpui386 entry i (set_relax entry sized) else some sized

-- The cases of `.p2align`
unfoldable pub build_align : ℕ → List Operand → Build → Checked Build
build_align entry (int_operand alignment ∷ fill ∷ int_operand max ∷ []) b =
    some (end_fragment_align alignment max (set_relax entry (set_size entry 0 b)))
build_align entry _ b = none

-- The cases of `.sleb128` and `.uleb128`: the value, as `convert_to_bignum` may change it
abbrev pub needs_bignum : Bool → ExpressionS → Bool
needs_bignum is_signed e =
    let negative = not (ltb e.x_add_number (2 ^ 63)) in
    is_constant e && is_signed && ((negative && e.x_unsigned) || (not negative && not e.x_unsigned))

unfoldable pub to_bignum : ExpressionS → Build → ExpressionS × Build
to_bignum e b =
    let digits = convert_to_bignum e.x_add_number e.x_unsigned in
    (
      record e { x_op = o_big; x_add_number = length digits },
      record b { generic_bignum = digits ++ Lists.drop (length digits) b.generic_bignum },
    )

-- A size that is known goes into the fragment and into the map.
abbrev pub known_size : ℕ → Option ℕ → Build → Checked Build
known_size entry size b = size >>= λ n. some (set_size entry n (add_fix n b))

unfoldable pub build_leb_value : ℕ → Bool → ExpressionS → Build → Checked Build
build_leb_value entry is_signed e b =
    if is_constant e
    then known_size entry (sizeof_leb128 e.x_add_number is_signed) b
    else if is_big e
    then known_size entry
        (output_big_leb128 (Lists.take e.x_add_number b.generic_bignum) is_signed >>= λ bytes.
          some (length bytes))
        b
    else some (end_fragment_leb128 e is_signed (set_relax entry (set_size entry 0 b)))
