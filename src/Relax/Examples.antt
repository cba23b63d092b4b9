-- ===== src/Relax/Examples.antt =====
-- A section with a jump, data and two labels, relaxed by a `relax_segment` that lays the fragments out one
-- behind the other, with one byte for each variable part (src/MaoRelax.cc).
use mao.Prelude.{
  ℕ, zero, suc, ◌+◌, ◌%◌, ◌^◌, ◌≡◌, refl, true, false, Option, none, some, List, [], ◌∷◌, ◌++◌,
  arith, length, get_or, replicate,
}
use mao.SymbolTable.{Symbol, local, object_symbol, same_name, lookup, find}
use mao.InstructionSize.{code_64bit, size_of_instruction, size_of_branch}
use mao.Relax.Frag.{Frag, new_fragment, o_symbol, named, null}
use mao.Relax.Entry.{
  Opcode, InstructionEntry, MaoEntry, instruction_entry, directive_entry, label_entry,
}
use mao.Relax.Build.{
  Place, Build, Context, build_instruction, end_fragment_instruction, frag_var, jump_subtype,
}
use mao.Relax.Directives.{
  build_data, build_directive, update_symbol, update_symbols, names_at, build_label, build_entry,
  build_entries, new_build,
}
use mao.Relax.Effect.{is_float}
use mao.Relax.Labels.{is_float_entry}
use mao.Relax.Ledger.{Ledger, has_float}
use mao.Relax.Chain.{IsRelaxing, opcode_at}
use mao.Relax.Offsets.{address_of}
use mao.Relax.Result.{build_entries-Ledger, go-offset_map, go-label}
use mao.Relax.Opcodes.{go-opcodes}
use mao.Relax.Jumps.{InstructionBuilt, build_instruction_lem}
use mao.Relax.Go.{Relaxing, Relaxed, go}

unfoldable lay_out : ℕ → List Frag → List Frag
lay_out address [] = []
lay_out address (f ∷ fs) = record f { fr_address = address } ∷ lay_out (address + f.fr_fix + 1) fs

abbrev relax : Relaxing
relax pass fs opcodes = (lay_out 0 fs, opcodes, false)

length-lay_out : (address : ℕ) (fs : List Frag) → length (lay_out address fs) ≡ length fs
unfolding lay_out
length-lay_out address [] = refl
length-lay_out address (f ∷ fs) = omega (arith, length-lay_out (address + f.fr_fix + 1) fs)

opcode_at-lay_out :
    (address : ℕ) (fs : List Frag) (i : ℕ) → opcode_at (lay_out address fs) i ≡ opcode_at fs i
unfolding lay_out
opcode_at-lay_out address [] i = refl
opcode_at-lay_out address (f ∷ fs) zero = refl
opcode_at-lay_out address (f ∷ fs) (suc i) = opcode_at-lay_out (address + f.fr_fix + 1) fs i

starts-lay_out : (fs : List Frag) → (get_or (lay_out 0 fs) 0 new_fragment).fr_address ≡ 0
unfolding lay_out
starts-lay_out [] = refl
starts-lay_out (f ∷ fs) = refl

laws : IsRelaxing relax 0
laws = record {
  same_chain = λ pass fs opcodes. length-lay_out 0 fs;
  same_opcodes = λ pass fs opcodes. opcode_at-lay_out 0 fs;
  elsewhere = λ pass fs opcodes j h. refl;
  first_address = λ pass fs opcodes. starts-lay_out fs;
  settles = λ pass fs opcodes h. refl;
}

abbrev a_symbol : List ℕ → Symbol
a_symbol name = record {
  name = name;
  id = 0;
  symbol_type = object_symbol;
  size = 0;
  symbol_visibility = local;
  common = false;
  common_size = 0;
  common_align = 0;
  section = none;
  equals = [];
}

abbrev context : Context
context = record {
  cpui386 = true;
  symbol_table = a_symbol (97 ∷ []) ∷ a_symbol (98 ∷ []) ∷ [];
  name_at = λ _. [];
}

-- `a: jmp b; .long 0; b: .byte 0`
abbrev jmp : InstructionEntry
jmp = record {
  instruction = record {
    prefix = replicate 7 0;
    jump = true;
    jumpbyte = false;
    jumpdword = false;
    jumpintersegment = false;
    has_vex = false;
    modrm = false;
    base_opcode = 0xeb;
    opcode_length = 1;
    vex_length = 0;
    types = [];
    disp_operands = 1;
    imm_operands = 0;
    regmem = 0;
    mode = 0;
    base_reg = none;
  };
  flag = code_64bit;
  reloc = 0;
  disps = record {
    x_add_symbol = named (98 ∷ []);
    x_op_symbol = null;
    x_add_number = 0;
    x_op = o_symbol;
    x_unsigned = false;
  };
}

abbrev before : List MaoEntry
before = label_entry (97 ∷ []) true ∷ instruction_entry jmp ∷ directive_entry Opcode.long [] ∷ []

abbrev after : List MaoEntry
after = directive_entry Opcode.byte [] ∷ []

abbrev known : List ℕ → Option Place
known name = some (record { frag = 0; value = 0 })

abbrev state_of : Option Build → Build
state_of (some b) = b
state_of none = new_build known []

abbrev reached : Build
reached = state_of (build_entries context 0 before (new_build known []))

abbrev at_b : Build
at_b =
    state_of
      (build_entries context 0 (before ++ label_entry (98 ∷ []) true ∷ []) (new_build known []))

abbrev at_end : Build
at_end =
    state_of
      (build_entries context 0 (before ++ label_entry (98 ∷ []) true ∷ after) (new_build known []))

go-label_example :
    (r : Relaxed) × (go relax 1 context
        (before ++ label_entry (98 ∷ []) true ∷ after)
        (new_build known [])
        (λ _. 0xeb)
      ≡ some r)
    × (r.offset_map 3 ≡ some ((address_of r 1 + 4) % 2 ^ 32))
unfolding build_entries build_entry build_directive build_label update_symbol update_symbols
    names_at new_build build_instruction size_of_instruction size_of_branch end_fragment_instruction
    frag_var jump_subtype build_data find lookup same_name has_float is_float_entry is_float
go-label_example =
    go-label relax 0 laws 1 (omega arith) context before (98 ∷ []) after known [] (λ _. 0xeb) at_b
      at_end (record { frag = 1; value = 4 }) refl refl refl refl

go-offset_map_example :
    (r : Relaxed) × (go relax 1 context
        (before ++ label_entry (98 ∷ []) true ∷ after)
        (new_build known [])
        (λ _. 0xeb)
      ≡ some r)
    × (r.offset_map 3 ≡ some ((address_of r 1 + 4) % 2 ^ 32))
unfolding build_entries build_entry build_directive build_label update_symbol update_symbols
    names_at new_build build_instruction size_of_instruction size_of_branch end_fragment_instruction
    frag_var jump_subtype build_data find lookup same_name has_float is_float_entry is_float
go-offset_map_example =
    go-offset_map relax 0 laws 1 (omega arith) context before (label_entry (98 ∷ []) true) after
      known [] (λ _. 0xeb) reached at_end refl refl refl

build_entries-Ledger_example :
    Ledger (0 + length (before ++ label_entry (98 ∷ []) true ∷ after)) at_end
unfolding build_entries build_entry build_directive build_label update_symbol update_symbols
    names_at new_build build_instruction size_of_instruction size_of_branch end_fragment_instruction
    frag_var jump_subtype build_data find lookup same_name has_float is_float_entry is_float
build_entries-Ledger_example =
    build_entries-Ledger context (before ++ label_entry (98 ∷ []) true ∷ after) known [] at_end refl
      refl

ran :
    (r : Relaxed) × (go relax 1 context
        (before ++ label_entry (98 ∷ []) true ∷ after)
        (new_build known [])
        (λ _. 0xeb)
      ≡ some r)
    × (r.offset_map 3 ≡ some ((address_of r 1 + 4) % 2 ^ 32))
unfolding build_entries build_entry build_directive build_label update_symbol update_symbols
    names_at new_build build_instruction size_of_instruction size_of_branch end_fragment_instruction
    frag_var jump_subtype build_data find lookup same_name has_float is_float_entry is_float
ran =
    go-offset_map relax 0 laws 1 (omega arith) context before (label_entry (98 ∷ []) true) after
      known [] (λ _. 0xeb) reached at_end refl refl refl

go-opcodes_example : ran.0.opcodes 1 ≡ 0xeb
go-opcodes_example =
    go-opcodes relax 0 laws 1 (omega arith) context (before ++ label_entry (98 ∷ []) true ∷ after)
      (new_build known []) (λ _. 0xeb) ran.0 ran.1 1

-- In 64-bit code without a prefix the jump starts in the first state of the table.
build_instruction_lem_example :
    (b : Build) × (build_instruction true 7 jmp (new_build known []) ≡ some b)
    × InstructionBuilt true 7 jmp 1 true (new_build known []) b
unfolding size_of_instruction size_of_branch new_build
build_instruction_lem_example = build_instruction_lem true 7 jmp (new_build known []) 1 true refl
