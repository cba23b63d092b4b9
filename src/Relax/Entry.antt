-- ===== src/Relax/Entry.antt =====
-- The entries of a section, as the relaxer reads them (src/MaoEntry.h).
use mao.Prelude.{ℕ, Bool, List}
use mao.InstructionSize.{Insn, FlagCode}
use mao.Relax.Frag.{ExpressionS}

-- `DirectiveEntry::Opcode`
pub data Opcode : Type 0 where
  file section subsection global local weak type size byte word long quad rva ascii string8 : Opcode
  string16 string32 string64 sleb128 uleb128 p2align p2alignw p2alignl space ds_b ds_w ds_l : Opcode
  ds_d ds_x comm ident set equiv eqv weakref arch linefile loc allow_index_reg : Opcode
  disallow_index_reg org code16 code16gcc code32 code64 dc_d dc_s dc_x hidden fill struct : Opcode
  incbin symver loc_mark_labels cfi_startproc cfi_endproc cfi_def_cfa cfi_def_cfa_register : Opcode
  cfi_def_cfa_offset cfi_adjust_cfa_offset cfi_offset cfi_rel_offset cfi_register : Opcode
  cfi_return_column cfi_restore cfi_undefined cfi_same_value cfi_remember_state : Opcode
  cfi_restore_state cfi_window_save cfi_escape cfi_signal_frame cfi_personality cfi_lsda : Opcode
  cfi_val_encoded_addr num_opcodes : Opcode

-- `DirectiveEntry::Operand`; of a symbol and of an operand with a relocation the relaxer reads nothing.
pub data Operand : Type 0 where
  no_operand empty_operand symbol_operand expression_reloc : Operand
  string_operand : List ℕ → Operand
  int_operand : ℕ → Operand
  expression : ExpressionS → Operand

-- An `InstructionEntry`: the instruction, its mode, the first relocation, and the displacement of its
-- first operand
pub record InstructionEntry : Type 0 where
  pub instruction : Insn
  pub flag : FlagCode
  pub reloc : ℕ
  pub disps : ExpressionS

-- A `MaoEntry`. The address of an entry is its place in the section.
pub data MaoEntry : Type 0 where
  instruction_entry : InstructionEntry → MaoEntry
  directive_entry : Opcode → List Operand → MaoEntry
  label_entry : List ℕ → Bool → MaoEntry
  undefined_entry : MaoEntry
