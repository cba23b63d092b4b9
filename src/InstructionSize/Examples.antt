-- ===== src/InstructionSize/Examples.antt =====
-- The sizes of three instructions (src/Maoi386Size.cc).
use mao.Prelude.{
  ◌+◌, ◌≤◌, ◌≡◌, refl, ◌↔◌, true, false, not, ◌&&◌, [], ◌∷◌, some, none, arith, replicate,
}
use mao.Prelude.Checked.{◌>>=◌}
use mao.InstructionSize.{
  OperandType, Insn, code_32bit, code_64bit, operand_type_check, merge_size_pair, size_of_branch,
  disp_loop, size_of_disp, imm_loop, size_of_imm, prefix_loop, size_of_prefixes, size_of_modrm,
  size_of_normal, size_of_instruction,
}
use mao.InstructionSize.Spec.{
  disp_width, imm_width, total, number_of_disps, IsCounted, size_of_instruction-total,
  size_of_instruction-jump,
}
use mao.InstructionSize.Bounds.{
  number_of_imms, number_of_prefixes, modrm_bytes, front_bytes, more_bytes, is_stray,
  size_of_instruction_bounds, size_of_instruction_iff,
}

abbrev no_type : OperandType
no_type = record {
  reg8 = false;
  reg16 = false;
  reg32 = false;
  reg64 = false;
  imm8 = false;
  imm8s = false;
  imm16 = false;
  imm32 = false;
  imm32s = false;
  imm64 = false;
  disp8 = false;
  disp16 = false;
  disp32 = false;
  disp32s = false;
  disp64 = false;
  baseindex = false;
}

-- `movl $1000, 8(%rsp,%r12)`: REX prefix, opcode, modrm, sib, one byte and four.
abbrev store : Insn
store = record {
  prefix = 0 ∷ 0 ∷ 0 ∷ 0 ∷ 0 ∷ 0 ∷ 66 ∷ [];
  jump = false;
  jumpbyte = false;
  jumpdword = false;
  jumpintersegment = false;
  has_vex = false;
  modrm = true;
  base_opcode = 0xc7;
  opcode_length = 1;
  vex_length = 0;
  types = record no_type { imm32 = true } ∷ record no_type { disp8 = true; baseindex = true } ∷ [];
  disp_operands = 1;
  imm_operands = 1;
  regmem = 4;
  mode = 1;
  base_reg = some (record no_type { reg64 = true });
}

-- `jmp`, and an instruction with a VEX prefix beside a LOCK prefix
abbrev jmp : Insn
jmp = record store { jump = true; prefix = replicate 7 0; base_opcode = 0xeb }

abbrev stray : Insn
stray = record store { has_vex = true; prefix = 0 ∷ 0 ∷ 0 ∷ 0 ∷ 0 ∷ 240 ∷ 0 ∷ []; vex_length = 3 }

store_size : size_of_instruction code_64bit store ≡ some (9, false)
unfolding size_of_instruction size_of_normal size_of_prefixes prefix_loop size_of_modrm size_of_disp
    disp_loop size_of_imm imm_loop merge_size_pair operand_type_check
store_size = refl

jmp_size : size_of_instruction code_64bit jmp ≡ some (1, true)
unfolding size_of_instruction size_of_branch
jmp_size = refl

store-IsCounted : IsCounted store
unfolding number_of_disps total imm_width operand_type_check
store-IsCounted = record { one_disp = omega arith; no_disps = refl; no_imms = refl }

size_of_instruction-total_example : size_of_instruction code_64bit store ≡ (
    size_of_prefixes store >>= λ prefixes. some (
      prefixes
          + 1
          + size_of_modrm store
          + total disp_width store.types
          + total imm_width store.types,
      false,
    ))
size_of_instruction-total_example = size_of_instruction-total code_64bit store store-IsCounted refl

size_of_instruction-jump_example : true ≡ jmp.jump
size_of_instruction-jump_example = size_of_instruction-jump code_64bit jmp 1 true jmp_size

-- REX prefix, opcode, modrm and sib; up to eight bytes for the displacement, and for the value
size_of_instruction_bounds_example : (4 ≤ 9) × (9 ≤ 4 + 16)
unfolding front_bytes more_bytes number_of_prefixes number_of_imms number_of_disps modrm_bytes
    operand_type_check
size_of_instruction_bounds_example = size_of_instruction_bounds code_64bit store 9 false store_size

size_of_instruction_iff_example :
    (size_of_instruction code_32bit stray ≡ none)
    ↔ ((not false && (true && is_stray 0 stray.prefix)) ≡ true)
size_of_instruction_iff_example = size_of_instruction_iff code_32bit stray

-- Of a two-byte and a four-byte displacement, only the second is counted.
forgotten :
    size_of_disp (record store {
      types = record no_type { disp16 = true } ∷ record no_type { disp32 = true } ∷ [];
    })
    ≡ (4, false)
unfolding size_of_disp disp_loop operand_type_check
forgotten = refl
