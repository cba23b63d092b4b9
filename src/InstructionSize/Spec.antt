-- ===== src/InstructionSize/Spec.antt =====
-- What `SizeOfInstruction` (src/Maoi386Size.cc) computes, against the parts of an instruction.
use mao.Prelude.{
  ℕ, ◌+◌, ◌≤◌, ◌≡◌, refl, ◌∙◌, inl, inr, Bool, false, ◌||◌, List, [], ◌∷◌, some, arith, ◌==◌,
  if◌then◌else◌, Bool-cases, Option-cases,
}
use mao.Prelude.Checked.{◌>>=◌}
use mao.InstructionSize.{
  OperandType, Insn, FlagCode, disp, imm, operand_type_check, count_if, merge_size_pair,
  size_of_branch, size_of_jump, size_of_interseg_jump, disp_loop, size_of_disp, imm_loop,
  size_of_imm, size_of_prefixes, size_of_modrm, size_of_normal, size_of_instruction,
}

-- The bytes of a displacement, and of an immediate operand.
unfoldable pub disp_width : OperandType → ℕ
disp_width t =
    if operand_type_check t disp
    then (if t.disp64 then 8 else if t.disp8 then 1 else if t.disp16 then 2 else 4)
    else 0

unfoldable pub imm_width : OperandType → ℕ
imm_width t =
    if operand_type_check t imm
    then (if t.imm64 then 8 else if t.imm8 || t.imm8s then 1 else if t.imm16 then 2 else 4)
    else 0

unfoldable pub total : (OperandType → ℕ) → List OperandType → ℕ
total width [] = 0
total width (t ∷ types) = width t + total width types

unfoldable pub number_of_disps : List OperandType → ℕ
number_of_disps [] = 0
number_of_disps (t ∷ types) = count_if (operand_type_check t disp) + number_of_disps types

imm_loop-total :
    (types : List OperandType) (size : ℕ) → imm_loop types size ≡ size + total imm_width types
unfolding imm_loop total imm_width
imm_loop-total [] size = omega arith
imm_loop-total (t ∷ types) size =
    let step : ℕ =
      (if operand_type_check t imm
        then (if t.imm64
            then size + 8
            else if t.imm8 || t.imm8s
            then size + 1
            else if t.imm16
            then size + 2
            else size + 4)
        else size) in
    ground (arith, imm_loop-total types step)

-- Behind the last displacement the loop of `SizeOfDisp` keeps its size.
disp_loop_none :
    (types : List OperandType) (size : ℕ) → number_of_disps types ≡ 0 → disp_loop types size ≡ size
unfolding disp_loop number_of_disps
disp_loop_none [] size h = refl
disp_loop_none (t ∷ types) size h = ground (arith, disp_loop_none types size)

total_none : (types : List OperandType) → number_of_disps types ≡ 0 → total disp_width types ≡ 0
unfolding total number_of_disps disp_width
total_none [] h = refl
total_none (t ∷ types) h = ground (arith, total_none types)

pub disp_loop-total :
    (types : List OperandType)
    → number_of_disps types ≤ 1
    → disp_loop types 0 ≡ total disp_width types
unfolding disp_loop total number_of_disps disp_width
disp_loop-total [] h = refl
disp_loop-total (t ∷ types) h = elim (Bool-cases (operand_type_check t disp)) [
  | inl e ↦
      let last : number_of_disps types ≡ 0 = ground (arith, e) in
      rw e (rw (disp_loop_none types _ last, total_none types last) (ground arith))
  | inr e ↦ rw e (disp_loop-total types (ground (arith, e)) ∙ omega arith)
]

-- An instruction without displacement, or without immediate operands, has none among its types.
total_imm_none : (types : List OperandType) → total imm_width types ≡ 0 → imm_loop types 0 ≡ 0
total_imm_none types h = imm_loop-total types 0 ∙ omega arith

-- How the counts of an instruction agree with the types of its operands.
pub record IsCounted (insn : Insn) : Type 0 where
  pub one_disp : number_of_disps insn.types ≤ 1
  pub no_disps : (insn.disp_operands == 0) ≡ (number_of_disps insn.types == 0)
  pub no_imms : (insn.imm_operands == 0) ≡ (total imm_width insn.types == 0)

-- An instruction that is no jump, whose counts agree with its operands, of which one at most is a
-- displacement: its size is that of its prefixes, its opcode, its modrm and sib bytes, its displacement
-- and its immediate operands together, where the prefixes are allowed, and nothing variable follows.
pub size_of_instruction-total :
    (flag : FlagCode) (insn : Insn)
    → IsCounted insn
    → (insn.jump || insn.jumpbyte || insn.jumpdword || insn.jumpintersegment) ≡ false
    → size_of_instruction flag insn ≡ (
        size_of_prefixes insn >>= λ prefixes. some (
          prefixes
              + insn.opcode_length
              + size_of_modrm insn
              + total disp_width insn.types
              + total imm_width insn.types,
          false,
        ))
unfolding size_of_instruction size_of_normal size_of_disp size_of_imm merge_size_pair
size_of_instruction-total flag insn c plain = elim (Option-cases (size_of_prefixes insn)) [
  | inl e ↦ rw e (ground arith)
  | inr (prefixes, e) ↦
      rw (e, disp_loop-total insn.types c.one_disp, imm_loop-total insn.types 0)
        (ground (arith, c.no_disps, c.no_imms, total_none insn.types))
]

normal_is_fixed :
    (insn : Insn) (size : ℕ) (variable : Bool)
    → size_of_normal insn ≡ some (size, variable)
    → variable ≡ false
unfolding size_of_normal size_of_disp size_of_imm merge_size_pair
normal_is_fixed insn size variable h = elim (Option-cases (size_of_prefixes insn)) [
  | inl e ↦ absurd (cc (rw e at h))
  | inr (prefixes, e) ↦ let h' = rw e at h in ground arith
]

-- Something of variable size follows exactly the instructions that the opcode table marks as jumps.
pub size_of_instruction-jump :
    (flag : FlagCode) (insn : Insn) (size : ℕ) (variable : Bool)
    → size_of_instruction flag insn ≡ some (size, variable)
    → variable ≡ insn.jump
unfolding size_of_instruction size_of_branch size_of_jump size_of_interseg_jump
size_of_instruction-jump flag insn size variable h =
    ground (arith, normal_is_fixed insn size variable)
