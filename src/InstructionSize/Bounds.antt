-- ===== src/InstructionSize/Bounds.antt =====
-- Bounds of the sizes of src/Maoi386Size.cc, and where its assertion fails.
use mao.Prelude.{
  ℕ, ◌+◌, ◌*◌, ◌≤◌, ◌≡◌, ◌↔◌, inl, inr, Bool, true, false, not, ◌&&◌, ◌||◌, List, [], ◌∷◌, some,
  none, arith, ◌==◌, if◌then◌else◌, Option-cases,
}
use mao.InstructionSize.{
  OperandType, Insn, FlagCode, disp, imm, operand_type_check, count_if, base_is_16bit,
  merge_size_pair, size_of_branch, size_of_jump, size_of_interseg_jump, disp_loop, size_of_disp,
  imm_loop, size_of_imm, prefix_loop, vex_prefix_loop, size_of_prefixes, size_of_modrm,
  size_of_normal, size_of_instruction, seg_prefix, addr_prefix, rex_prefix,
}
use mao.InstructionSize.Spec.{number_of_disps}

-- How many of the types are immediate values, and how many places hold a prefix byte.
unfoldable pub number_of_imms : List OperandType → ℕ
number_of_imms [] = 0
number_of_imms (t ∷ types) = count_if (operand_type_check t imm) + number_of_imms types

unfoldable pub number_of_prefixes : List ℕ → ℕ
number_of_prefixes [] = 0
number_of_prefixes (q ∷ prefix) = count_if (not (q == 0)) + number_of_prefixes prefix

-- The modrm byte, and the sib byte: the number of ESP in `regmem` announces it, but beside a base
-- register of 16 bits, and where the modrm byte names two registers.
unfoldable pub modrm_bytes : Insn → ℕ
modrm_bytes insn =
    count_if insn.modrm
    + count_if (
        insn.modrm
        && (insn.regmem == 4)
        && not (insn.mode == 3)
        && not (base_is_16bit insn.base_reg))

-- What the instruction has at least before its operands.
unfoldable pub front_bytes : Insn → ℕ
unfolding number_of_prefixes modrm_bytes
front_bytes insn =
    (if insn.has_vex then insn.vex_length else number_of_prefixes insn.prefix)
    + insn.opcode_length
    + modrm_bytes insn

-- What may be added to it: the prefix bytes beside a VEX prefix, and eight bytes for each operand that
-- is a displacement and each that is an immediate value.
unfoldable pub more_bytes : Insn → ℕ
unfolding number_of_prefixes number_of_imms number_of_disps
more_bytes insn =
    (if insn.has_vex then number_of_prefixes insn.prefix else 0)
    + 8 * number_of_disps insn.types
    + 8 * number_of_imms insn.types

disp_loop-le :
    (types : List OperandType) (size : ℕ) → disp_loop types size ≤ size + 8 * number_of_disps types
unfolding disp_loop number_of_disps
disp_loop-le [] size = omega arith
disp_loop-le (t ∷ types) size =
    let step : ℕ =
      (if operand_type_check t disp
        then (if t.disp64
            then size + 8
            else if t.disp8
            then size + 1
            else if t.disp16
            then size + 2
            else 4)
        else size) in
    ground (arith, disp_loop-le types step)

imm_loop-le :
    (types : List OperandType) (size : ℕ) → imm_loop types size ≤ size + 8 * number_of_imms types
unfolding imm_loop number_of_imms
imm_loop-le [] size = omega arith
imm_loop-le (t ∷ types) size =
    let step : ℕ =
      (if operand_type_check t imm
        then (if t.imm64
            then size + 8
            else if t.imm8 || t.imm8s
            then size + 1
            else if t.imm16
            then size + 2
            else size + 4)
        else size) in
    ground (arith, imm_loop-le types step)

prefix_loop-number :
    (prefix : List ℕ) (size : ℕ) → prefix_loop prefix size ≡ size + number_of_prefixes prefix
unfolding prefix_loop number_of_prefixes
prefix_loop-number [] size = omega arith
prefix_loop-number (q ∷ prefix) size =
    ground (arith, prefix_loop-number prefix (if not (q == 0) then size + 1 else size))

vex_prefix_loop-le :
    (j : ℕ) (prefix : List ℕ) (size r : ℕ)
    → vex_prefix_loop j prefix size ≡ some r
    → (size ≤ r) × (r ≤ size + number_of_prefixes prefix)
unfolding vex_prefix_loop number_of_prefixes
vex_prefix_loop-le j [] size r h = ground arith
vex_prefix_loop-le j (q ∷ prefix) size r h = ground (
  arith,
  vex_prefix_loop-le (j + 1) prefix size r,
  vex_prefix_loop-le (j + 1) prefix (size + 1) r,
)

size_of_prefixes_bounds :
    (insn : Insn) (r : ℕ)
    → size_of_prefixes insn ≡ some r
    → ((if insn.has_vex then insn.vex_length else number_of_prefixes insn.prefix) ≤ r)
      × (r ≤ (
          if insn.has_vex
          then insn.vex_length + number_of_prefixes insn.prefix
          else number_of_prefixes insn.prefix))
unfolding size_of_prefixes
size_of_prefixes_bounds insn r h = elim (Option-cases (vex_prefix_loop 0 insn.prefix 0)) [
  | inl e ↦ let h' = rw e at h in ground (arith, prefix_loop-number insn.prefix 0)
  | inr (v, e) ↦
      let h' = rw e at h in
      ground (arith, prefix_loop-number insn.prefix 0, vex_prefix_loop-le 0 insn.prefix 0 v e)
]

size_of_modrm-bytes : (insn : Insn) → size_of_modrm insn ≡ modrm_bytes insn
unfolding size_of_modrm modrm_bytes
size_of_modrm-bytes insn = ground arith

normal_bounds :
    (insn : Insn) (size : ℕ) (variable : Bool)
    → size_of_normal insn ≡ some (size, variable)
    → (front_bytes insn ≤ size) × (size ≤ front_bytes insn + more_bytes insn)
unfolding size_of_normal size_of_disp size_of_imm merge_size_pair front_bytes more_bytes
normal_bounds insn size variable h = elim (Option-cases (size_of_prefixes insn)) [
  | inl e ↦ absurd (cc (rw e at h))
  | inr (prefixes, e) ↦
      let h' = rw e at h in
      ground (
        arith,
        size_of_prefixes_bounds insn prefixes e,
        size_of_modrm-bytes insn,
        disp_loop-le insn.types 0,
        imm_loop-le insn.types 0,
      )
]

abbrev pub SizeBounded : Insn → ℕ → Type 0
SizeBounded insn size =
    if insn.jump || insn.jumpbyte || insn.jumpdword || insn.jumpintersegment
    then ((1 ≤ size) × (size ≤ 9))
    else ((front_bytes insn ≤ size) × (size ≤ front_bytes insn + more_bytes insn))

-- Where `SizeOfInstruction` returns, a jump has one byte to nine. Any other instruction has at least its
-- opcode, its modrm and sib bytes, and its VEX prefix or else its prefix bytes, and beyond that at
-- most its prefix bytes beside a VEX prefix, eight bytes for each type of its operands that is a
-- displacement, and eight for each that is an immediate value, whatever the counts of its operands say.
pub size_of_instruction_bounds :
    (flag : FlagCode) (insn : Insn) (size : ℕ) (variable : Bool)
    → size_of_instruction flag insn ≡ some (size, variable)
    → SizeBounded insn size
unfolding size_of_instruction size_of_branch size_of_jump size_of_interseg_jump
size_of_instruction_bounds flag insn size variable h =
    ground (arith, normal_bounds insn size variable)

-- A prefix byte that the assertion forbids beside a VEX prefix, from place `j` on.
unfoldable pub is_stray : ℕ → List ℕ → Bool
is_stray j [] = false
is_stray j (q ∷ prefix) =
    (not (q == 0) && not ((j == seg_prefix) || (j == addr_prefix) || (j == rex_prefix)))
    || is_stray (j + 1) prefix

vex_prefix_loop_iff :
    (j : ℕ) (prefix : List ℕ) (size : ℕ)
    → (vex_prefix_loop j prefix size ≡ none) ↔ (is_stray j prefix ≡ true)
unfolding vex_prefix_loop is_stray
vex_prefix_loop_iff j [] size = ground arith
vex_prefix_loop_iff j (q ∷ prefix) size =
    ground (
      arith,
      vex_prefix_loop_iff (j + 1) prefix size,
      vex_prefix_loop_iff (j + 1) prefix (size + 1),
    )

size_of_prefixes_iff :
    (insn : Insn)
    → (size_of_prefixes insn ≡ none) ↔ ((insn.has_vex && is_stray 0 insn.prefix) ≡ true)
unfolding size_of_prefixes
size_of_prefixes_iff insn = elim (Option-cases (vex_prefix_loop 0 insn.prefix 0)) [
  | inl e ↦ rw e (ground (arith, vex_prefix_loop_iff 0 insn.prefix 0))
  | inr (v, e) ↦ rw e (ground (arith, vex_prefix_loop_iff 0 insn.prefix 0))
]

-- The assertion of `SizeOfInstruction` fails exactly on an instruction with a VEX prefix that is no jump
-- and has a prefix byte other than a segment, an address size or a REX prefix.
pub size_of_instruction_iff :
    (flag : FlagCode) (insn : Insn)
    → (size_of_instruction flag insn ≡ none) ↔ (
        (not (insn.jump || insn.jumpbyte || insn.jumpdword || insn.jumpintersegment)
          && (insn.has_vex && is_stray 0 insn.prefix))
        ≡ true)
unfolding size_of_instruction size_of_normal
size_of_instruction_iff flag insn = elim (Option-cases (size_of_prefixes insn)) [
  | inl e ↦ rw e (ground (arith, size_of_prefixes_iff insn))
  | inr (v, e) ↦ rw e (ground (arith, size_of_prefixes_iff insn))
]
