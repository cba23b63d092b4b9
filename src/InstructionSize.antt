-- ===== src/InstructionSize.antt =====
-- src/Maoi386Size.cc and src/tc-i386-helper.h: class `X86InstructionSizeHelper`, the number of bytes of
-- an instruction, and whether a part of variable size follows. Sizes are far below the range of `int`.
pub mod Spec
pub mod Bounds
mod Examples
use mao.Prelude.{
  ℕ, zero, suc, ◌+◌, Bool, true, false, not, ◌&&◌, ◌||◌, List, [], ◌∷◌, Option, some, none, ltb,
  ◌==◌, if◌then◌else◌, get_or,
}
use mao.Prelude.Checked.{Checked, ◌>>=◌, ◌>>◌, mao_assert}

-- The bits of `i386_operand_type` that the sizes depend on
pub record OperandType : Type 0 where
  pub reg8 : Bool
  pub reg16 : Bool
  pub reg32 : Bool
  pub reg64 : Bool
  pub imm8 : Bool
  pub imm8s : Bool
  pub imm16 : Bool
  pub imm32 : Bool
  pub imm32s : Bool
  pub imm64 : Bool
  pub disp8 : Bool
  pub disp16 : Bool
  pub disp32 : Bool
  pub disp32s : Bool
  pub disp64 : Bool
  pub baseindex : Bool

-- `enum operand_type`
pub data OperandClass : Type 0 where
  reg imm disp anymem : OperandClass

-- `operand_type_check`
unfoldable pub operand_type_check : OperandType → OperandClass → Bool
operand_type_check t reg = t.reg8 || t.reg16 || t.reg32 || t.reg64
operand_type_check t imm = t.imm8 || t.imm8s || t.imm16 || t.imm32 || t.imm32s || t.imm64
operand_type_check t disp = t.disp8 || t.disp16 || t.disp32 || t.disp32s || t.disp64
operand_type_check t anymem =
    t.disp8 || t.disp16 || t.disp32 || t.disp32s || t.disp64 || t.baseindex

-- `enum flag_code`
pub data FlagCode : Type 0 where
  code_32bit code_16bit code_64bit : FlagCode

abbrev pub is_16bit : FlagCode → Bool
is_16bit code_16bit = true
is_16bit code_32bit = false
is_16bit code_64bit = false

-- What the sizes depend on of an `i386_insn`: the prefix bytes in the order of `Prefix`, the bits of
-- `tm.opcode_modifier`, the lengths, the types of its operands, the fields of the modrm byte, and the
-- type of the base register.
pub record Insn : Type 0 where
  pub prefix : List ℕ
  pub jump : Bool
  pub jumpbyte : Bool
  pub jumpdword : Bool
  pub jumpintersegment : Bool
  pub has_vex : Bool
  pub modrm : Bool
  pub base_opcode : ℕ
  pub opcode_length : ℕ
  pub vex_length : ℕ
  pub types : List OperandType
  pub disp_operands : ℕ
  pub imm_operands : ℕ
  pub regmem : ℕ
  pub mode : ℕ
  pub base_reg : Option OperandType

-- `enum Prefix`
abbrev pub seg_prefix : ℕ
seg_prefix = 1

abbrev pub addr_prefix : ℕ
addr_prefix = 2

abbrev pub data_prefix : ℕ
data_prefix = 3

abbrev pub rex_prefix : ℕ
rex_prefix = 6

abbrev pub max_prefixes : ℕ
max_prefixes = 7

-- `CS_PREFIX_OPCODE` and `DS_PREFIX_OPCODE`, bytes of the architecture, which here hint at the
-- direction of a branch
abbrev pub cs_prefix_opcode : ℕ
cs_prefix_opcode = 0x2e

abbrev pub ds_prefix_opcode : ℕ
ds_prefix_opcode = 0x3e

-- `ESCAPE_TO_TWO_BYTE_ADDRESSING`: the number of ESP, by which a sib byte is announced
abbrev pub escape_to_two_byte_addressing : ℕ
escape_to_two_byte_addressing = 4

-- `insn_->prefix[k] != 0`
abbrev pub has_prefix : Insn → ℕ → Bool
has_prefix insn k = not (get_or insn.prefix k 0 == 0)

abbrev pub count_if : Bool → ℕ
count_if b = if b then 1 else 0

abbrev pub is_branch_hint : ℕ → Bool
is_branch_hint byte = (byte == cs_prefix_opcode) || (byte == ds_prefix_opcode)

-- `MergeSizePair`
unfoldable pub merge_size_pair : ℕ × Bool → ℕ × Bool → ℕ × Bool
merge_size_pair (from_size, from_variable) (size, variable) =
    (size + from_size, variable || from_variable)

-- `SizeOfBranch`
unfoldable pub size_of_branch : Insn → ℕ × Bool
size_of_branch insn =
    let size : ℕ = 1 in
    let size : ℕ = if has_prefix insn data_prefix then size + 1 else size in
    let size : ℕ = if is_branch_hint (get_or insn.prefix seg_prefix 0) then size + 1 else size in
    let size : ℕ = if has_prefix insn rex_prefix then size + 1 else size in (size, true)

-- `SizeOfJump`
unfoldable pub size_of_jump : FlagCode → Insn → ℕ × Bool
size_of_jump flag insn =
    let size : ℕ = 1 in
    let byte_size : ℕ =
      (let size : ℕ = size + 1 in
        let size : ℕ = if has_prefix insn addr_prefix then size + 1 else size in
        if is_branch_hint (get_or insn.prefix seg_prefix 0) then size + 1 else size) in
    let word_size : ℕ =
      (let width16 = is_16bit flag in
        let width16 = if has_prefix insn data_prefix then not width16 else width16 in
        let size : ℕ = if has_prefix insn data_prefix then size + 1 else size in
        if width16 then size + 2 else size + 4) in
    let size : ℕ = if insn.jumpbyte then byte_size else word_size in
    let size : ℕ = if has_prefix insn rex_prefix then size + 1 else size in (size, false)

-- `SizeOfIntersegJump`
unfoldable pub size_of_interseg_jump : FlagCode → Insn → ℕ × Bool
size_of_interseg_jump flag insn =
    let size : ℕ = 0 in
    let width16 = is_16bit flag in
    let width16 = if has_prefix insn data_prefix then not width16 else width16 in
    let size : ℕ = if has_prefix insn data_prefix then size + 1 else size in
    let size : ℕ = if has_prefix insn rex_prefix then size + 1 else size in
    let size : ℕ = if width16 then size + 2 else size + 4 in (size + (1 + 2), false)

-- The loop of `SizeOfDisp` over the operands
unfoldable pub disp_loop : List OperandType → ℕ → ℕ
disp_loop [] size = size
disp_loop (t ∷ types) size = disp_loop types (
    if operand_type_check t disp
    then (if t.disp64
        then size + 8
        else if t.disp8
        then size + 1
        else if t.disp16
        then size + 2
        else 4)
    else size)

-- `SizeOfDisp`
unfoldable pub size_of_disp : Insn → ℕ × Bool
size_of_disp insn = (disp_loop insn.types 0, false)

-- The loop of `SizeOfImm` over the operands
unfoldable pub imm_loop : List OperandType → ℕ → ℕ
imm_loop [] size = size
imm_loop (t ∷ types) size = imm_loop types (
    if operand_type_check t imm
    then (if t.imm64
        then size + 8
        else if t.imm8 || t.imm8s
        then size + 1
        else if t.imm16
        then size + 2
        else size + 4)
    else size)

-- `SizeOfImm`
unfoldable pub size_of_imm : Insn → ℕ × Bool
size_of_imm insn = (imm_loop insn.types 0, false)

-- The loop over the prefix bytes of an instruction without VEX prefix
unfoldable pub prefix_loop : List ℕ → ℕ → ℕ
prefix_loop [] size = size
prefix_loop (q ∷ prefix) size = prefix_loop prefix (if not (q == 0) then size + 1 else size)

-- The loop over the prefix bytes of an instruction with VEX prefix, from place `j` on
unfoldable pub vex_prefix_loop : ℕ → List ℕ → ℕ → Checked ℕ
vex_prefix_loop j [] size = some size
vex_prefix_loop j (q ∷ prefix) size = do
  size' ←
      (if not (q == 0)
        then (if j == rex_prefix
            then some size
            else if (j == seg_prefix) || (j == addr_prefix)
            then some (size + 1)
            else none)
        else some size)
  vex_prefix_loop (j + 1) prefix size'

-- The prefixes of a normal instruction
unfoldable pub size_of_prefixes : Insn → Checked ℕ
size_of_prefixes insn =
    let vex = vex_prefix_loop 0 insn.prefix 0 >>= λ size. some (size + insn.vex_length) in
    if insn.has_vex then vex else some (prefix_loop insn.prefix 0)

abbrev pub base_is_16bit : Option OperandType → Bool
base_is_16bit none = false
base_is_16bit (some t) = t.reg16

-- The modrm byte and the sib byte
unfoldable pub size_of_modrm : Insn → ℕ
size_of_modrm insn =
    let sib =
      (insn.regmem == escape_to_two_byte_addressing)
      && not (insn.mode == 3)
      && not (base_is_16bit insn.base_reg) in
    if insn.modrm then (if sib then 2 else 1) else 0

-- The last branch of `SizeOfInstruction`
unfoldable pub size_of_normal : Insn → Checked (ℕ × Bool)
unfolding size_of_modrm merge_size_pair
size_of_normal insn = do
  prefixes ← size_of_prefixes insn
  let size : ℕ × Bool = (prefixes + insn.opcode_length + size_of_modrm insn, false)
  let size' : ℕ × Bool =
      if not (insn.disp_operands == 0) then merge_size_pair (size_of_disp insn) size else size
  some (if not (insn.imm_operands == 0) then merge_size_pair (size_of_imm insn) size' else size')

-- `SizeOfInstruction`
unfoldable pub size_of_instruction : FlagCode → Insn → Checked (ℕ × Bool)
size_of_instruction flag insn =
    if insn.jump
    then some (size_of_branch insn)
    else if insn.jumpbyte || insn.jumpdword
    then some (size_of_jump flag insn)
    else if insn.jumpintersegment
    then some (size_of_interseg_jump flag insn)
    else size_of_normal insn
