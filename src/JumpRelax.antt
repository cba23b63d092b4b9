-- ===== src/JumpRelax.antt =====
-- src/tc-i386.c: jumps whose length depends on the distance, `md_relax_table`,
-- `md_estimate_size_before_relax` and `md_convert_frag`. Addresses and offsets are bit patterns below
-- 2 ^ 64. The `switch` statements end in `BAD_CASE`, which aborts: `none`.
pub mod Estimate
pub mod Bytes
pub mod Convert
pub mod Exact
mod Examples
use Prim.Native.Nat.{bit_xor}
use mao.Prelude.Lists
use mao.Prelude.{
  ℕ, zero, suc, ◌+◌, ◌-◌, ◌*◌, ◌/◌, ◌%◌, ◌^◌, bit_and, bit_or, Bool, true, false, not, ◌&&◌, ◌||◌,
  List, [], ◌∷◌, ◌++◌, Option, some, none, ltb, ◌==◌, if◌then◌else◌, get_or,
}
use mao.Prelude.Checked.{◌>>=◌}

-- `UNCOND_JUMP`, `COND_JUMP`, `COND_JUMP86`
abbrev pub uncond_jump : ℕ
uncond_jump = 0

abbrev pub cond_jump : ℕ
cond_jump = 1

abbrev pub cond_jump86 : ℕ
cond_jump86 = 2

-- `CODE16`, `SMALL`, `SMALL16`, `BIG`, `BIG16`
abbrev pub code16 : ℕ
code16 = 1

abbrev pub small : ℕ
small = 0

abbrev pub small16 : ℕ
small16 = 1

abbrev pub big : ℕ
big = 2

abbrev pub big16 : ℕ
big16 = 3

-- `ENCODE_RELAX_STATE`
abbrev pub encode_relax_state : ℕ → ℕ → ℕ
encode_relax_state type size = bit_or (type * 2 ^ 2) size

-- `TYPE_FROM_RELAX_STATE`
abbrev pub type_from_relax_state : ℕ → ℕ
type_from_relax_state s = s / 2 ^ 2

-- `DISP_SIZE_FROM_RELAX_STATE`
unfoldable pub disp_size_from_relax_state : ℕ → ℕ
disp_size_from_relax_state s =
    if bit_and s 3 == big then 4 else if bit_and s 3 == big16 then 2 else 1

-- `relax_typeS`; `rlx_backward` is kept as the number of bytes back.
pub record RelaxType : Type 0 where
  pub rlx_forward : ℕ
  pub rlx_backward : ℕ
  pub rlx_length : ℕ
  pub rlx_more : ℕ

abbrev pub short_state : ℕ → RelaxType
short_state more = record {
  rlx_forward = 127 + 1;
  rlx_backward = 128 - 1;
  rlx_length = 1;
  rlx_more = more;
}

abbrev pub long_state : ℕ → RelaxType
long_state length = record { rlx_forward = 0; rlx_backward = 0; rlx_length = length; rlx_more = 0 }

-- `md_relax_table`
unfoldable pub md_relax_table : List RelaxType
md_relax_table =
    short_state (encode_relax_state uncond_jump big)
    ∷ short_state (encode_relax_state uncond_jump big16)
    ∷ long_state 4
    ∷ long_state 2
    ∷ short_state (encode_relax_state cond_jump big)
    ∷ short_state (encode_relax_state cond_jump big16)
    ∷ long_state 5
    ∷ long_state 3
    ∷ short_state (encode_relax_state cond_jump86 big)
    ∷ short_state (encode_relax_state cond_jump86 big16)
    ∷ long_state 5
    ∷ long_state 4
    ∷ []

-- `md_relax_table[s].rlx_length`
unfoldable pub rlx_length_of : ℕ → ℕ
unfolding md_relax_table
rlx_length_of s = (get_or md_relax_table s (long_state 0)).rlx_length

-- `BFD_RELOC_16_PCREL` and the like
pub data Reloc : Type 0 where
  pcrel_8 pcrel_16 pcrel_32 : Reloc
  other : ℕ → Reloc

-- A fixup that `fix_new` queues: where in the fragment, and how many bytes
pub record Fixup : Type 0 where
  pub where_ : ℕ
  pub size : ℕ
  pub offset : ℕ
  pub reloc : Reloc

-- A fragment that ends in a jump: the bytes at `fr_opcode`, and the value of `fr_symbol`. `fr_var` is
-- the relocation, `none` for `NO_RELOC`. `waned` is what `frag_wane` sets.
pub record JumpFrag : Type 0 where
  pub opcode : List ℕ
  pub fr_address : ℕ
  pub fr_fix : ℕ
  pub fr_var : Option Reloc
  pub fr_subtype : ℕ
  pub fr_offset : ℕ
  pub symbol_value : ℕ
  pub fixups : List Fixup
  pub waned : Bool

abbrev pub is_none : Option Reloc → Bool
is_none none = true
is_none (some r) = false

abbrev pub reloc_type_of : Option Reloc → ℕ → Reloc
reloc_type_of (some r) size = r
reloc_type_of none size = if size == 2 then pcrel_16 else pcrel_32

abbrev pub fix_new : ℕ → ℕ → Reloc → JumpFrag → JumpFrag
fix_new at_ size reloc f = record f {
  fixups =
      f.fixups ++ (record { where_ = at_; size = size; offset = f.fr_offset; reloc = reloc }) ∷ [];
}

-- The three ways in which `md_estimate_size_before_relax` fixes a jump whose target it cannot reach
-- by relaxing: `jmp` with a wide offset
unfoldable pub widen_uncond : ℕ → Reloc → JumpFrag → JumpFrag
widen_uncond size reloc f =
    fix_new f.fr_fix size reloc
      (record f { opcode = Lists.set f.opcode 0 0xe9; fr_fix = f.fr_fix + size })

-- A negated condition past an unconditional jump
unfoldable pub branch_past : Reloc → JumpFrag → JumpFrag
branch_past reloc f =
    let opcode = Lists.set f.opcode 0 (bit_xor (get_or f.opcode 0 0) 1) in
    let opcode = Lists.set opcode 1 3 in
    let opcode = Lists.set opcode 2 0xe9 in
    fix_new (f.fr_fix + 2) 2 reloc (record f { opcode = opcode; fr_fix = f.fr_fix + (2 + 2) })

-- A conditional jump with a byte, or a wide offset
unfoldable pub keep_byte : JumpFrag → JumpFrag
keep_byte f = fix_new f.fr_fix 1 pcrel_8 (record f { fr_fix = f.fr_fix + 1 })

unfoldable pub widen_cond : ℕ → Reloc → JumpFrag → JumpFrag
widen_cond size reloc f =
    let opcode = Lists.set f.opcode 1 ((get_or f.opcode 0 0 + 0x10) % 2 ^ 8) in
    let opcode = Lists.set opcode 0 0x0f in
    fix_new (f.fr_fix + 1) size reloc (record f { opcode = opcode; fr_fix = f.fr_fix + (1 + size) })

-- The `switch` of `md_estimate_size_before_relax`
unfoldable pub fix_jump : Bool → JumpFrag → Option JumpFrag
unfolding widen_uncond branch_past keep_byte widen_cond
fix_jump no_cond_jump_promotion f =
    let size : ℕ = if not (bit_and f.fr_subtype code16 == 0) then 2 else 4 in
    let reloc_type = reloc_type_of f.fr_var size in
    let type = type_from_relax_state f.fr_subtype in
    let conditional : JumpFrag =
      (if no_cond_jump_promotion && is_none f.fr_var
        then keep_byte f
        else widen_cond size reloc_type f) in
    if type == uncond_jump
    then some (widen_uncond size reloc_type f)
    else if (type == cond_jump86)
        && (size == 2)
        && (not no_cond_jump_promotion || not (is_none f.fr_var))
    then some (branch_past reloc_type f)
    else if (type == cond_jump86) || (type == cond_jump)
    then some conditional
    else none

-- `md_estimate_size_before_relax`: the fragment and the growth. `fixed` is the first test, whether the
-- symbol lies in another segment, or may be overridden.
unfoldable pub md_estimate_size_before_relax : Bool → Bool → JumpFrag → Option (JumpFrag × ℕ)
md_estimate_size_before_relax fixed no_cond_jump_promotion f =
    let widened = fix_jump no_cond_jump_promotion f >>= λ f'.
    some (record f' { waned = true }, f'.fr_fix - f.fr_fix) in
    if fixed then widened else some (f, rlx_length_of f.fr_subtype)

-- The `switch` of `md_convert_frag`: the extension, the place of the displacement and the opcode bytes
unfoldable pub convert_opcode : ℕ → List ℕ → Option (ℕ × ℕ × List ℕ)
convert_opcode s opcode =
    let long_cond = Lists.set (Lists.set opcode 1 ((get_or opcode 0 0 + 0x10) % 2 ^ 8)) 0 0x0f in
    let past =
      Lists.set (Lists.set (Lists.set opcode 0 (bit_xor (get_or opcode 0 0) 1)) 1 3) 2 0xe9 in
    if bit_and s big == 0
    then some (1, 1, opcode)
    else if s == encode_relax_state uncond_jump big
    then some (4, 1, Lists.set opcode 0 0xe9)
    else if s == encode_relax_state uncond_jump big16
    then some (2, 1, Lists.set opcode 0 0xe9)
    else if (s == encode_relax_state cond_jump big) || (s == encode_relax_state cond_jump86 big)
    then some (5, 2, long_cond)
    else if s == encode_relax_state cond_jump big16
    then some (3, 2, long_cond)
    else if s == encode_relax_state cond_jump86 big16
    then some (4, 3, past)
    else none

-- What `md_convert_frag` reports beside the fragment
pub record Converted : Type 0 where
  pub frag : JumpFrag
  pub long_jump_required : Bool
  pub out_of_range : Bool

abbrev pub write_at : List ℕ → ℕ → List ℕ → List ℕ
write_at to place [] = to
write_at to place (b ∷ bytes) = write_at (Lists.set to place b) (place + 1) bytes

-- `displacement_from_opcode_start`
unfoldable pub displacement_from_opcode_start : JumpFrag → ℕ
displacement_from_opcode_start f =
    let target_address = (f.symbol_value + f.fr_offset) % 2 ^ 64 in
    let opcode_address = (f.fr_address + f.fr_fix) % 2 ^ 64 in
    (target_address + 2 ^ 64 - opcode_address) % 2 ^ 64

-- `md_convert_frag`. `md_number_to_chars` belongs to the assembler's own files.
module _ (md_number_to_chars : ℕ → ℕ → List ℕ) (object_64bit no_cond_jump_promotion : Bool) where
  -- The part behind the `switch`
  unfoldable pub put_displacement : JumpFrag → ℕ × ℕ × List ℕ → Converted
  put_displacement f (extension, place, opcode) =
      let disp_size = disp_size_from_relax_state f.fr_subtype in
      let start = displacement_from_opcode_start f in
      let displacement = (start + 2 ^ 64 - extension) % 2 ^ 64 in
      let too_far =
        (disp_size == 4)
        && object_64bit
        && ltb (2 * 2 ^ 31 - 1) ((displacement + 2 ^ 31) % 2 ^ 64) in
      let written : ℕ = if too_far then 0 else displacement in
      record {
        frag = record f {
          opcode = write_at opcode place (md_number_to_chars written disp_size);
          fr_fix = f.fr_fix + extension;
        };
        long_jump_required =
            not (bit_and f.fr_subtype big == 0)
            && no_cond_jump_promotion
            && not (type_from_relax_state f.fr_subtype == uncond_jump);
        out_of_range = too_far;
      }

  unfoldable pub md_convert_frag : JumpFrag → Option Converted
  unfolding put_displacement
  md_convert_frag f = do
    change ← convert_opcode f.fr_subtype f.opcode
    some (put_displacement f change)
