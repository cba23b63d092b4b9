-- ===== src/Relax/Jumps.antt =====
-- src/MaoRelax.cc and src/tc-i386.c: the jumps that `BuildFragments` hands to the relaxation.
use mao.Prelude.{
  ℕ, ◌+◌, ◌-◌, ◌%◌, ◌^◌, ◌<◌, ◌≡◌, refl, sym, Bool, true, false, not, ◌||◌, some, [], ◌∷◌, ◌++◌,
  arith, bit_or, ◌==◌, if◌then◌else◌, length, get_or,
}
use mao.InstructionSize.{is_16bit, has_prefix, data_prefix, size_of_instruction}
use mao.InstructionSize.Spec.{size_of_instruction-jump}
use mao.JumpRelax.{
  uncond_jump, cond_jump, cond_jump86, small, code16, encode_relax_state, rlx_length_of,
  md_relax_table, long_state,
}
use mao.Relax.Frag.{Frag, rs_machine_dependent, is_constant, is_symbol, SymbolS, make_expr_symbol}
use mao.Relax.Entry.{InstructionEntry}
use mao.Relax.Build.{
  Build, set_size, add_fix, set_relax, frag_var, var_fields, jump_pc_relative, jump_subtype,
  end_fragment_instruction, build_instruction,
}

-- The length of the displacement, with the opcode bytes it brings, once the state `s` has grown
unfoldable pub grown_length : ℕ → ℕ
unfolding md_relax_table rlx_length_of
grown_length s = rlx_length_of (get_or md_relax_table s (long_state 0)).rlx_more

-- The code has 16-bit displacements: by its mode, which an operand size prefix turns round.
unfoldable pub is_narrow : InstructionEntry → Bool
is_narrow i =
    if has_prefix i.instruction data_prefix then not (is_16bit i.flag) else is_16bit i.flag

-- The longest form of a jump adds to its first byte: a displacement of two or four bytes for `jmp`; one
-- more for a conditional jump, of which the opcode has two bytes then; and on processors before the 386
-- with 16-bit displacements, where no such jump exists, a jump past a `jmp`.
unfoldable pub longest_form : Bool → InstructionEntry → ℕ
unfolding is_narrow
longest_form cpui386 i =
    if i.instruction.base_opcode == jump_pc_relative
    then (if is_narrow i then 2 else 4)
    else if is_narrow i
    then (if cpui386 then 3 else 4)
    else 5

-- A subtype of a short jump in the relaxation table, which may grow to `longest`
record IsShort (s longest : ℕ) : Type 0 where
  pub in_table : s < 12
  pub short : rlx_length_of s ≡ 1
  pub grown : grown_length s ≡ longest

-- The same choice on the three tests that `jump_subtype` makes
abbrev longest_of : Bool → Bool → Bool → ℕ
longest_of jmp old narrow =
    if jmp then (if narrow then 2 else 4) else if narrow then (if old then 3 else 4) else 5

encode_relax_state-IsShort :
    (jmp old narrow : Bool)
    → IsShort
        (bit_or
          (encode_relax_state
            (if jmp then uncond_jump else if old then cond_jump else cond_jump86)
            small)
          (if narrow then 1 else 0))
        (longest_of jmp old narrow)
unfolding rlx_length_of md_relax_table grown_length
encode_relax_state-IsShort true old false = record {
  in_table = omega arith;
  short = refl;
  grown = refl;
}
encode_relax_state-IsShort true old true = record {
  in_table = omega arith;
  short = refl;
  grown = refl;
}
encode_relax_state-IsShort false true false = record {
  in_table = omega arith;
  short = refl;
  grown = refl;
}
encode_relax_state-IsShort false true true = record {
  in_table = omega arith;
  short = refl;
  grown = refl;
}
encode_relax_state-IsShort false false false = record {
  in_table = omega arith;
  short = refl;
  grown = refl;
}
encode_relax_state-IsShort false false true = record {
  in_table = omega arith;
  short = refl;
  grown = refl;
}

width_bit :
    (sixteen prefixed : Bool)
    → (let width : ℕ = if sixteen then code16 else 0 in if prefixed then code16 - width else width)
      ≡ (if (if prefixed then not sixteen else sixteen) then 1 else 0)
width_bit true true = refl
width_bit true false = refl
width_bit false true = refl
width_bit false false = refl

jump_subtype-IsShort :
    (cpui386 : Bool) (i : InstructionEntry)
    → IsShort (jump_subtype cpui386 i) (longest_form cpui386 i)
unfolding jump_subtype longest_form is_narrow
jump_subtype-IsShort cpui386 i =
    rw (width_bit (is_16bit i.flag) (has_prefix i.instruction data_prefix))
      (encode_relax_state-IsShort (i.instruction.base_opcode == jump_pc_relative) cpui386 _)

-- The instruction ended the fragment `f`.
pub record JumpEnded (longest entry size : ℕ) (b b' : Build) (f : Frag) : Type 0 where
  pub ended : b'.ended ≡ b.ended ++ f ∷ []
  pub relaxable : f.fr_type ≡ rs_machine_dependent
  pub points : f.fr_opcode ≡ some entry
  pub fixed : f.fr_fix ≡ (b.frag.fr_fix + size) % 2 ^ 64
  pub in_table : f.fr_subtype < 12
  pub short : rlx_length_of f.fr_subtype ≡ 1
  pub grown : grown_length f.fr_subtype ≡ longest
  pub mapped : b'.relax_map (length b.ended) ≡ some entry
  pub fresh : b'.frag.fr_fix ≡ 0

-- The instruction is in the fragment that is being filled.
pub record InFragment (size : ℕ) (b b' : Build) : Type 0 where
  pub ended : b'.ended ≡ b.ended
  pub fixed : b'.frag.fr_fix ≡ (b.frag.fr_fix + size) % 2 ^ 64
  pub same_map : b'.relax_map ≡ b.relax_map

abbrev pub InstructionBuilt : Bool → ℕ → InstructionEntry → ℕ → Bool → Build → Build → Type 0
InstructionBuilt cpui386 entry i size variable b b' =
    if variable
    then ((f : Frag) × JumpEnded (longest_form cpui386 i) entry size b b' f)
    else InFragment size b b'

build_jump :
    (cpui386 : Bool) (entry : ℕ) (i : InstructionEntry) (b : Build) (size : ℕ)
    → size_of_instruction i.flag i.instruction ≡ some (size, true)
    → (b' : Build) × (build_instruction cpui386 entry i b ≡ some b')
      × ((f : Frag) × JumpEnded (longest_form cpui386 i) entry size b b' f)
unfolding build_instruction end_fragment_instruction frag_var
build_jump cpui386 entry i b size h =
    let jump : i.instruction.jump ≡ true =
      sym (size_of_instruction-jump i.flag i.instruction size true h) in
    let short = jump_subtype-IsShort cpui386 i in
    let here : (length b.ended == length b.ended) ≡ true = ground arith in
    let simple = is_constant i.disps || is_symbol i.disps in
    let symbol : SymbolS = if simple then i.disps.x_add_symbol else make_expr_symbol i.disps in
    let off : ℕ = if simple then i.disps.x_add_number else 0 in
    let sized : Build = set_relax entry (set_size entry size (add_fix size b)) in
    let b' : Build =
      frag_var rs_machine_dependent i.reloc (jump_subtype cpui386 i) symbol off (some entry)
        sized in
    let f : Frag =
      var_fields rs_machine_dependent i.reloc (jump_subtype cpui386 i) symbol off (some entry)
        sized.frag in
    (
      b',
      rw (h, jump) refl,
      (
        f,
        record {
          ended = refl;
          relaxable = refl;
          points = refl;
          fixed = refl;
          in_table = short.in_table;
          short = short.short;
          grown = short.grown;
          mapped = rw here refl;
          fresh = refl;
        },
      ),
    )

-- Where `SizeOfInstruction` returns, the case of an instruction passes, the assertion of
-- `EndFragmentInstruction` included, and the size goes to the fixed part of the fragment. Without a variable
-- part nothing else ends or enters the relax map. With one, the fragment ends: it points at the
-- instruction, is in the relax map with it, and starts in a short state of the relaxation table, which
-- grows to the longest form that this jump has on the processor in this mode; the next one is empty.
pub build_instruction_lem :
    (cpui386 : Bool) (entry : ℕ) (i : InstructionEntry) (b : Build) (size : ℕ) (variable : Bool)
    → size_of_instruction i.flag i.instruction ≡ some (size, variable)
    → (b' : Build) × (build_instruction cpui386 entry i b ≡ some b')
      × InstructionBuilt cpui386 entry i size variable b b'
unfolding build_instruction
build_instruction_lem cpui386 entry i b size true h = build_jump cpui386 entry i b size h
build_instruction_lem cpui386 entry i b size false h = (
  set_size entry size (add_fix size b),
  rw h refl,
  record { ended = refl; fixed = refl; same_map = refl },
)
