-- ===== src/JumpRelax/Examples.antt =====
-- A jump over 300 bytes, a conditional one whose target is out of range of its byte, and a
-- `md_number_to_chars` that gives the low bytes of a number (src/tc-i386.c).
use native.Mathlib.Nat.{
  one-le-pow, mul-add-mod_self_left, mod-eq_of_lt, mod-lt, div-add-mod, mod-one,
}
use mao.Prelude.{
  ℕ, zero, suc, ◌+◌, ◌*◌, ◌/◌, ◌%◌, ◌^◌, ◌≤◌, ◌<◌, ◌≡◌, refl, sym, ◌∙◌, ap, true, false, List, [],
  ◌∷◌, ◌++◌, some, none, arith, if◌then◌else◌, length, replicate,
}
use mao.JumpRelax.{
  JumpFrag, Converted, md_relax_table, rlx_length_of, disp_size_from_relax_state,
  displacement_from_opcode_start, convert_opcode, put_displacement, md_convert_frag,
  md_estimate_size_before_relax,
}
use mao.JumpRelax.Bytes.{le_value, read_at, IsLittleEndian}
use mao.JumpRelax.Convert.{md_convert_frag-reaches}
use mao.JumpRelax.Exact.{sign_extend_32, md_convert_frag-exact}
use mao.JumpRelax.Estimate.{QueuesLast, fixed_length, md_estimate_size_before_relax_lem}

unfoldable low_bytes : ℕ → ℕ → List ℕ
low_bytes v zero = []
low_bytes v (suc n) = v % 2 ^ 8 ∷ low_bytes (v / 2 ^ 8) n

length-low_bytes : (v n : ℕ) → length (low_bytes v n) ≡ n
unfolding low_bytes
length-low_bytes v zero = refl
length-low_bytes v (suc n) = rw (length-low_bytes (v / 2 ^ 8) n) (omega arith)

mod_times : (p a : ℕ) → 1 ≤ p → a % (2 ^ 8 * p) ≡ a % 2 ^ 8 + 2 ^ 8 * (a / 2 ^ 8 % p)
mod_times p a h =
    let c : ℕ = 2 ^ 8 * (a / 2 ^ 8 % p) + a % 2 ^ 8 in
    let small : a / 2 ^ 8 % p < p = mod-lt (a / 2 ^ 8) h in
    let e : a ≡ 2 ^ 8 * p * (a / 2 ^ 8 / p) + c = grind (arith, div-add-mod (a / 2 ^ 8) p) in
    ap (λ (n : ℕ). n % (2 ^ 8 * p)) e
    ∙ mul-add-mod_self_left (2 ^ 8 * p) (a / 2 ^ 8 / p) c
    ∙ mod-eq_of_lt (omega arith)
    ∙ omega arith

pow_byte : (k : ℕ) → 2 ^ suc (suc (suc (suc (suc (suc (suc (suc k))))))) ≡ 2 ^ 8 * 2 ^ k
pow_byte k = omega arith

value-low_bytes : (v n : ℕ) → le_value (low_bytes v n) ≡ v % 2 ^ (8 * n)
unfolding low_bytes le_value
value-low_bytes v zero = sym (mod-one v)
value-low_bytes v (suc n) =
    let e : 2 ^ (8 * suc n) ≡ 2 ^ 8 * 2 ^ (8 * n) =
      ap (λ (k : ℕ). 2 ^ k) (omega arith) ∙ pow_byte (8 * n) in
    rw (value-low_bytes (v / 2 ^ 8) n, e)
      (sym (mod_times (2 ^ (8 * n)) v (one-le-pow (8 * n) 2 (omega arith))))

little : IsLittleEndian low_bytes
little = record { length_is = length-low_bytes; value_is = value-low_bytes }

-- `jmp` and `jne`
abbrev jump : ℕ → List ℕ → ℕ → JumpFrag
jump subtype opcode value = record {
  opcode = opcode ++ replicate 6 0;
  fr_address = 100;
  fr_fix = 11;
  fr_var = none;
  fr_subtype = subtype;
  fr_offset = 0;
  symbol_value = value;
  fixups = [];
  waned = false;
}

-- A conditional jump forwards by 300, in its long form, and a jump back to address 7
abbrev forward : JumpFrag
forward = jump 6 (0x75 ∷ []) 411

abbrev back : JumpFrag
back = jump 2 (0xeb ∷ []) 7

md_convert_frag-reaches_example :
    (c : Converted) × (place : ℕ) × (md_convert_frag low_bytes true false forward ≡ some c)
    × (c.frag.fr_fix ≡ 11 + rlx_length_of 6)
    × (place + disp_size_from_relax_state 6 ≡ 1 + rlx_length_of 6)
    × ((100 + c.frag.fr_fix + le_value (read_at c.frag.opcode place (disp_size_from_relax_state 6)))
          % 2 ^ (8 * disp_size_from_relax_state 6)
        ≡ (if c.out_of_range then 100 + c.frag.fr_fix else 411 + 0)
          % 2 ^ (8 * disp_size_from_relax_state 6))
unfolding rlx_length_of md_relax_table
md_convert_frag-reaches_example =
    md_convert_frag-reaches low_bytes little true false forward (omega arith) (omega arith)

abbrev back_converted : Converted
back_converted = record {
  frag = record back { opcode = 0xe9 ∷ 148 ∷ 255 ∷ 255 ∷ 255 ∷ 0 ∷ 0 ∷ []; fr_fix = 15 };
  long_jump_required = false;
  out_of_range = false;
}

md_convert_frag-exact_example :
    (place : ℕ) × (place + 4 ≡ 1 + rlx_length_of 2)
    × ((100 + 15 + sign_extend_32 (le_value (read_at back_converted.frag.opcode place 4))) % 2 ^ 64
        ≡ (7 + 0) % 2 ^ 64)
unfolding rlx_length_of md_relax_table disp_size_from_relax_state md_convert_frag put_displacement
    convert_opcode displacement_from_opcode_start low_bytes
md_convert_frag-exact_example =
    md_convert_frag-exact low_bytes little false back (omega arith) (omega arith) refl
      back_converted refl refl

-- `jne` to a symbol of another section
md_estimate_size_before_relax_lem_example :
    (f' : JumpFrag) × (growth : ℕ) × (md_estimate_size_before_relax true false forward
      ≡ some (f', growth))
    × (growth ≡ (if true then fixed_length false forward else rlx_length_of 6))
    × (f'.fr_fix ≡ 11 + (if true then growth else 0))
    × (f'.waned ≡ (if true then true else false))
    × (if true then QueuesLast forward f' else (f' ≡ forward))
md_estimate_size_before_relax_lem_example =
    md_estimate_size_before_relax_lem forward true false (omega arith)
