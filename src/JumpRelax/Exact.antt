-- ===== src/JumpRelax/Exact.antt =====
-- src/tc-i386.c: a displacement of four bytes that `md_convert_frag` writes for a 64-bit object leads
-- exactly to the target.
use mao.Prelude.{
  ℕ, ◌+◌, ◌-◌, ◌*◌, ◌%◌, ◌^◌, ◌≤◌, ◌<◌, ◌≡◌, refl, sym, ◌∙◌, ap, Bool, true, false, List, some,
  arith, ltb, if◌then◌else◌, length,
}
use mao.JumpRelax.{
  JumpFrag, Converted, rlx_length_of, disp_size_from_relax_state, displacement_from_opcode_start,
  put_displacement, md_convert_frag,
}
use mao.JumpRelax.Bytes.{le_value, read_at, IsLittleEndian}
use mao.JumpRelax.Convert.{changed, converts, displacement_near, rlx_length_le}

-- The number that 32 bits stand for as a signed one, in 64 bits.
unfoldable pub sign_extend_32 : ℕ → ℕ
sign_extend_32 d = if ltb d (2 ^ 31) then d else d + (2 ^ 64 - 2 ^ 32)

exact :
    (address value start extension : ℕ)
    → extension ≤ 5
    → start ≡ (value % 2 ^ 64 + 2 ^ 64 - address % 2 ^ 64) % 2 ^ 64
    → ((start + 2 ^ 64 - extension) % 2 ^ 64 + 2 ^ 31) % 2 ^ 64 ≤ 2 * 2 ^ 31 - 1
    → (address + extension + sign_extend_32 ((start + 2 ^ 64 - extension) % 2 ^ 64 % 2 ^ 32))
        % 2 ^ 64
      ≡ value % 2 ^ 64
unfolding sign_extend_32
exact address value start extension le e near = ground arith

-- For a state of the relaxation table with a displacement of four bytes, a buffer with room for its bytes
-- and an `md_number_to_chars` that gives the low bytes of a number: what `md_convert_frag` returns for a
-- 64-bit object, and does not report as out of range, leads exactly to the target, as the processor
-- extends the sign of the displacement.
pub md_convert_frag-exact :
    (to_chars : ℕ → ℕ → List ℕ)
    → IsLittleEndian to_chars
    → (no_cond_jump_promotion : Bool) (f : JumpFrag) → f.fr_subtype < 12
    → rlx_length_of f.fr_subtype < length f.opcode
    → disp_size_from_relax_state f.fr_subtype ≡ 4
    → (c : Converted) → md_convert_frag to_chars true no_cond_jump_promotion f ≡ some c
    → c.out_of_range ≡ false
    → (place : ℕ) × (place + 4 ≡ 1 + rlx_length_of f.fr_subtype)
      × ((f.fr_address + c.frag.fr_fix + sign_extend_32 (le_value (read_at c.frag.opcode place 4)))
            % 2 ^ 64
          ≡ (f.symbol_value + f.fr_offset) % 2 ^ 64)
unfolding displacement_from_opcode_start put_displacement
md_convert_frag-exact to_chars little promo f state room four c e near =
    let change = changed f.opcode f.fr_subtype state in
    let r : Converted =
      put_displacement to_chars true promo f
        (rlx_length_of f.fr_subtype, change.place, change.opcode') in
    let same : c ≡ r = cc (e, converts to_chars little true promo f state room) in
    let near' : r.out_of_range ≡ false = rw same at near in
    let d : le_value (read_at r.frag.opcode change.place 4)
        ≡ (displacement_from_opcode_start f + 2 ^ 64 - rlx_length_of f.fr_subtype)
          % 2 ^ 64
          % 2 ^ 32 =
      ap (λ (n : ℕ). le_value (read_at r.frag.opcode change.place n)) (sym four)
      ∙ displacement_near to_chars little true promo f state room near'
      ∙ ap
          (λ (n : ℕ).
            (displacement_from_opcode_start f + 2 ^ 64 - rlx_length_of f.fr_subtype)
            % 2 ^ 64
            % 2 ^ (8 * n))
          four in
    let sum : f.fr_address + (f.fr_fix + rlx_length_of f.fr_subtype)
        ≡ f.fr_address + f.fr_fix + rlx_length_of f.fr_subtype =
      omega arith in
    (
      change.place,
      rw four at change.ends,
      rw (same, d, sum)
          (exact (f.fr_address + f.fr_fix) (f.symbol_value + f.fr_offset) _
            (rlx_length_of f.fr_subtype) (rlx_length_le f.fr_subtype state) refl
            (ground (arith, four, near'))),
    )
