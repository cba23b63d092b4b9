-- ===== src/JumpRelax/Convert.antt =====
-- What `md_convert_frag` (src/tc-i386.c) writes: as many bytes as the relaxation table promised, and a
-- displacement that leads to the target.
use mao.Prelude.Lists
use native.Mathlib.Nat.{zero-mod}
use mao.Prelude.{
  ℕ, ◌+◌, ◌-◌, ◌*◌, ◌%◌, ◌^◌, ◌≤◌, ◌<◌, ◌≡◌, refl, ◌∙◌, ap, ◌⊎◌, inl, inr, Bool, false, List, some,
  arith, if◌then◌else◌, length, Bool-cases, length-set,
}
use mao.JumpRelax.{
  JumpFrag, Converted, md_relax_table, rlx_length_of, disp_size_from_relax_state,
  displacement_from_opcode_start, convert_opcode, put_displacement, md_convert_frag,
}
use mao.JumpRelax.Bytes.{states, le_value, read_at, IsLittleEndian, read_back}

-- The change that `convert_opcode` makes in a state: the bytes of the table, of which the last ones are
-- the displacement, in a buffer of the same length.
pub record Changed (s : ℕ) (opcode : List ℕ) : Type 0 where
  pub place : ℕ
  pub opcode' : List ℕ
  pub returns : convert_opcode s opcode ≡ some (rlx_length_of s, place, opcode')
  pub ends : place + disp_size_from_relax_state s ≡ 1 + rlx_length_of s
  pub same_length : length opcode' ≡ length opcode
  pub size :
      (disp_size_from_relax_state s ≡ 1)
      ⊎ ((disp_size_from_relax_state s ≡ 2) ⊎ (disp_size_from_relax_state s ≡ 4))

module _ (opcode : List ℕ) where
  first : ℕ → List ℕ
  first b = Lists.set opcode 0 b

  short_change :
      (s : ℕ)
      → convert_opcode s opcode ≡ some (rlx_length_of s, 1, opcode)
      → disp_size_from_relax_state s ≡ 1
      → rlx_length_of s ≡ 1
      → Changed s opcode
  short_change s e d l = record {
    place = 1;
    opcode' = opcode;
    returns = e;
    ends = omega arith;
    same_length = refl;
    size = inl d;
  }

  pub changed : (s : ℕ) → s < 12 → Changed s opcode
  unfolding convert_opcode rlx_length_of md_relax_table disp_size_from_relax_state
  changed =
      states (λ s. Changed s opcode) (short_change 0 refl refl refl) (short_change 1 refl refl refl)
        (record {
          place = 1;
          opcode' = _;
          returns = refl;
          ends = refl;
          same_length = length-set opcode 0 _;
          size = inr (inr refl);
        })
        (record {
          place = 1;
          opcode' = _;
          returns = refl;
          ends = refl;
          same_length = length-set opcode 0 _;
          size = inr (inl refl);
        })
        (short_change 4 refl refl refl) (short_change 5 refl refl refl)
        (record {
          place = 2;
          opcode' = _;
          returns = refl;
          ends = refl;
          same_length = length-set _ 0 _ ∙ length-set opcode 1 _;
          size = inr (inr refl);
        })
        (record {
          place = 2;
          opcode' = _;
          returns = refl;
          ends = refl;
          same_length = length-set _ 0 _ ∙ length-set opcode 1 _;
          size = inr (inl refl);
        })
        (short_change 8 refl refl refl) (short_change 9 refl refl refl)
        (record {
          place = 2;
          opcode' = _;
          returns = refl;
          ends = refl;
          same_length = length-set _ 0 _ ∙ length-set opcode 1 _;
          size = inr (inr refl);
        })
        (record {
          place = 3;
          opcode' = _;
          returns = refl;
          ends = refl;
          same_length = length-set _ 2 _ ∙ length-set _ 1 _ ∙ length-set opcode 0 _;
          size = inr (inl refl);
        })

-- Where the next instruction stands and a displacement, cut to its size, lead.
reaches :
    (address value start extension disp_size : ℕ)
    → (disp_size ≡ 1) ⊎ ((disp_size ≡ 2) ⊎ (disp_size ≡ 4))
    → extension ≤ 5
    → start ≡ (value % 2 ^ 64 + 2 ^ 64 - address % 2 ^ 64) % 2 ^ 64
    → (address + extension + (start + 2 ^ 64 - extension) % 2 ^ 64 % 2 ^ (8 * disp_size))
        % 2 ^ (8 * disp_size)
      ≡ value % 2 ^ (8 * disp_size)
reaches address value start extension disp_size (inl one) le e = rw one (omega arith)
reaches address value start extension disp_size (inr (inl two)) le e = rw two (omega arith)
reaches address value start extension disp_size (inr (inr four)) le e = rw four (omega arith)

pub rlx_length_le : (s : ℕ) → s < 12 → rlx_length_of s ≤ 5
unfolding rlx_length_of md_relax_table
rlx_length_le =
    states (λ s. rlx_length_of s ≤ 5) (omega arith) (omega arith) (omega arith) (omega arith)
      (omega arith) (omega arith) (omega arith) (omega arith) (omega arith) (omega arith)
      (omega arith) (omega arith)

module _ (to_chars : ℕ → ℕ → List ℕ) (little : IsLittleEndian to_chars)
    (object_64bit no_cond_jump_promotion : Bool) (f : JumpFrag) (state : f.fr_subtype < 12)
    (room : rlx_length_of f.fr_subtype < length f.opcode) where
  abbrev pub change : Changed f.fr_subtype f.opcode
  change = changed f.opcode f.fr_subtype state

  abbrev pub result : Converted
  result =
      put_displacement to_chars object_64bit no_cond_jump_promotion f
        (rlx_length_of f.fr_subtype, change.place, change.opcode')

  abbrev disp_size : ℕ
  disp_size = disp_size_from_relax_state f.fr_subtype

  -- The displacement in the bytes of the result.
  abbrev displacement : ℕ
  displacement = le_value (read_at result.frag.opcode change.place disp_size)

  displacement_lem :
      displacement
      ≡ (if result.out_of_range
          then 0
          else (displacement_from_opcode_start f + 2 ^ 64 - rlx_length_of f.fr_subtype) % 2 ^ 64)
        % 2 ^ (8 * disp_size)
  unfolding put_displacement
  displacement_lem =
      let written : ℕ =
        (if result.out_of_range
          then 0
          else (displacement_from_opcode_start f + 2 ^ 64 - rlx_length_of f.fr_subtype) % 2 ^ 64) in
      ap le_value (
        read_back change.opcode' change.place disp_size (to_chars written disp_size)
          (little.length_is written disp_size) (omega (arith, change.ends, change.same_length)))
      ∙ little.value_is written disp_size

  pub displacement_near :
      result.out_of_range ≡ false
      → displacement
        ≡ (displacement_from_opcode_start f + 2 ^ 64 - rlx_length_of f.fr_subtype)
          % 2 ^ 64
          % 2 ^ (8 * disp_size)
  displacement_near near =
      displacement_lem
      ∙ ap
          (λ (b : Bool).
            (if b
              then 0
              else (displacement_from_opcode_start f + 2 ^ 64 - rlx_length_of f.fr_subtype)
                % 2 ^ 64)
            % 2 ^ (8 * disp_size))
          near

  pub converts : md_convert_frag to_chars object_64bit no_cond_jump_promotion f ≡ some result
  unfolding md_convert_frag
  converts = rw change.returns

  grown : result.frag.fr_fix ≡ f.fr_fix + rlx_length_of f.fr_subtype
  unfolding put_displacement
  grown = refl

  leads :
      (f.fr_address + result.frag.fr_fix + displacement) % 2 ^ (8 * disp_size)
      ≡ (if result.out_of_range
          then f.fr_address + result.frag.fr_fix
          else f.symbol_value + f.fr_offset)
        % 2 ^ (8 * disp_size)
  unfolding displacement_from_opcode_start
  leads =
      let sum : f.fr_address + (f.fr_fix + rlx_length_of f.fr_subtype)
          ≡ f.fr_address + f.fr_fix + rlx_length_of f.fr_subtype =
        omega arith in
      elim (Bool-cases result.out_of_range) [
        | inl far ↦
            let d = rw far at displacement_lem in
            let nothing : displacement ≡ 0 = d ∙ zero-mod (2 ^ (8 * disp_size)) in
            rw (far, nothing) (ap (λ (n : ℕ). n % 2 ^ (8 * disp_size)) (omega arith))
        | inr near ↦
            let d = rw near at displacement_lem in
            rw (near, d, grown, sum)
              (reaches (f.fr_address + f.fr_fix) (f.symbol_value + f.fr_offset) _
                (rlx_length_of f.fr_subtype) disp_size change.size
                (rlx_length_le f.fr_subtype state) refl)
      ]

  -- For a state of the table, and a buffer with room for the bytes that the table promises, a
  -- `md_number_to_chars` that gives the low bytes of a number: `md_convert_frag` returns, the fragment
  -- grows by the length of the table, its last bytes are the displacement, and, unless the target is out
  -- of range, the displacement leads from the end of the fragment to the target, in the width of the
  -- displacement; out of range it is 0.
  pub md_convert_frag-reaches :
      (c : Converted) × (place : ℕ) × (md_convert_frag to_chars object_64bit no_cond_jump_promotion
          f
        ≡ some c)
      × (c.frag.fr_fix ≡ f.fr_fix + rlx_length_of f.fr_subtype)
      × (place + disp_size ≡ 1 + rlx_length_of f.fr_subtype)
      × ((f.fr_address + c.frag.fr_fix + le_value (read_at c.frag.opcode place disp_size))
            % 2 ^ (8 * disp_size)
          ≡ (if c.out_of_range then f.fr_address + c.frag.fr_fix else f.symbol_value + f.fr_offset)
            % 2 ^ (8 * disp_size))
  md_convert_frag-reaches = (result, change.place, converts, grown, change.ends, leads)
