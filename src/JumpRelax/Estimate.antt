-- ===== src/JumpRelax/Estimate.antt =====
-- src/tc-i386.c: what `md_estimate_size_before_relax` returns, and the fixups that it queues.
use mao.Prelude.{
  ℕ, ◌+◌, ◌-◌, ◌<◌, ◌≡◌, refl, ap, Bool, true, false, not, ◌&&◌, [], ◌∷◌, ◌++◌, Option, some, none,
  arith, bit_or, ◌==◌, if◌then◌else◌,
}
use mao.JumpRelax.{
  Reloc, Fixup, JumpFrag, md_relax_table, big, uncond_jump, is_none, reloc_type_of,
  type_from_relax_state, rlx_length_of, widen_uncond, branch_past, keep_byte, widen_cond, fix_jump,
  md_estimate_size_before_relax,
}
use mao.JumpRelax.Bytes.{states}

-- The length of a jump that is fixed at once: the longest form, unless conditional jumps are not to be
-- promoted.
unfoldable pub fixed_length : Bool → JumpFrag → ℕ
fixed_length no_cond_jump_promotion f =
    if not (type_from_relax_state f.fr_subtype == uncond_jump)
      && (no_cond_jump_promotion && is_none f.fr_var)
    then 1
    else rlx_length_of (bit_or f.fr_subtype big)

-- What fixing a jump gives: a fragment of that length, and one more fixup, which ends where the fragment ends.
record Fixed (no_cond_jump_promotion : Bool) (f : JumpFrag) : Type 0 where
  pub frag : JumpFrag
  pub fixup : Fixup
  pub returns : fix_jump no_cond_jump_promotion f ≡ some frag
  pub length_is : frag.fr_fix ≡ f.fr_fix + fixed_length no_cond_jump_promotion f
  pub queued : frag.fixups ≡ f.fixups ++ fixup ∷ []
  pub ends : fixup.where_ + fixup.size ≡ frag.fr_fix

-- One more fixup, whose bytes end where the fragment ends
abbrev pub QueuesLast : JumpFrag → JumpFrag → Type 0
QueuesLast f f' = (x : Fixup) × (f'.fixups ≡ f.fixups ++ x ∷ []) × (x.where_ + x.size ≡ f'.fr_fix)

module _ {ℓ} (P : Bool → Option Reloc → Type ℓ) where
  split :
      P false none
      → ((r : Reloc) → P false (some r))
      → P true none
      → ((r : Reloc) → P true (some r))
      → (b : Bool) (v : Option Reloc) → P b v
  split a b c d false none = a
  split a b c d false (some r) = b r
  split a b c d true none = c
  split a b c d true (some r) = d r

module _ (f : JumpFrag) where
  abbrev at : ℕ → Option Reloc → JumpFrag
  at s v = record f { fr_subtype = s; fr_var = v }

  abbrev Fixes : ℕ → Type 0
  Fixes s = (b : Bool) (v : Option Reloc) → Fixed b (at s v)

  wide :
      {b : Bool} {v : Option Reloc} {s : ℕ} (size : ℕ)
      → fix_jump b (at s v) ≡ some (widen_cond size (reloc_type_of v size) (at s v))
      → 1 + size ≡ fixed_length b (at s v)
      → Fixed b (at s v)
  unfolding widen_cond
  wide size r l = record {
    frag = _;
    fixup = _;
    returns = r;
    length_is = ap (λ (n : ℕ). f.fr_fix + n) l;
    queued = refl;
    ends = omega arith;
  }

  past :
      {b : Bool} {v : Option Reloc} {s : ℕ}
      → fix_jump b (at s v) ≡ some (branch_past (reloc_type_of v 2) (at s v))
      → 4 ≡ fixed_length b (at s v)
      → Fixed b (at s v)
  unfolding branch_past
  past r l = record {
    frag = _;
    fixup = _;
    returns = r;
    length_is = ap (λ (n : ℕ). f.fr_fix + n) l;
    queued = refl;
    ends = omega arith;
  }

  kept :
      {b : Bool} {v : Option Reloc} {s : ℕ}
      → fix_jump b (at s v) ≡ some (keep_byte (at s v))
      → 1 ≡ fixed_length b (at s v)
      → Fixed b (at s v)
  unfolding keep_byte
  kept r l = record {
    frag = _;
    fixup = _;
    returns = r;
    length_is = ap (λ (n : ℕ). f.fr_fix + n) l;
    queued = refl;
    ends = refl;
  }

  fixes : (s : ℕ) → s < 12 → Fixes s
  unfolding fix_jump fixed_length rlx_length_of md_relax_table widen_uncond
  fixes =
      states Fixes
        (λ b v. record {
          frag = _;
          fixup = _;
          returns = refl;
          length_is = refl;
          queued = refl;
          ends = refl;
        })
        (λ b v. record {
          frag = _;
          fixup = _;
          returns = refl;
          length_is = refl;
          queued = refl;
          ends = refl;
        })
        (λ b v. record {
          frag = _;
          fixup = _;
          returns = refl;
          length_is = refl;
          queued = refl;
          ends = refl;
        })
        (λ b v. record {
          frag = _;
          fixup = _;
          returns = refl;
          length_is = refl;
          queued = refl;
          ends = refl;
        })
        (split (λ b v. Fixed b (at 4 v)) (wide 4 refl refl) (λ r. wide 4 refl refl) (kept refl refl)
          (λ r. wide 4 refl refl))
        (split (λ b v. Fixed b (at 5 v)) (wide 2 refl refl) (λ r. wide 2 refl refl) (kept refl refl)
          (λ r. wide 2 refl refl))
        (split (λ b v. Fixed b (at 6 v)) (wide 4 refl refl) (λ r. wide 4 refl refl) (kept refl refl)
          (λ r. wide 4 refl refl))
        (split (λ b v. Fixed b (at 7 v)) (wide 2 refl refl) (λ r. wide 2 refl refl) (kept refl refl)
          (λ r. wide 2 refl refl))
        (split (λ b v. Fixed b (at 8 v)) (wide 4 refl refl) (λ r. wide 4 refl refl) (kept refl refl)
          (λ r. wide 4 refl refl))
        (split (λ b v. Fixed b (at 9 v)) (past refl refl) (λ r. past refl refl) (kept refl refl)
          (λ r. past refl refl))
        (split (λ b v. Fixed b (at 10 v)) (wide 4 refl refl) (λ r. wide 4 refl refl)
          (kept refl refl) (λ r. wide 4 refl refl))
        (split (λ b v. Fixed b (at 11 v)) (past refl refl) (λ r. past refl refl) (kept refl refl)
          (λ r. past refl refl))

  -- For a state of the table `md_estimate_size_before_relax` returns: a jump that stays variable grows by
  -- the length of its state and keeps its fragment; a jump that is fixed at once grows by the length of
  -- its longest form (by 1 where conditional jumps are not promoted and it has no relocation), which is
  -- added to the fragment, gets one more fixup, whose bytes end where the fragment ends, and is waned.
  pub md_estimate_size_before_relax_lem :
      (fixed no_cond_jump_promotion : Bool)
      → f.fr_subtype < 12
      → (f' : JumpFrag) × (growth : ℕ) × (md_estimate_size_before_relax fixed no_cond_jump_promotion
            f
          ≡ some (f', growth))
        × (growth
            ≡ (if fixed then fixed_length no_cond_jump_promotion f else rlx_length_of f.fr_subtype))
        × (f'.fr_fix ≡ f.fr_fix + (if fixed then growth else 0))
        × (f'.waned ≡ (if fixed then true else f.waned))
        × (if fixed then QueuesLast f f' else (f' ≡ f))
  unfolding md_estimate_size_before_relax
  md_estimate_size_before_relax_lem false promo state =
      (f, rlx_length_of f.fr_subtype, refl, refl, omega arith, refl, refl)
  md_estimate_size_before_relax_lem true promo state =
      let fixed = fixes f.fr_subtype state promo f.fr_var in
      let growth : fixed.frag.fr_fix - f.fr_fix ≡ fixed_length promo f =
        omega (arith, fixed.length_is) in
      (
        record fixed.frag { waned = true },
        fixed.frag.fr_fix - f.fr_fix,
        rw fixed.returns,
        growth,
        omega (arith, growth, fixed.length_is),
        refl,
        (fixed.fixup, fixed.queued, fixed.ends),
      )
