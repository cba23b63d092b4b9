-- ===== src/Relax/Effect.antt =====
-- src/MaoRelax.cc: what the case of an entry in `BuildFragments` does to the sizes and the fragments.
use mao.Prelude.{
  ℕ, ◌+◌, ◌*◌, ◌%◌, ◌^◌, ◌≡◌, refl, Bool, true, false, ◌&&◌, ◌||◌, Option, none, some, List, [],
  ◌∷◌, ◌++◌, arith, length, ltb, ◌==◌, if◌then◌else◌,
}
use mao.Prelude.Checked.{Checked, ◌>>◌, mao_assert}
use mao.InstructionSize.{size_of_instruction}
use mao.Relax.Frag.{
  ExpressionS, is_constant, is_big, SymbolS, rs_space, make_expr_symbol, RelaxStateT, Frag,
}
use mao.Relax.Entry.{
  Opcode, Operand, string_operand, int_operand, expression, InstructionEntry, MaoEntry,
}
use mao.Relax.Build.{
  sign_extend, Build, put, value_or_zero, size_at, set_size, add_fix, set_relax, frag_var,
  build_instruction, build_align, needs_bignum, to_bignum, build_leb_value, known_size,
  end_fragment_instruction, end_fragment_align, end_fragment_leb128,
}
use mao.Relax.Directives.{
  Step, keeping, build_leb128, build_data, handle_string, handle_space, handle_fill,
  build_directive, increment, string_size,
}
use mao.Prelude.Holds.{Holds, Holds-if, Holds-bind}

-- The sizes behind the case of an entry: that of the entry, and the others as before.
abbrev pub Sized : ℕ → ℕ → Build → Build → Type 0
Sized entry size b b' =
    (j : ℕ) → size_at b'.size_map j ≡ (if j == entry then size else size_at b.size_map j)

-- The two ways in which the case of an entry of `size` bytes may leave the fragments: it adds to the one
-- that is being filled, or it also ends it, enters it in the relax map, and starts another.
pub data Effect (entry : ℕ) (b b' : Build) : Type 0 where
  stays :
      (size : ℕ)
      → Sized entry size b b'
      → b'.frag.fr_fix % 2 ^ 32 ≡ (b.frag.fr_fix + size) % 2 ^ 32
      → b'.ended ≡ b.ended
      → b'.relax_map ≡ b.relax_map
      → Effect entry b b'
  ends :
      (size : ℕ) (f : Frag)
      → Sized entry size b b'
      → f.fr_fix % 2 ^ 32 ≡ (b.frag.fr_fix + size) % 2 ^ 32
      → b'.ended ≡ b.ended ++ f ∷ []
      → b'.frag.fr_fix ≡ 0
      → b'.relax_map ≡ put b.relax_map (length b.ended) entry
      → Effect entry b b'

pub value_if :
    (t : Bool) (v : ℕ) (o : Option ℕ)
    → value_or_zero (if t then some v else o) ≡ (if t then v else value_or_zero o)
value_if true v o = refl
value_if false v o = refl

module _ (entry : ℕ) (b : Build) where
  put-Sized : (n : ℕ) → Sized entry (n % 2 ^ 32) b (set_size entry n b)
  put-Sized n j = value_if (j == entry) (n % 2 ^ 32) (b.size_map j)

  grown : (n m : ℕ) → m % 2 ^ 32 ≡ n % 2 ^ 32 → Effect entry b (set_size entry n (add_fix m b))
  grown n m e = stays (n % 2 ^ 32) (put-Sized n) (omega (arith, e)) refl refl

  empty : Effect entry b (set_size entry 0 b)
  empty = stays 0 (put-Sized 0) (omega arith) refl refl

  -- A case that ends the fragment, after the size was set and added
  ended_with :
      (n : ℕ) (type : RelaxStateT) (var subtype : ℕ) (symbol : SymbolS) (offset : ℕ)
      (opcode : Option ℕ)
      → Effect entry b (
          frag_var type var subtype symbol offset opcode
            (set_relax entry (set_size entry n (add_fix n b))))
  unfolding frag_var
  ended_with n type var subtype symbol offset opcode =
      ends (n % 2 ^ 32) _ (put-Sized n) (omega arith) refl refl refl

  ended_empty :
      (type : RelaxStateT) (var subtype : ℕ) (symbol : SymbolS) (offset : ℕ) (opcode : Option ℕ)
      → Effect entry b
          (frag_var type var subtype symbol offset opcode (set_relax entry (set_size entry 0 b)))
  unfolding frag_var
  ended_empty type var subtype symbol offset opcode =
      ends 0 _ (put-Sized 0) (omega arith) refl refl refl

  abbrev pub Effects : Checked Build → Type 0
  Effects = Holds (Effect entry b)

  known : (m : Option ℕ) → Effects (known_size entry m b)
  known m = Holds-bind (Effect entry b) m _ (λ n. grown n n refl)

  pub instruction_effect :
      (cpui386 : Bool) (i : InstructionEntry) → Effects (build_instruction cpui386 entry i b)
  unfolding build_instruction end_fragment_instruction
  instruction_effect cpui386 i =
      Holds-bind (Effect entry b) (size_of_instruction i.flag i.instruction) _ (λ (size, variable).
        Holds-if (Effect entry b) variable _ _
          (Holds-bind (Effect entry b) (mao_assert i.instruction.jump) _
            (λ _. ended_with size _ _ _ _ _ _))
          (grown size size refl))

  asserted_grown :
      (t : Bool) (n : ℕ) → Effects (mao_assert t >> some (set_size entry n (add_fix n b)))
  asserted_grown true n = grown n n refl
  asserted_grown false n = tt

  asserted_ended :
      (t : Bool) (type : RelaxStateT) (var subtype : ℕ) (symbol : SymbolS)
      → Effects (
          mao_assert t
          >> some (frag_var type var subtype symbol 0 none (set_relax entry (set_size entry 0 b))))
  asserted_ended true type var subtype symbol = ended_empty type var subtype symbol 0 none
  asserted_ended false type var subtype symbol = tt

  align_effect : (operands : List Operand) → Effects (build_align entry operands b)
  unfolding build_align end_fragment_align
  align_effect (int_operand a ∷ fill ∷ int_operand m ∷ []) = ended_empty _ _ _ _ _ _
  align_effect _ = tt

  string_effect :
      (multiplier : ℕ) (null_terminate : Bool) (operands : List Operand)
      → Effects (handle_string entry multiplier null_terminate operands b)
  unfolding handle_string sign_extend
  string_effect multiplier null_terminate (string_operand str ∷ []) =
      let size = string_size multiplier null_terminate str in
      grown size (sign_extend size) (ground arith)
  string_effect multiplier null_terminate _ = tt

  space_effect : (mult : ℕ) (operands : List Operand) → Effects (handle_space entry mult operands b)
  unfolding handle_space
  space_effect mult (expression size ∷ fill ∷ []) =
      Holds-if (Effect entry b) (is_constant size) _ _
        (asserted_grown (ltb 0 (increment mult size) && ltb (increment mult size) (2 ^ 31))
          (increment mult size))
        (asserted_ended ((mult == 0) || (mult == 1)) rs_space 1 0 (make_expr_symbol size))
  space_effect mult _ = tt

  -- A change of `generic_bignum` alone does not count.
  moved :
      (g : List ℕ) (m : Checked Build)
      → Holds (Effect entry (record b { generic_bignum = g })) m
      → Effects m
  moved g none h = tt
  moved g (some b') (stays n s f e r) = stays n s f e r
  moved g (some b') (ends n x s f e z r) = ends n x s f e z r

  abbrev pub StepEffects : Step → Type 0
  StepEffects = Holds (λ (r : MaoEntry × Build). Effect entry b r.1)

  asserted_step : (t : Bool) (s : Step) → StepEffects s → StepEffects (mao_assert t >> s)
  asserted_step true s h = h
  asserted_step false s h = tt

  pub kept : (e : MaoEntry) (m : Checked Build) → Effects m → StepEffects (keeping e m)
  kept e none h = tt
  kept e (some b') h = h

  fill_effect : (operands : List Operand) → StepEffects (handle_fill entry operands b)
  unfolding handle_fill
  fill_effect (expression repeat_exp ∷ int_operand size ∷ value ∷ []) =
      asserted_step (ltb 0 size && ltb size (2 ^ 31)) _ (
        Holds-if (λ (r : MaoEntry × Build). Effect entry b r.1) (is_constant repeat_exp) _ _
          (grown (size * repeat_exp.x_add_number % 2 ^ 64) (size * repeat_exp.x_add_number % 2 ^ 64)
            refl)
          (ended_empty _ _ _ _ _ _))
  fill_effect _ = tt

leb_value_effect :
    (entry : ℕ) (b : Build) (is_signed : Bool) (e : ExpressionS)
    → Effects entry b (build_leb_value entry is_signed e b)
unfolding build_leb_value end_fragment_leb128
leb_value_effect entry b is_signed e =
    Holds-if (Effect entry b) (is_constant e) _ _ (known entry b _)
      (Holds-if (Effect entry b) (is_big e) _ _ (known entry b _) (ended_empty entry b _ _ _ _ _ _))

leb_pick :
    (entry : ℕ) (b : Build) (is_signed : Bool) (e : ExpressionS) (t : Bool)
    → (let changed : ExpressionS × Build = if t then to_bignum e b else (e, b) in
        Effects entry b (build_leb_value entry is_signed changed.0 changed.1))
unfolding to_bignum
leb_pick entry b is_signed e true = moved entry b _ _ (leb_value_effect entry _ is_signed _)
leb_pick entry b is_signed e false = leb_value_effect entry b is_signed e

leb_effect :
    (entry : ℕ) (b : Build) (op : Opcode) (is_signed : Bool) (operands : List Operand)
    → StepEffects entry b (build_leb128 entry op is_signed operands b)
unfolding build_leb128
leb_effect entry b op is_signed (expression e ∷ []) =
    kept entry b _ _ (leb_pick entry b is_signed e (needs_bignum is_signed e))
leb_effect entry b op is_signed _ = tt

-- The opcodes whose size goes into the map, but not into the fragment
unfoldable pub is_float : Opcode → Bool
is_float op = elim op [ Opcode.dc_d ↦ true | Opcode.dc_s ↦ true | Opcode.dc_x ↦ true | _ ↦ false ]

pub directive_effect :
    (entry : ℕ) (b : Build) (op : Opcode) (operands : List Operand)
    → is_float op ≡ false
    → StepEffects entry b (build_directive entry op operands b)
unfolding build_directive build_data is_float
directive_effect entry b Opcode.p2align operands h =
    kept entry b _ _ (align_effect entry b operands)
directive_effect entry b Opcode.p2alignw operands h =
    kept entry b _ _ (align_effect entry b operands)
directive_effect entry b Opcode.p2alignl operands h =
    kept entry b _ _ (align_effect entry b operands)
directive_effect entry b Opcode.sleb128 operands h = leb_effect entry b _ true operands
directive_effect entry b Opcode.uleb128 operands h = leb_effect entry b _ false operands
directive_effect entry b Opcode.byte operands h = grown entry b 1 1 refl
directive_effect entry b Opcode.word operands h = grown entry b 2 2 refl
directive_effect entry b Opcode.rva operands h = grown entry b 4 4 refl
directive_effect entry b Opcode.long operands h = grown entry b 4 4 refl
directive_effect entry b Opcode.quad operands h = grown entry b 8 8 refl
directive_effect entry b Opcode.ascii operands h =
    kept entry b _ _ (string_effect entry b 1 false operands)
directive_effect entry b Opcode.string8 operands h =
    kept entry b _ _ (string_effect entry b 1 true operands)
directive_effect entry b Opcode.string16 operands h =
    kept entry b _ _ (string_effect entry b 2 true operands)
directive_effect entry b Opcode.string32 operands h =
    kept entry b _ _ (string_effect entry b 4 true operands)
directive_effect entry b Opcode.string64 operands h =
    kept entry b _ _ (string_effect entry b 8 true operands)
directive_effect entry b Opcode.space operands h =
    kept entry b _ _ (space_effect entry b 0 operands)
directive_effect entry b Opcode.ds_b operands h = kept entry b _ _ (space_effect entry b 1 operands)
directive_effect entry b Opcode.ds_w operands h = kept entry b _ _ (space_effect entry b 2 operands)
directive_effect entry b Opcode.ds_l operands h = kept entry b _ _ (space_effect entry b 4 operands)
directive_effect entry b Opcode.ds_d operands h = kept entry b _ _ (space_effect entry b 8 operands)
directive_effect entry b Opcode.ds_x operands h =
    kept entry b _ _ (space_effect entry b 12 operands)
directive_effect entry b Opcode.fill operands h = fill_effect entry b operands
directive_effect entry b Opcode.dc_d operands h = cc h
directive_effect entry b Opcode.dc_s operands h = cc h
directive_effect entry b Opcode.dc_x operands h = cc h
directive_effect entry b Opcode.org operands h = tt
directive_effect entry b Opcode.struct operands h = tt
directive_effect entry b Opcode.incbin operands h = tt
directive_effect entry b Opcode.subsection operands h = tt
directive_effect entry b Opcode.eqv operands h = tt
directive_effect entry b Opcode.num_opcodes operands h = tt
directive_effect entry b _ operands h = empty entry b
