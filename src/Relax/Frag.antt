-- ===== src/Relax/Frag.antt =====
-- The assembler's expressions and fragments, as the relaxer uses them: src/expr.h, `make_expr_symbol` of
-- src/expr.c, and `NewFragment` of src/MaoRelax.h. Numbers of 64 bits are patterns below 2 ^ 64.
use mao.Prelude.{ℕ, Bool, true, false, Option, none, List, ◌==◌, if◌then◌else◌, ◌&&◌}

-- `operatorT`; the machine dependent operators are numbered.
pub data OperatorT : Type 0 where
  o_illegal o_absent o_constant o_symbol o_symbol_rva o_register o_big o_uminus o_bit_not :
      OperatorT
  o_logical_not o_multiply o_divide o_modulus o_left_shift o_right_shift : OperatorT
  o_bit_inclusive_or o_bit_or_not o_bit_exclusive_or o_bit_and o_add o_subtract : OperatorT
  o_eq o_ne o_lt o_le o_ge o_gt o_logical_and o_logical_or o_index : OperatorT
  o_md : ℕ → OperatorT

-- `symbolS`: no symbol, one of the program, by name, or one that `make_expr_symbol` creates for the value
-- of an expression, with the fields of the expression.
pub data SymbolS : Type 0 where
  null : SymbolS
  named : List ℕ → SymbolS
  value_of :
      (x_add_symbol x_op_symbol : SymbolS) (x_add_number : ℕ) (x_op : OperatorT) (x_unsigned : Bool)
      → SymbolS

-- `expressionS`
pub record ExpressionS : Type 0 where
  pub x_add_symbol : SymbolS
  pub x_op_symbol : SymbolS
  pub x_add_number : ℕ
  pub x_op : OperatorT
  pub x_unsigned : Bool

-- `X_op == O_constant` and the like
abbrev pub is_constant : ExpressionS → Bool
is_constant e = elim e.x_op [ o_constant ↦ true | _ ↦ false ]

abbrev pub is_symbol : ExpressionS → Bool
is_symbol e = elim e.x_op [ o_symbol ↦ true | _ ↦ false ]

abbrev pub is_big : ExpressionS → Bool
is_big e = elim e.x_op [ o_big ↦ true | _ ↦ false ]

-- A constant expression: `zero` of `make_expr_symbol`, `size_exp` of `HandleFill`
abbrev pub constant : ℕ → ExpressionS
constant n = record {
  x_add_symbol = null;
  x_op_symbol = null;
  x_add_number = n;
  x_op = o_constant;
  x_unsigned = false;
}

-- `symbol_create` and `symbol_set_value_expression`
abbrev pub symbol_of : ExpressionS → SymbolS
symbol_of e = value_of e.x_add_symbol e.x_op_symbol e.x_add_number e.x_op e.x_unsigned

-- `make_expr_symbol`. A big number is reported, and counts as 0.
unfoldable pub make_expr_symbol : ExpressionS → SymbolS
make_expr_symbol e =
    if is_symbol e && (e.x_add_number == 0)
    then e.x_add_symbol
    else if is_big e
    then symbol_of (constant 0)
    else symbol_of e

-- `relax_stateT`, what a fragment of the relaxer can end in; `unset` is that of a new one.
pub data RelaxStateT : Type 0 where
  unset rs_align_code rs_leb128 rs_space rs_machine_dependent : RelaxStateT

-- `struct frag`. Its place in the chain is its place in a list. `fr_opcode` is the entry whose opcode
-- the fragment points at.
pub record Frag : Type 0 where
  pub fr_address : ℕ
  pub fr_fix : ℕ
  pub fr_var : ℕ
  pub fr_type : RelaxStateT
  pub fr_subtype : ℕ
  pub fr_symbol : SymbolS
  pub fr_offset : ℕ
  pub fr_opcode : Option ℕ

-- `NewFragment`
abbrev pub new_fragment : Frag
new_fragment = record {
  fr_address = 0;
  fr_fix = 0;
  fr_var = 0;
  fr_type = unset;
  fr_subtype = 0;
  fr_symbol = null;
  fr_offset = 0;
  fr_opcode = none;
}
