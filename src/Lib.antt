-- ===== src/Lib.antt =====
-- MAO, an optimizer of x86 assembly code: a model of the parts that decide what its passes may do.
--
-- The program reads assembly text with a modified assembler (src/read.c, src/tc-i386.c and others),
-- which hands every instruction, label and directive to a unit of linked entries. Passes build the
-- control flow graph of a function, solve data flow problems over it, ask for sizes and offsets, edit
-- the entries, and print the unit.
--
-- Files:
--   Prelude      what the other files share: Boolean tests, lists with default elements, code that may
--                stop at a failed `MAO_ASSERT` (Prelude/Checked, Prelude/Holds), binary digits (Prelude/Bits).
--   BitString    src/MaoUtil.h, class `BitString`: `word_` is the list `word`, `number_of_bits_` is
--                `number_of_bits`. Each method is a function of the same name: `Set` is `set`, the
--                operators `|`, `&`, `-`, `~` and `==` are `union`, `intersect`, `minus`, `complement`
--                and `equals`, and `NextSetBit` is `next_set_bit`.
--   DataFlow     src/MaoDataFlow.h and src/MaoDataFlow.cc, class `DFProblem`: `solve` is `Solve`; its
--                loops are `initialize`, `iterate`, `round` and `visit`. The virtual functions of the
--                class are fields of the record `DfProblem`.
--   Liveness     src/MaoLiveness.h and src/MaoLiveness.cc: `problem` fills in those fields, with the
--                sets of `create_gen_set` and `create_kill_set`; `get_live` is `GetLive`.
--   ReachingDefs src/MaoReachingDefs.cc, the searches `GetDefs` and `GetDefiningInstruction` through
--                a basic block.
--   Leb128       src/read.c: `sizeof_leb128` and `output_leb128` for the `.uleb128` and `.sleb128`
--                directives, and in Leb128/Big `output_big_leb128` and `convert_to_bignum` for wider values; the relaxer
--                (src/MaoRelax.cc) asks for the sizes.
--   SymbolTable  src/SymbolTable.h and src/SymbolTable.cc, the symbols by name: `find` is `Find`, and
--                `find_or_create_and_find` is `FindOrCreateAndFind`.
--   InstructionSize  src/Maoi386Size.cc and src/tc-i386-helper.h, class `X86InstructionSizeHelper`, with
--                its methods under their names: `size_of_instruction` is `SizeOfInstruction`.
--   JumpRelax    src/tc-i386.c: the table of jumps of variable length, `md_estimate_size_before_relax`
--                and `md_convert_frag`, which the relaxation of a section calls for every jump.
--   Relax        src/MaoRelax.h and src/MaoRelax.cc, class `MaoRelaxer`: `build_fragments` is
--                `BuildFragments`, with a function for each case of its `switch` statements, and `go` is `Go`.
--                Relax/Frag has the expressions of src/expr.h and src/expr.c, Relax/Entry the entries of
--                src/MaoEntry.h. It calls InstructionSize, Leb128 and SymbolTable, and its jumps are
--                those of JumpRelax.
--   Immediate    src/tc-i386.c: `smallest_imm_type`, the `fits_in_` functions that it calls, and
--                `mode_from_disp_size`.
--   Prefix       src/tc-i386.c: `add_prefix`, the prefixes whose number of bytes InstructionSize counts.
--   Entries      src/MaoEntry.cc: the list of entries, with `Unlink`, `GetLastEntry`, `LinkBefore` and
--                `LinkAfter` under their names, and the ranges of functions (src/MaoFunction.h) and
--                subsections (src/MaoSection.cc) that follow. The fields are functions of an address.
--   Loops        src/MaoLoops.cc: `FindSet` and `Union` of the nodes are `find_set` and `union_with`, `DFS`
--                is `dfs` and `IsAncestor` is `is_ancestor`. A node is its number.
--   MaoUnit      src/MaoUnit.cc: `DeleteEntry` is `delete_entry`, with a function for each of its steps
--                from the third on.
--
-- The result `none` is a failed assertion, at which the program aborts, a use of `NULL`, or lack
-- of fuel. Fuel: the loop of `Solve` has the program's own bound of 1000 iterations, behind which an assertion
-- fails; the LEB128 loops have ten rounds, as 64 bits are ten groups of seven at most, and on a bignum one
-- round for every seven bits and one to leave; the counting
-- loop of `NumOfBitsSet` has 65 rounds a word, one for each bit and one to leave; the inner loop of
-- `output_big_sleb128` has three rounds at most; the passes of `Go` end with those of `relax_segment`;
-- `FindSet` goes up to smaller numbers; `DFS` has one level for each block, and `GetLastEntry` one
-- round for each entry of the chain.
--
-- An array of 64-bit words is a list of numbers below 2 ^ 64; `~w` is `2 ^ 64 - 1 - w`. A basic block
-- or an entry is known by its address, a number. The order of `std::set<BitString *>` is that of
-- the addresses, a function of the model.
--
-- Not modelled: what the build generates (register and opcode tables), so an instruction comes with
-- its register masks; output, options and the command line; how the unit is built; the index maps
-- and queries of `ReachingDefs`, the control flow graph, the steps b to e of the loop recognition and
-- the plugins. Three assertions on what the model does not keep are left out: that of `Go` on the section
-- of the object file, that of `GetLive` that the problem is solved, and that of `GetSection`, which
-- `DeleteEntry` calls, that the function has a subsection.
pub mod Prelude
pub mod BitString
pub mod DataFlow
pub mod Liveness
pub mod ReachingDefs
pub mod Leb128
pub mod SymbolTable
pub mod InstructionSize
pub mod JumpRelax
pub mod Relax
pub mod Entries
pub mod Loops
pub mod MaoUnit
pub mod Immediate
pub mod Prefix
