-- ===== src/Liveness.antt =====
-- src/MaoLiveness.h and src/MaoLiveness.cc: class `Liveness`, the registers that are live behind a
-- basic block or an instruction. `GetRegisterDefMask` and `GetRegisterUseMask` read tables that the
-- build generates, so an instruction comes with its two masks. `GetLive` takes the set of the block as an
-- argument, so its assertion that the problem is solved is left out.
pub mod Block
pub mod Spec
mod Examples
use mathlib.Core.List.{reverse}
use mao.Prelude.{
  ℕ, ◌≡◌, Bool, true, false, List, [], ◌∷◌, some, none, ◌==◌, if◌then◌else◌, replicate,
}
use mao.Prelude.Checked.{Checked, ◌>>=◌, ◌>>◌, mao_assert}
use mao.BitString.{BitString, init_obj}
use mao.DataFlow.{Cfg, DfProblem, Maps, df_backward, transfer, union_all, get_out_set}

-- An entry of a basic block: an instruction, known by its address, or a label or directive.
pub data Entry : Type 0 where
  instruction : (address : ℕ) (def_mask use_mask : BitString) → Entry
  other : Entry

-- `num_bits_`, hardcoded in the constructor
abbrev pub num_bits : ℕ
num_bits = 256

-- The loop of `CreateGenSet`, over the entries from the last to the first
unfoldable pub gen_loop : BitString → List Entry → Checked BitString
gen_loop current_set [] = some current_set
gen_loop current_set (other ∷ es) = gen_loop current_set es
gen_loop current_set (instruction _ def_mask use_mask ∷ es) = do
  current' ← transfer current_set use_mask def_mask
  gen_loop current' es

-- `CreateGenSet`
unfoldable pub create_gen_set : List Entry → Checked BitString
create_gen_set bb = do current_set ← init_obj num_bits; gen_loop current_set (reverse bb)

-- The loop of `CreateKillSet`
unfoldable pub kill_loop : BitString → List Entry → Checked BitString
kill_loop current_set [] = some current_set
kill_loop current_set (other ∷ es) = kill_loop current_set es
kill_loop current_set (instruction _ def_mask use_mask ∷ es) = do
  current' ← transfer current_set def_mask use_mask
  kill_loop current' es

-- `CreateKillSet`
unfoldable pub create_kill_set : List Entry → Checked BitString
create_kill_set bb = do current_set ← init_obj num_bits; kill_loop current_set (reverse bb)

-- The loop of `GetLive`, which stops at the instruction `insn`
unfoldable pub live_loop : ℕ → BitString → List Entry → Checked BitString
live_loop insn current_set [] = some current_set
live_loop insn current_set (other ∷ es) = live_loop insn current_set es
live_loop insn current_set (instruction address def_mask use_mask ∷ es) =
    let rest = transfer current_set use_mask def_mask >>= λ current'. live_loop insn current' es in
    if address == insn then some current_set else rest

-- `GetLive`, with the set that `GetOutSet` returns
unfoldable pub get_live : BitString → List Entry → ℕ → Checked BitString
get_live out_set bb insn = live_loop insn out_set (reverse bb)

-- The data flow problem of a function: its graph, and the entries of its blocks with the sets
-- computed for them.
abbrev pub problem : Cfg → (ℕ → ℕ) → (gen kill : ℕ → BitString) → DfProblem
problem cfg address gen kill = record {
  cfg = cfg;
  direction = df_backward;
  num_bits = num_bits;
  create_gen_set = gen;
  create_kill_set = kill;
  get_initial_entry_state = record { word = replicate 4 0; number_of_bits = num_bits };
  confluence = union_all;
  address = address;
}
