-- ===== src/ReachingDefs.antt =====
-- src/MaoReachingDefs.h and src/MaoReachingDefs.cc: class `ReachingDefs`, so far its two searches
-- through a basic block: the registers that a block defines, and the instruction that defines one.
-- An entry is that of Liveness: an instruction with its masks, or a label or directive.
pub mod Block
mod Examples
use mathlib.Core.List.{reverse}
use mao.Prelude.{ℕ, Bool, true, false, List, [], ◌∷◌, Option, some, none, if◌then◌else◌}
use mao.Prelude.Checked.{Checked, ◌>>=◌}
use mao.BitString.{BitString, init_obj, union, get}
use mao.Liveness.{Entry, instruction, other}

-- The loop of `GetDefs`, from the first entry to the last
unfoldable pub defs_loop : BitString → List Entry → Checked BitString
defs_loop defined [] = some defined
defs_loop defined (other ∷ es) = defs_loop defined es
defs_loop defined (instruction _ def_mask _ ∷ es) = do
  defined' ← union defined def_mask
  defs_loop defined' es

-- `GetDefs`; a `BitString` that is declared without arguments has 256 bits.
unfoldable pub get_defs : List Entry → Checked BitString
get_defs bb = do defined ← init_obj 256; defs_loop defined bb

-- The loop of `GetDefiningInstruction`, from the last entry to the first; `none` inside is NULL.
unfoldable pub defining_loop : ℕ → List Entry → Checked (Option ℕ)
defining_loop reg_number [] = some none
defining_loop reg_number (other ∷ es) = defining_loop reg_number es
defining_loop reg_number (instruction address def_mask _ ∷ es) =
    let rest = defining_loop reg_number es in
    get reg_number def_mask >>= λ found. if found then some (some address) else rest

-- `GetDefiningInstruction`: the entries are those of the block from its first one to `start_entry`.
unfoldable pub get_defining_instruction : ℕ → List Entry → Checked (Option ℕ)
get_defining_instruction reg_number entries = defining_loop reg_number (reverse entries)
