-- ===== src/Relax.antt =====
-- src/MaoRelax.h and src/MaoRelax.cc: the sizes and the offsets of the entries of a section.
pub mod Frag
pub mod Entry
pub mod Build
pub mod Directives
pub mod Go
pub mod Effect
pub mod Labels
pub mod Sums
pub mod Update
pub mod Ledger
pub mod Chain
pub mod Offsets
pub mod Result
pub mod Opcodes
pub mod Jumps
mod Examples
