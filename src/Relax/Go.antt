-- ===== src/Relax/Go.antt =====
-- src/MaoRelax.cc: `Go` and the cache of its results. `relax_segment` belongs to the assembler's own files:
-- from the number of the pass, the chain and the opcodes of the instructions it makes a chain, opcodes,
-- and whether anything changed. Dumps and statistics are left out, and so is the lookup of the section by its
-- name in the object file, which belongs to the binary file library, with the assertion that it succeeds.
use mao.Prelude.{
  ℕ, zero, suc, ◌+◌, ◌-◌, ◌%◌, ◌^◌, Bool, true, false, not, Option, none, some, List, [], ◌∷◌,
  length, map, ◌==◌, if◌then◌else◌,
}
use mao.Prelude.Checked.{Checked, ◌>>=◌}
use mao.Relax.Frag.{Frag}
use mao.Relax.Entry.{MaoEntry}
use mao.Relax.Build.{sign_extend, EntryMap, put, size_at, Build, Context}
use mao.Relax.Directives.{build_fragments}

-- The opcodes of the instructions, by their entries: `fr_opcode` points at them.
abbrev pub Opcodes : Type 0
Opcodes = ℕ → ℕ

abbrev pub Relaxing : Type 0
Relaxing = ℕ → List Frag → Opcodes → List Frag × Opcodes × Bool

-- `SaveState`; a `FragState` holds the opcodes that the fragments point at, by the fragment.
unfoldable pub save_state : ℕ → List Frag → Opcodes → (ℕ → ℕ) → ℕ → ℕ
save_state k [] opcodes state = state
save_state k (f ∷ fragments) opcodes state =
    save_state (k + 1) fragments opcodes
      (elim f.fr_opcode [ none ↦ state | some e ↦ λ j. if j == k then opcodes e else state j ])

-- `RestoreState`
unfoldable pub restore_state : ℕ → List Frag → (ℕ → ℕ) → Opcodes → Opcodes
restore_state k [] state opcodes = opcodes
restore_state k (f ∷ fragments) state opcodes =
    restore_state (k + 1) fragments state
      (elim f.fr_opcode [ none ↦ opcodes | some e ↦ λ j. if j == e then state k else opcodes j ])

-- The loop over the passes
unfoldable pub relax_loop : Relaxing → ℕ → ℕ → List Frag → Opcodes → Option (List Frag × Opcodes)
relax_loop relax_segment zero pass fragments opcodes = none
relax_loop relax_segment (suc fuel) pass fragments opcodes =
    let (fragments', opcodes', change) = relax_segment pass fragments opcodes in
    let rest = relax_loop relax_segment fuel (pass + 1) fragments' opcodes' in
    if change then rest else some (fragments', opcodes')

-- `int`, a pattern of 32 bits
abbrev pub to_int : ℕ → ℕ
to_int n = n % 2 ^ 32

-- The difference of two patterns of 64 bits
abbrev pub difference : ℕ → ℕ → ℕ
difference a b = (a + (2 ^ 64 - b % 2 ^ 64)) % 2 ^ 64

-- `(*size_map_)[entry] += n`
abbrev pub add_size : ℕ → ℕ → EntryMap → EntryMap
add_size entry n sizes = put sizes entry (to_int (size_at sizes entry + n))

-- What a fragment adds to the size of the entry that ends it. The last test is the one on `fr_fix`, against
-- the `int` that `old_fr_fix` holds.
unfoldable pub update_size : Frag → Frag → ℕ → ℕ → EntryMap → EntryMap
update_size frag fr_next old entry sizes =
    let var_size =
      to_int (difference (difference fr_next.fr_address frag.fr_address) frag.fr_fix) in
    let sizes' = add_size entry var_size sizes in
    if not (frag.fr_fix == sign_extend old)
    then add_size entry (difference frag.fr_fix (sign_extend old)) sizes'
    else sizes'

-- The loop that updates the sizes, with the fragment `k`; `frag_index` is what is left of `old_fr_fix`.
-- Past the end of the chain or of `old_fr_fix` the program reads wild: `none`.
unfoldable pub update_sizes : ℕ → List Frag → List ℕ → EntryMap → EntryMap → Option EntryMap
update_sizes k [] old relax_map sizes = some sizes
update_sizes k (frag ∷ fragments) old relax_map sizes =
    let skipped = update_sizes (k + 1) fragments old relax_map sizes in
    let updated : ℕ → Option EntryMap = (λ entry. elim fragments [
      | [] ↦ none
      | fr_next ∷ _ ↦ elim old [
        | [] ↦ none
        | o ∷ old' ↦
            update_sizes (k + 1) fragments old' relax_map (update_size frag fr_next o entry sizes)
      ]
    ]) in
    elim (relax_map k) [ none ↦ skipped | some entry ↦ updated entry ]

-- The loop over the `n` entries from place `entry` on: the sizes, in which missing ones are put in, and
-- the offsets
unfoldable pub offset_loop : ℕ → ℕ → ℕ → EntryMap → EntryMap → EntryMap × EntryMap
offset_loop zero entry offset sizes offsets = (sizes, offsets)
offset_loop (suc n) entry offset sizes offsets =
    offset_loop n (entry + 1) (to_int (offset + size_at sizes entry))
      (put sizes entry (size_at sizes entry)) (put offsets entry offset)

-- What `Go` leaves behind
pub record Relaxed : Type 0 where
  pub size_map : EntryMap
  pub offset_map : EntryMap
  pub fragments : List Frag
  pub opcodes : Opcodes
  pub build : Build

-- `Go`, from the entries of the section, the symbols and the opcodes
unfoldable pub go : Relaxing → ℕ → Context → List MaoEntry → Build → Opcodes → Checked Relaxed
go relax_segment fuel c entries b opcodes = do
  (fragments, built) ← build_fragments c entries b
  let state = save_state 0 fragments opcodes (λ _. 0)
  let old_fr_fix = map (λ (f : Frag). to_int f.fr_fix) fragments
  (fragments', opcodes') ← relax_loop relax_segment fuel 0 fragments opcodes
  sizes ← update_sizes 0 fragments' old_fr_fix built.relax_map built.size_map
  let (sizes', offsets) = offset_loop (length entries) 0 0 sizes (λ _. none)
  some (record {
    size_map = sizes';
    offset_map = offsets;
    fragments = fragments';
    opcodes = restore_state 0 fragments' state opcodes';
    build = built;
  })

-- `FunctionSize`, over the entries of a function: each with its place, and whether it is a label
unfoldable pub function_size_loop : EntryMap → List (ℕ × Bool) → ℕ → Checked ℕ
function_size_loop sizes [] size = some size
function_size_loop sizes ((entry, is_label) ∷ entries) size = do
  size' ← (if is_label then some size else sizes entry >>= λ n. some (to_int (size + n)))
  function_size_loop sizes entries size'

unfoldable pub function_size : EntryMap → List (ℕ × Bool) → Checked ℕ
function_size sizes entries = function_size_loop sizes entries 0

-- The maps that a `Section` caches
pub record Section : Type 0 where
  pub sizes : Option EntryMap
  pub offsets : Option EntryMap

module _ (relax : Checked (EntryMap × EntryMap)) where
  -- `CacheSizeAndOffsetMap`, of `Relax` on the section
  unfoldable pub cache_size_and_offset_map : Section → Checked Section
  cache_size_and_offset_map s =
      let fresh = relax >>= λ (sizes, offsets).
      some (record { sizes = some sizes; offsets = some offsets }) in
      elim s.sizes [ none ↦ fresh | some _ ↦ some s ]

  -- `GetSizeMap`
  unfoldable pub get_size_map : Section → Checked (Option EntryMap × Section)
  get_size_map s = cache_size_and_offset_map s >>= λ s'. some (s'.sizes, s')

  -- `GetOffsetMap`
  unfoldable pub get_offset_map : Section → Checked (Option EntryMap × Section)
  get_offset_map s = cache_size_and_offset_map s >>= λ s'. some (s'.offsets, s')

-- `HasSizeMap`
unfoldable pub has_size_map : Section → Bool
has_size_map s = elim s.sizes [ none ↦ false | some _ ↦ true ]

-- `InvalidateSizeMap`
unfoldable pub invalidate_size_map : Section → Section
invalidate_size_map s = record { sizes = none; offsets = none }
