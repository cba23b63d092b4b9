-- ===== src/Prefix.antt =====
-- src/tc-i386.c: `add_prefix`, which collects the prefix bytes of an instruction in one place for each
-- class of prefixes. The bytes are those of the architecture.
pub mod Classes
pub mod Slots
mod Examples
use mao.Prelude.Lists
use mao.Prelude.{
  ℕ, ◌+◌, ◌-◌, bit_and, bit_or, Bool, true, false, not, ◌&&◌, ◌||◌, List, [], ◌∷◌, Option, some,
  none, ltb, leb, ◌==◌, if◌then◌else◌, get_or,
}
use mao.Prelude.Checked.{◌>>=◌}
use mao.InstructionSize.{
  FlagCode, code_64bit, code_32bit, code_16bit, seg_prefix, addr_prefix, data_prefix, rex_prefix,
}

-- `WAIT_PREFIX`, `REP_PREFIX` and `LOCK_PREFIX`
abbrev pub wait_prefix : ℕ
wait_prefix = 0

abbrev pub rep_prefix : ℕ
rep_prefix = 4

abbrev pub lock_prefix : ℕ
lock_prefix = 5

-- `enum PREFIX_GROUP`
pub data PrefixGroup : Type 0 where
  prefix_exist prefix_lock prefix_rep prefix_other : PrefixGroup

-- `REX_OPCODE`, and its bits `REX_W` and `REX_R | REX_X | REX_B`
abbrev pub rex_opcode : ℕ
rex_opcode = 0x40

abbrev pub rex_w : ℕ
rex_w = 8

abbrev pub rex_rxb : ℕ
rex_rxb = 7

-- `i.prefix` and `i.prefixes`
pub record Prefixes : Type 0 where
  pub prefix : List ℕ
  pub prefixes : ℕ

abbrev pub is_64bit : FlagCode → Bool
is_64bit code_64bit = true
is_64bit code_32bit = false
is_64bit code_16bit = false

-- `prefix >= REX_OPCODE && prefix < REX_OPCODE + 16 && flag_code == CODE_64BIT`
abbrev pub is_rex : FlagCode → ℕ → Bool
is_rex flag prefix = leb rex_opcode prefix && ltb prefix (rex_opcode + 16) && is_64bit flag

abbrev pub is_segment : ℕ → Bool
is_segment prefix =
    (prefix == 0x2e)
    || (prefix == 0x3e)
    || (prefix == 0x26)
    || (prefix == 0x64)
    || (prefix == 0x65)
    || (prefix == 0x36)

-- The `switch`: the place of a prefix and its group. Other bytes abort: `none`.
unfoldable pub classify : ℕ → Option (ℕ × PrefixGroup)
classify prefix =
    if is_segment prefix
    then some (seg_prefix, prefix_other)
    else if (prefix == 0xf2) || (prefix == 0xf3)
    then some (rep_prefix, prefix_rep)
    else if prefix == 0xf0
    then some (lock_prefix, prefix_lock)
    else if prefix == 0x9b
    then some (wait_prefix, prefix_other)
    else if prefix == 0x67
    then some (addr_prefix, prefix_other)
    else if prefix == 0x66
    then some (data_prefix, prefix_other)
    else none

-- The REX bits that are there already
unfoldable pub rex_taken : ℕ → ℕ → Bool
rex_taken old prefix =
    not (bit_and (bit_and old prefix) rex_w == 0)
    || (not (bit_and old rex_rxb == 0) && not (bit_and prefix rex_rxb == 0))

-- The place, and the group or `prefix_exist`
unfoldable pub slot_of : FlagCode → ℕ → List ℕ → Option (ℕ × PrefixGroup)
slot_of flag prefix old =
    let free : PrefixGroup =
      if rex_taken (get_or old rex_prefix 0) prefix then prefix_exist else prefix_other in
    let by_class : Option (ℕ × PrefixGroup) = elim (classify prefix) [
      | none ↦ none
      | some (q, group) ↦ some (q, (if not (get_or old q 0 == 0) then prefix_exist else group))
    ] in
    if is_rex flag prefix then some (rex_prefix, free) else by_class

-- The end of `add_prefix`
unfoldable pub store_prefix : ℕ → ℕ → PrefixGroup → Prefixes → Prefixes
store_prefix q prefix prefix_exist i = i
store_prefix q prefix _ i = record {
  prefix = Lists.set i.prefix q (bit_or (get_or i.prefix q 0) prefix);
  prefixes = (if get_or i.prefix q 0 == 0 then i.prefixes + 1 else i.prefixes);
}

-- `add_prefix`: the prefixes and the group
unfoldable pub add_prefix : FlagCode → ℕ → Prefixes → Option (Prefixes × PrefixGroup)
add_prefix flag prefix i =
    slot_of flag prefix i.prefix >>= λ (q, group). some (store_prefix q prefix group i, group)
