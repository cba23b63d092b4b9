-- ===== src/Prefix/Examples.antt =====
-- A LOCK prefix beside an operand size prefix (src/tc-i386.c).
use mao.Prelude.{ℕ, ◌<◌, ◌≡◌, refl, some, [], ◌∷◌, get_or, if◌then◌else◌}
use mao.InstructionSize.{code_64bit}
use mao.Prefix.Classes.{class_of, clashes}
use mao.Prefix.{
  PrefixGroup, prefix_lock, prefix_exist, Prefixes, classify, slot_of, store_prefix, add_prefix,
}
use mao.Prefix.Slots.{used, IsCounted, Stored, add_prefix-Stored}

abbrev data16 : Prefixes
data16 = record { prefix = 0 ∷ 0 ∷ 0 ∷ 0x66 ∷ 0 ∷ 0 ∷ 0 ∷ []; prefixes = 1 }

abbrev locked : Prefixes
locked = record { prefix = 0 ∷ 0 ∷ 0 ∷ 0x66 ∷ 0 ∷ 0xf0 ∷ 0 ∷ []; prefixes = 2 }

data16-IsCounted : IsCounted data16
unfolding used
data16-IsCounted = record { seven = refl; counted = refl }

twice : add_prefix code_64bit 0x66 data16 ≡ some (data16, prefix_exist)
unfolding add_prefix slot_of classify store_prefix
twice = refl

add_prefix-Stored_example :
    (q : ℕ) × (own : PrefixGroup) × (class_of code_64bit 0xf0 ≡ some (q, own))
    × (prefix_lock ≡ (if clashes q (get_or data16.prefix q 0) 0xf0 then prefix_exist else own))
    × (q < 7)
    × Stored q 0xf0 prefix_lock data16 locked
unfolding add_prefix slot_of classify store_prefix
add_prefix-Stored_example =
    add_prefix-Stored code_64bit 0xf0 data16 locked prefix_lock data16-IsCounted refl
