-- ===== src/Leb128/Big.antt =====
-- src/read.c: `.uleb128` values wider than 64 bits, `output_big_uleb128`. A bignum is the list of its
-- littlenums, of 16 bits each, the lowest first.
pub mod Digits
pub mod Unsigned
pub mod Sleb
mod Examples
use mao.Prelude.Lists
use mao.Prelude.{
  ℕ, zero, suc, ◌+◌, ◌-◌, ◌*◌, ◌/◌, ◌^◌, bit_and, bit_or, Bool, true, false, not, ◌||◌, Option,
  none, some, List, [], ◌∷◌, length, get_or, ltb, ◌==◌, if◌then◌else◌,
}
use mao.Prelude.Checked.{◌>>=◌}

-- The loop that strips leading zeros: the size that it leaves
unfoldable pub stripped_size : ℕ → List ℕ → ℕ
stripped_size zero bignum = zero
stripped_size (suc size) bignum =
    let rest = stripped_size size bignum in if get_or bignum size 0 == 0 then rest else suc size

-- The load of the next littlenum where fewer than seven bits are left. `size` is the length of the rest
-- of the bignum.
unfoldable pub load : ℕ → ℕ → List ℕ → ℕ × ℕ × List ℕ
load val loaded [] = (val, loaded, [])
load val loaded (x ∷ xs) =
    if ltb loaded 7 then (bit_or val (x * 2 ^ loaded), loaded + 16, xs) else (val, loaded, x ∷ xs)

-- The main loop; `none` is out of fuel. `loaded` stays at 0 where the source counts below it: then
-- nothing is left to load, and it is not read again.
unfoldable pub big_uleb128_loop : ℕ → ℕ → ℕ → List ℕ → Option (List ℕ)
big_uleb128_loop zero val loaded bignum = none
big_uleb128_loop (suc fuel) val loaded bignum =
    let (val', loaded', bignum') = load val loaded bignum in
    let byte = bit_and val' 0x7f in
    let val'' = val' / 2 ^ 7 in
    let rest = big_uleb128_loop fuel val'' (loaded' - 7) bignum' >>= λ bytes.
    some (bit_or byte 0x80 ∷ bytes) in
    if ltb 0 (length bignum') || not (val'' == 0) then rest else some (byte ∷ [])

-- The fuel: every round takes seven bits.
abbrev pub big_rounds : ℕ → ℕ
big_rounds size = 16 * size / 7 + 1

-- `output_big_uleb128`: the bytes, whose number it returns
unfoldable pub output_big_uleb128 : List ℕ → Option (List ℕ)
output_big_uleb128 bignum =
    let size = stripped_size (length bignum) bignum in
    big_uleb128_loop (big_rounds size) 0 0 (Lists.take size bignum)
