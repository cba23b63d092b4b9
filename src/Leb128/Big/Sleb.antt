-- ===== src/Leb128/Big/Sleb.antt =====
-- src/read.c: `output_big_sleb128`, signed LEB128 of a bignum of 16-bit littlenums, `output_big_leb128` and
-- `convert_to_bignum`. `val` stays below 2 ^ 64.
use mao.Prelude.Lists
use mao.Prelude.{
  ℕ, zero, suc, ◌+◌, ◌-◌, ◌*◌, ◌/◌, ◌%◌, ◌^◌, bit_and, bit_or, Bool, not, ◌&&◌, ◌||◌, Option, none,
  some, List, [], ◌∷◌, ◌++◌, length, get_or, ltb, ◌==◌, if◌then◌else◌,
}
use mao.Prelude.Checked.{◌>>=◌}
use mao.Leb128.Big.{output_big_uleb128}

-- `LITTLENUM_MASK`
abbrev pub littlenum_mask : ℕ
littlenum_mask = 2 ^ 16 - 1

-- The loop that strips sign extensions
unfoldable pub stripped_signed_size : ℕ → List ℕ → ℕ
stripped_signed_size zero bignum = zero
stripped_signed_size (suc size) bignum =
    let rest = stripped_signed_size size bignum in
    if ltb 0 size
      && (get_or bignum size 0 == littlenum_mask)
      && ltb (littlenum_mask / 2) (get_or bignum (size - 1) 0)
    then rest
    else suc size

-- The inner loop: it ends with the last byte, the rest of `val`, and `loaded`. `more` says that littlenums
-- are left.
unfoldable pub sleb_bytes : ℕ → Bool → ℕ → ℕ → Option (List ℕ × ℕ × ℕ × ℕ)
sleb_bytes zero more val loaded = none
sleb_bytes (suc fuel) more val loaded =
    let byte = bit_and val 0x7f in
    let loaded' : ℕ = loaded - 7 in
    let val' = val / 2 ^ 7 in
    let filled : ℕ = if bit_and byte 0x40 == 0 then 0 else 2 ^ loaded' - 1 in
    let byte' : ℕ = if more || not (val' == filled) then bit_or byte 0x80 else byte in
    let rest =
      sleb_bytes fuel more val' loaded' >>= λ (bytes, b, v, l). some (byte' ∷ bytes, b, v, l) in
    if not (bit_and byte' 0x80 == 0) && ltb 6 loaded'
    then rest
    else some (byte' ∷ [], byte', val', loaded')

-- `loaded` is at most 22, so that the inner loop has three rounds at most.
abbrev pub sleb_rounds : ℕ
sleb_rounds = 3

-- The left-over bits, with their sign
unfoldable pub sleb_rest : ℕ → ℕ → ℕ → List ℕ
sleb_rest byte val loaded =
    let extended : ℕ =
      (if not (bit_and val (2 ^ (loaded - 1)) == 0)
        then bit_or val (2 ^ 64 - 2 ^ loaded)
        else val) in
    if not (bit_and byte 0x80 == 0) then bit_and extended 0x7f ∷ [] else []

-- The outer loop. On a bignum of no littlenums the program reads past its end: `none`.
unfoldable pub sleb_loop : ℕ → ℕ → List ℕ → Option (List ℕ)
sleb_loop val loaded [] = none
sleb_loop val loaded (x ∷ bignum) = do
  (bytes, byte, val', loaded') ←
      sleb_bytes sleb_rounds (ltb 0 (length bignum)) (bit_or val (x * 2 ^ loaded)) (loaded + 16)
  let rest = sleb_loop val' loaded' bignum >>= λ later. some (bytes ++ later)
  if ltb 0 (length bignum) then rest else some (bytes ++ sleb_rest byte val' loaded')

-- `output_big_sleb128`
unfoldable pub output_big_sleb128 : List ℕ → Option (List ℕ)
output_big_sleb128 bignum =
    sleb_loop 0 0 (Lists.take (stripped_signed_size (length bignum) bignum) bignum)

-- `output_big_leb128`
unfoldable pub output_big_leb128 : List ℕ → Bool → Option (List ℕ)
output_big_leb128 bignum sign =
    if sign then output_big_sleb128 bignum else output_big_uleb128 bignum

-- The littlenums that `convert_to_bignum` puts into `generic_bignum`
unfoldable pub convert_to_bignum : ℕ → Bool → List ℕ
convert_to_bignum value x_unsigned =
    let digit : ℕ → ℕ = (λ i. value / 2 ^ (16 * i) % 2 ^ 16) in
    let sign : ℕ = if x_unsigned then 0 else littlenum_mask in
    let digits = digit 0 ∷ digit 1 ∷ digit 2 ∷ digit 3 ∷ [] in
    let negative = not (ltb value (2 ^ 63)) in
    if (negative && x_unsigned) || (not negative && not x_unsigned)
    then digits ++ sign ∷ []
    else digits
