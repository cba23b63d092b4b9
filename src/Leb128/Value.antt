-- ===== src/Leb128/Value.antt =====
-- `output_leb128` and `sizeof_leb128` (src/read.c) on all 64-bit values.
use mao.Prelude.{
  ℕ, ◌^◌, ◌≤◌, ◌<◌, ◌≡◌, ◌∙◌, ap, inl, inr, Bool, true, false, Option, some, List, ◌++◌, arith,
  length, ltb, if◌then◌else◌, Bool-cases,
}
use mao.Leb128.{sizeof_leb128, output_leb128, groups}
use mao.Leb128.Encoding.{read_groups, last_signed, last_unsigned}
use mao.Leb128.Signed.{output_sleb128-Encoded}
use mao.Leb128.Unsigned.{output_uleb128-Encoded}

-- A reader of LEB128 numbers.
unfoldable pub read_leb128 : Bool → List ℕ → Option (ℕ × List ℕ)
read_leb128 sign bytes =
    if sign then read_groups last_signed bytes else read_groups last_unsigned bytes

-- For a 64-bit value, `output_leb128` ends and writes ten bytes at most, `sizeof_leb128` ends and
-- gives their number, and a reader gets the value back, whatever follows.
pub read-output_leb128 :
    (v : ℕ) (sign : Bool)
    → v < 2 ^ 64
    → (bytes : List ℕ) × (output_leb128 v sign ≡ some bytes)
      × (sizeof_leb128 v sign ≡ some (length bytes))
      × (length bytes ≤ groups)
      × ((rest : List ℕ) → read_leb128 sign (bytes ++ rest) ≡ some (v, rest))
unfolding output_leb128 sizeof_leb128 read_leb128
read-output_leb128 v true h =
    let r = output_sleb128-Encoded 9 v h (elim (Bool-cases (ltb v (2 ^ 63))) [
      | inl e ↦ inl (ground arith)
      | inr e ↦ inr (ground arith)
    ]) in
    (r.bytes, r.output_is, r.size_is 0 ∙ ap (λ (n : ℕ). some n) (omega arith), r.short, r.read_back)
read-output_leb128 v false h =
    let r = output_uleb128-Encoded 9 v h (omega arith) in
    (r.bytes, r.output_is, r.size_is 0 ∙ ap (λ (n : ℕ). some n) (omega arith), r.short, r.read_back)
