-- ===== src/JumpRelax/Bytes.antt =====
-- src/tc-i386.c: lemmas on the states of the relaxation table and on bytes in a buffer.
use mao.Prelude.Lists
use mao.Prelude.{
  ℕ, zero, suc, ◌+◌, ◌*◌, ◌%◌, ◌^◌, ◌≤◌, ◌<◌, ◌≡◌, refl, sym, ◌∙◌, ap, List, [], ◌∷◌, arith, length,
  get_or, length-set, get_or-set_self, get_or-set_ne,
}
use mao.JumpRelax.{write_at}

-- One case for each state of the table.
pub states {ℓ} :
    (P : ℕ → Type ℓ)
    → P 0
    → P 1
    → P 2
    → P 3
    → P 4
    → P 5
    → P 6
    → P 7
    → P 8
    → P 9
    → P 10
    → P 11
    → (s : ℕ) → s < 12
    → P s
states P p0 p1 p2 p3 p4 p5 p6 p7 p8 p9 p10 p11 zero h = p0
states P p0 p1 p2 p3 p4 p5 p6 p7 p8 p9 p10 p11 (suc zero) h = p1
states P p0 p1 p2 p3 p4 p5 p6 p7 p8 p9 p10 p11 (suc (suc zero)) h = p2
states P p0 p1 p2 p3 p4 p5 p6 p7 p8 p9 p10 p11 (suc (suc (suc zero))) h = p3
states P p0 p1 p2 p3 p4 p5 p6 p7 p8 p9 p10 p11 (suc (suc (suc (suc zero)))) h = p4
states P p0 p1 p2 p3 p4 p5 p6 p7 p8 p9 p10 p11 (suc (suc (suc (suc (suc zero))))) h = p5
states P p0 p1 p2 p3 p4 p5 p6 p7 p8 p9 p10 p11 (suc (suc (suc (suc (suc (suc s)))))) h =
    late P p6 p7 p8 p9 p10 p11 s (omega arith)
  where
    late :
        (P : ℕ → Type ℓ)
        → P 6
        → P 7
        → P 8
        → P 9
        → P 10
        → P 11
        → (s : ℕ) → s < 6
        → P (suc (suc (suc (suc (suc (suc s))))))
    late P p6 p7 p8 p9 p10 p11 zero h = p6
    late P p6 p7 p8 p9 p10 p11 (suc zero) h = p7
    late P p6 p7 p8 p9 p10 p11 (suc (suc zero)) h = p8
    late P p6 p7 p8 p9 p10 p11 (suc (suc (suc zero))) h = p9
    late P p6 p7 p8 p9 p10 p11 (suc (suc (suc (suc zero)))) h = p10
    late P p6 p7 p8 p9 p10 p11 (suc (suc (suc (suc (suc zero))))) h = p11
    late P p6 p7 p8 p9 p10 p11 (suc (suc (suc (suc (suc (suc s)))))) h = absurd (omega arith)

-- The number that bytes stand for, the lowest first, and bytes read from a buffer.
unfoldable pub le_value : List ℕ → ℕ
le_value [] = 0
le_value (b ∷ bytes) = b + 2 ^ 8 * le_value bytes

unfoldable pub read_at : List ℕ → ℕ → ℕ → List ℕ
read_at from place zero = []
read_at from place (suc n) = get_or from place 0 ∷ read_at from (place + 1) n

-- What the program relies on of `md_number_to_chars`: it gives the low bytes of a number.
pub record IsLittleEndian (to_chars : ℕ → ℕ → List ℕ) : Type 0 where
  pub length_is : (v n : ℕ) → length (to_chars v n) ≡ n
  pub value_is : (v n : ℕ) → le_value (to_chars v n) ≡ v % 2 ^ (8 * n)

write_at_before :
    (to : List ℕ) (place j : ℕ) (bytes : List ℕ)
    → j < place
    → get_or (write_at to place bytes) j 0 ≡ get_or to j 0
write_at_before to place j [] h = refl
write_at_before to place j (b ∷ bytes) h =
    write_at_before (Lists.set to place b) (place + 1) j bytes (omega arith)
    ∙ get_or-set_ne to place j b 0 (λ e. absurd (omega arith))

read_at-write_at :
    (to : List ℕ) (place : ℕ) (bytes : List ℕ)
    → place + length bytes ≤ length to
    → read_at (write_at to place bytes) place (length bytes) ≡ bytes
unfolding read_at
read_at-write_at to place [] h = refl
read_at-write_at to place (b ∷ bytes) h =
    let written = Lists.set to place b in
    let here : get_or (write_at written (place + 1) bytes) place 0 ≡ b =
      write_at_before written (place + 1) place bytes (omega arith)
      ∙ get_or-set_self to place b 0 (omega arith) in
    let later = read_at-write_at written (place + 1) bytes (omega (arith, length-set to place b)) in
    cc (here, later)

pub read_back :
    (to : List ℕ) (place n : ℕ) (bytes : List ℕ)
    → length bytes ≡ n
    → place + n ≤ length to
    → read_at (write_at to place bytes) place n ≡ bytes
read_back to place n bytes e h =
    ap (λ (k : ℕ). read_at (write_at to place bytes) place k) (sym e)
    ∙ read_at-write_at to place bytes (omega arith)
