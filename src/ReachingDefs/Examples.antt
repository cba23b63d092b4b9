-- ===== src/ReachingDefs/Examples.antt =====
-- The searches of src/MaoReachingDefs.cc in a block that writes register 1 twice.
use mao.Prelude.{
  ℕ, suc, ◌-◌, ◌/◌, ◌%◌, ◌^◌, ◌<◌, ◌≡◌, refl, List, [], ◌∷◌, Option, some, arith, All,
}
use mao.Prelude.Bits.{bit-zero}
use mao.BitString.{BitString, init_obj, combine, zip_words, union, get}
use mao.BitString.Algebra.{Yields}
use mao.DataFlow.Sets.{Fits}
use mao.Liveness.{Entry, instruction, other}
use mao.Liveness.Block.{IsMasked}
use mao.ReachingDefs.{defs_loop, get_defs, defining_loop, get_defining_instruction}
use mao.ReachingDefs.Block.{
  defines, IsLastDefinition, get_defs-Yields, get_defining_instruction-IsLastDefinition,
}

abbrev registers : ℕ → BitString
registers w = record { word = w ∷ 0 ∷ 0 ∷ 0 ∷ []; number_of_bits = 256 }

registers-Fits : (w : ℕ) → w < 2 ^ 64 → Fits 256 (registers w)
registers-Fits w h = record {
  valid = record {
    positive = omega arith;
    size = refl;
    words = (h, omega arith);
    unused = λ i le.
        let e : i / 64 ≡ suc (suc (suc (suc (i / 64 - 4)))) = omega arith in
        rw e (bit-zero (i % 64));
  };
  width = refl;
}

abbrev body : List Entry
body =
    instruction 10 (registers 2) (registers 0)
    ∷ other
    ∷ instruction 11 (registers 6) (registers 1)
    ∷ instruction 12 (registers 8) (registers 2)
    ∷ []

body-IsMasked : All IsMasked body
body-IsMasked = (
  (registers-Fits 2 (omega arith), registers-Fits 0 (omega arith)),
  (
    tt,
    (
      (registers-Fits 6 (omega arith), registers-Fits 1 (omega arith)),
      ((registers-Fits 8 (omega arith), registers-Fits 2 (omega arith)), tt),
    ),
  ),
)

body_defs : get_defs body ≡ some (registers 14)
unfolding get_defs defs_loop union combine zip_words init_obj
body_defs = refl

last_write : get_defining_instruction 1 body ≡ some (some 11)
unfolding get_defining_instruction defining_loop get
last_write = refl

get_defs-Yields_example : Yields (get_defs body) 256 (defines body)
get_defs-Yields_example = get_defs-Yields body body-IsMasked

get_defining_instruction-IsLastDefinition_example :
    (found : Option ℕ) × (get_defining_instruction 1 body ≡ some found)
    × IsLastDefinition body 1 found
get_defining_instruction-IsLastDefinition_example =
    get_defining_instruction-IsLastDefinition body 1 (omega arith) body-IsMasked
