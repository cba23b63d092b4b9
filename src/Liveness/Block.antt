-- ===== src/Liveness/Block.antt =====
-- The loops of src/MaoLiveness.cc over one basic block, in terms of what later entries read and
-- write.
use mathlib.Core.List.{reverse, reverse-cons}
use mao.Prelude.{
  ℕ, ◌≡◌, refl, sym, ◌∙◌, Bool, false, not, ◌&&◌, ◌||◌, List, [], ◌∷◌, ◌++◌, some, arith,
  Option-cases, inl, inr, All,
}
use mao.Prelude.Checked.{◌>>=◌}
use mao.BitString.{BitString}
use mao.BitString.Members.{member, init_obj_lem}
use mao.BitString.Algebra.{Yields}
use mao.DataFlow.{transfer}
use mao.DataFlow.Sets.{Fits, transfer-Yields}
use mao.Liveness.{
  Entry, instruction, other, num_bits, gen_loop, create_gen_set, kill_loop, create_kill_set,
}

-- The masks of an instruction have the width of the problem.
abbrev pub IsMasked : Entry → Type 0
IsMasked other = Unit
IsMasked (instruction _ def_mask use_mask) = Fits num_bits def_mask × Fits num_bits use_mask

-- Register `r` is live before `entries`, where `out` is live behind them: an entry reads it before
-- any writes it, or none writes it and it is live behind them all.
unfoldable pub live_before : List Entry → (ℕ → Bool) → ℕ → Bool
live_before [] out r = out r
live_before (other ∷ es) out r = live_before es out r
live_before (instruction _ def_mask use_mask ∷ es) out r =
    member use_mask r || (live_before es out r && not (member def_mask r))

-- What the loop of `CreateKillSet` collects: the registers that an entry writes before another reads
-- them, with those that it both reads and writes itself.
unfoldable pub killed : List Entry → ℕ → Bool
killed [] r = false
killed (other ∷ es) r = killed es r
killed (instruction _ def_mask use_mask ∷ es) r =
    member def_mask r || (killed es r && not (member use_mask r))

abbrev pub nothing : ℕ → Bool
nothing r = false

gen_loop-append :
    (c : BitString) (xs ys : List Entry)
    → gen_loop c (xs ++ ys) ≡ (gen_loop c xs >>= λ c'. gen_loop c' ys)
unfolding gen_loop
gen_loop-append c [] ys = refl
gen_loop-append c (other ∷ xs) ys = gen_loop-append c xs ys
gen_loop-append c (instruction a d u ∷ xs) ys = elim (Option-cases (transfer c u d)) [
  | inl e ↦ rw e
  | inr (c', e) ↦ rw e (gen_loop-append c' xs ys)
]

kill_loop-append :
    (c : BitString) (xs ys : List Entry)
    → kill_loop c (xs ++ ys) ≡ (kill_loop c xs >>= λ c'. kill_loop c' ys)
unfolding kill_loop
kill_loop-append c [] ys = refl
kill_loop-append c (other ∷ xs) ys = kill_loop-append c xs ys
kill_loop-append c (instruction a d u ∷ xs) ys = elim (Option-cases (transfer c d u)) [
  | inl e ↦ rw e
  | inr (c', e) ↦ rw e (kill_loop-append c' xs ys)
]

-- The loop of `CreateGenSet` moves the live registers from behind the entries to before them.
pub gen_loop-Yields :
    (es : List Entry) (c : BitString)
    → Fits num_bits c
    → All IsMasked es
    → Yields (gen_loop c (reverse es)) num_bits (live_before es (member c))
unfolding gen_loop live_before
gen_loop-Yields [] c f h = (c, refl, f.valid, f.width, λ i. refl)
gen_loop-Yields (other ∷ es) c f h =
    let (c', e, v, w, m) = gen_loop-Yields es c f h.1 in
    (c', rw (reverse-cons, gen_loop-append, e), v, w, m)
gen_loop-Yields (instruction a d u ∷ es) c f h =
    let (c', e, v, w, m) = gen_loop-Yields es c f h.1 in
    let (t, e', v', w', m') =
      transfer-Yields num_bits c' u d (record { valid = v; width = w }) h.0.1 h.0.0 in
    (t, rw (reverse-cons, gen_loop-append, e, e'), v', w', λ i. ground (arith, m i, m' i))

kill_loop-Yields :
    (es : List Entry) (c : BitString)
    → Fits num_bits c
    → ((r : ℕ) → member c r ≡ false)
    → All IsMasked es
    → Yields (kill_loop c (reverse es)) num_bits (killed es)
unfolding kill_loop killed
kill_loop-Yields [] c f z h = (c, refl, f.valid, f.width, z)
kill_loop-Yields (other ∷ es) c f z h =
    let (c', e, v, w, m) = kill_loop-Yields es c f z h.1 in
    (c', rw (reverse-cons, kill_loop-append, e), v, w, m)
kill_loop-Yields (instruction a d u ∷ es) c f z h =
    let (c', e, v, w, m) = kill_loop-Yields es c f z h.1 in
    let (t, e', v', w', m') =
      transfer-Yields num_bits c' d u (record { valid = v; width = w }) h.0.0 h.0.1 in
    (t, rw (reverse-cons, kill_loop-append, e, e'), v', w', λ i. ground (arith, m i, m' i))

live_before_ext :
    (es : List Entry) (f g : ℕ → Bool) (r : ℕ) → f r ≡ g r → live_before es f r ≡ live_before es g r
unfolding live_before
live_before_ext [] f g r e = e
live_before_ext (other ∷ es) f g r e = live_before_ext es f g r e
live_before_ext (instruction a d u ∷ es) f g r e = rw (live_before_ext es f g r e)

-- A block passes on what is live behind it, but for what it kills.
live_before-split :
    (es : List Entry) (out : ℕ → Bool) (r : ℕ)
    → live_before es out r ≡ (live_before es nothing r || (out r && not (killed es r)))
unfolding live_before killed
live_before-split [] out r = ground arith
live_before-split (other ∷ es) out r = live_before-split es out r
live_before-split (instruction a d u ∷ es) out r = ground (arith, live_before-split es out r)

create_gen_set-Yields :
    (bb : List Entry)
    → All IsMasked bb
    → Yields (create_gen_set bb) num_bits (live_before bb nothing)
unfolding create_gen_set
create_gen_set-Yields bb h =
    let (z, e, w, v, none_in) = init_obj_lem num_bits (omega arith) in
    let (c, e', v', w', m) = gen_loop-Yields bb z (record { valid = v; width = w }) h in
    (c, rw e e', v', w', λ r. m r ∙ live_before_ext bb (member z) nothing r (none_in r))

create_kill_set-Yields :
    (bb : List Entry) → All IsMasked bb → Yields (create_kill_set bb) num_bits (killed bb)
unfolding create_kill_set
create_kill_set-Yields bb h =
    let (z, e, w, v, none_in) = init_obj_lem num_bits (omega arith) in
    let (c, e', v', w', m) = kill_loop-Yields bb z (record { valid = v; width = w }) none_in h in
    (c, rw e e', v', w', m)

-- A block's summary, where the masks of its instructions have 256 bits: `CreateGenSet` and
-- `CreateKillSet` return sets of that width, with which the transfer function gives exactly the
-- registers that are live before the block, whatever is live behind it.
pub block_summary :
    (bb : List Entry)
    → All IsMasked bb
    → (gen kill : BitString) × (create_gen_set bb ≡ some gen)
      × (create_kill_set bb ≡ some kill)
      × Fits num_bits gen
      × Fits num_bits kill
      × ((out : ℕ → Bool) (r : ℕ)
          → (member gen r || (out r && not (member kill r))) ≡ live_before bb out r)
block_summary bb h =
    let (g, eg, vg, wg, mg) = create_gen_set-Yields bb h in
    let (k, ek, vk, wk, mk) = create_kill_set-Yields bb h in
    (
      g,
      k,
      eg,
      ek,
      record { valid = vg; width = wg },
      record { valid = vk; width = wk },
      λ out r. rw (mg, mk) (sym (live_before-split bb out r)),
    )
