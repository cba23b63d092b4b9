-- ===== src/Relax/Sums.antt =====
-- src/MaoRelax.cc: the offsets that `Go` writes are the sums of the sizes.
use mao.Prelude.{
  ℕ, zero, suc, ◌+◌, ◌%◌, ◌^◌, ◌≤◌, ◌<◌, ◌≡◌, refl, ◌∙◌, ap, true, false, some, arith, ltb, ◌==◌,
  if◌then◌else◌, Bool-cases, inl, inr,
}
use mao.Relax.Build.{EntryMap, put, size_at}
use mao.Relax.Effect.{value_if}
use mao.Relax.Go.{to_int, offset_loop}

-- The sizes of the `n` entries from place `entry` on, together
unfoldable pub sizes_from : EntryMap → ℕ → ℕ → ℕ
sizes_from m entry zero = 0
sizes_from m entry (suc n) = size_at m entry + sizes_from m (entry + 1) n

pub sizes_from_same :
    (m m' : EntryMap) (entry n : ℕ)
    → ((j : ℕ) → entry ≤ j → j < entry + n → size_at m' j ≡ size_at m j)
    → sizes_from m' entry n ≡ sizes_from m entry n
unfolding sizes_from
sizes_from_same m m' entry zero h = refl
sizes_from_same m m' entry (suc n) h =
    let here = h entry (omega arith) (omega arith) in
    let later = sizes_from_same m m' (entry + 1) n (λ j a b. h j (omega arith) (omega arith)) in
    cc (here, later)

pub sizes_from-snoc :
    (m : EntryMap) (entry n : ℕ)
    → sizes_from m entry (suc n) ≡ sizes_from m entry n + size_at m (entry + n)
unfolding sizes_from
sizes_from-snoc m entry zero = let e : entry + 0 ≡ entry = omega arith in rw e (omega arith)
sizes_from-snoc m entry (suc n) =
    let rest = sizes_from-snoc m (entry + 1) n in
    let e : entry + 1 + n ≡ entry + suc n = omega arith in
    let last : size_at m (entry + 1 + n) ≡ size_at m (entry + suc n) =
      ap (λ (k : ℕ). size_at m k) e in
    omega (arith, rest, last)

pub size_at-put :
    (m : EntryMap) (k v j : ℕ) → size_at (put m k v) j ≡ (if j == k then v else size_at m j)
size_at-put m k v j = value_if (j == k) v (m j)

-- A changed size in the sum
pub sizes_from-put :
    (m : EntryMap) (k v entry n : ℕ)
    → entry ≤ k
    → sizes_from (put m k v) entry n + (if ltb k (entry + n) then size_at m k else 0)
      ≡ sizes_from m entry n + (if ltb k (entry + n) then v else 0)
unfolding sizes_from
sizes_from-put m k v entry zero h = ground arith
sizes_from-put m k v entry (suc n) h = elim (Bool-cases (entry == k)) [
  | inl y ↦
      let e : entry ≡ k = ground (arith, y) in
      let here = size_at-put m k v entry in
      let later =
        sizes_from_same m (put m k v) (entry + 1) n (λ j a b. size_at-put m k v j ∙ ground arith) in
      let size_e : size_at m entry ≡ size_at m k = ap (λ (i : ℕ). size_at m i) e in
      ground (arith, here, later, y, size_e)
  | inr n' ↦
      let here = size_at-put m k v entry in
      let later = sizes_from-put m k v (entry + 1) n (ground (arith, n')) in
      let reach : entry + 1 + n ≡ entry + suc n = omega arith in
      ground (arith, here, rw reach at later, n')
]

offsets_kept :
    (n entry offset : ℕ) (sizes offsets : EntryMap) (j : ℕ)
    → j < entry
    → (offset_loop n entry offset sizes offsets).1 j ≡ offsets j
unfolding offset_loop
offsets_kept zero entry offset sizes offsets j h = refl
offsets_kept (suc n) entry offset sizes offsets j h =
    offsets_kept n (entry + 1) _ _ _ j (omega arith)
    ∙ let other : (j == entry) ≡ false = ground arith in rw other refl

pub offset_loop-sum :
    (n entry offset : ℕ) (sizes offsets : EntryMap) (i : ℕ)
    → i < n
    → offset < 2 ^ 32
    → (offset_loop n entry offset sizes offsets).1 (entry + i)
      ≡ some ((offset + sizes_from sizes entry i) % 2 ^ 32)
unfolding offset_loop sizes_from
offset_loop-sum zero entry offset sizes offsets i h small = absurd (omega arith)
offset_loop-sum (suc n) entry offset sizes offsets zero h small =
    let here : entry + 0 ≡ entry = omega arith in
    let same : (entry == entry) ≡ true = ground arith in
    let size : offset ≡ (offset + 0) % 2 ^ 32 = omega arith in
    rw here (
      offsets_kept n (entry + 1) _ _ (put offsets entry offset) entry (omega arith)
      ∙ rw same (ap some size))
offset_loop-sum (suc n) entry offset sizes offsets (suc i) h small =
    let place : entry + suc i ≡ entry + 1 + i = omega arith in
    let sizes' = put sizes entry (size_at sizes entry) in
    let rest =
      offset_loop-sum n (entry + 1) (to_int (offset + size_at sizes entry)) sizes'
        (put offsets entry offset) i (omega arith) (omega arith) in
    let same : sizes_from sizes' (entry + 1) i ≡ sizes_from sizes (entry + 1) i =
      sizes_from_same sizes sizes' (entry + 1) i
        (λ j a b. size_at-put sizes entry _ j ∙ ground arith) in
    rw place (rest ∙ ap some (omega (arith, same)))
