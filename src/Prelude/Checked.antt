-- ===== src/Prelude/Checked.antt =====
-- Code that may stop at a failed `MAO_ASSERT` (MaoDebug.h, MaoDebug.cc: `MaoDebug::Assert` prints
-- and calls `abort`; the build never defines `NDEBUG`). `none` is the failed assertion.
use mathlib.Core.Path.{◌≡◌, refl}
use mathlib.Core.Bool.{Bool, true, false}
use mathlib.Core.Option.{Option, none, some}

abbrev pub Checked {ℓ} : Type ℓ → Type ℓ
Checked A = Option A

infixl 5 ◌>>=◌ ◌>>◌
abbrev pub ◌>>=◌ {ℓ κ} : {A : Type ℓ} {B : Type κ} → Checked A → (A → Checked B) → Checked B
some a >>= f = f a
none >>= f = none

abbrev pub ◌>>◌ {ℓ} : {B : Type ℓ} → Checked (Unit {0}) → Checked B → Checked B
m >> k = m >>= λ _. k

-- `MAO_ASSERT(condition)`
abbrev pub mao_assert : Bool → Checked (Unit {0})
mao_assert true = some tt
mao_assert false = none

-- Inversion of a run that passes.
pub >>=-eq-some {ℓ κ} :
    {A : Type ℓ} {B : Type κ} (m : Checked A) (f : A → Checked B) {b : B}
    → (m >>= f) ≡ some b
    → (a : A) × (m ≡ some a) × (f a ≡ some b)
>>=-eq-some (some a) f h = (a, refl, h)
>>=-eq-some none f h = cc
