-- ===== src/Prelude/Holds.antt =====
-- Properties of what code that may stop at a failed `MAO_ASSERT` returns.
use mathlib.Core.Path.{◌≡◌}
use mathlib.Core.Bool.{Bool, true, false}
use mathlib.Core.Option.{none, some}
use mao.Prelude.Tests.{if◌then◌else◌}
use mao.Prelude.Checked.{Checked, ◌>>=◌}

-- A property of what a checked computation returns, if it returns
abbrev pub Holds : {A : Type 0} → (A → Type 0) → Checked A → Type 0
Holds P none = Unit {0}
Holds P (some a) = P a

module _ {A : Type 0} (P : A → Type 0) where
  pub Holds-if : (t : Bool) (x y : Checked A) → Holds P x → Holds P y → Holds P (if t then x else y)
  Holds-if true x y hx hy = hx
  Holds-if false x y hx hy = hy

  pub Holds-bind :
      {B : Type 0} (m : Checked B) (f : B → Checked A)
      → ((a : B) → Holds P (f a))
      → Holds P (m >>= f)
  Holds-bind none f h = tt
  Holds-bind (some a) f h = h a

  pub Holds-then :
      {B : Type 0} (Q : B → Type 0) (m : Checked B) (f : B → Checked A)
      → Holds Q m
      → ((a : B) → Q a → Holds P (f a))
      → Holds P (m >>= f)
  Holds-then Q none f q h = tt
  Holds-then Q (some a) f q h = h a q

  pub Holds-elim : (m : Checked A) (a : A) → Holds P m → m ≡ some a → P a
  Holds-elim m a h e = rw e at h
