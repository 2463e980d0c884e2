-- ===== src/Prelude/Results.antt =====
-- Total correctness: the computation gives a result, and the result satisfies `P`. `none` is a
-- fault: a `BUG_ON`, an access out of an array, a value never assigned, or fuel that ran out.
use mathlib.Core.Path.{◌≡◌, refl}
use mathlib.Core.Bool.{Bool, true, false}
use nvme_virt.Prelude.Tests.{if◌then◌else◌}
use mathlib.Core.Option.{Option, none, some}

infixl 5 ◌>>=◌ ◌>>◌
abbrev pub ◌>>=◌ {ℓ κ} : {A : Type ℓ} {B : Type κ} → Option A → (A → Option B) → Option B
none >>= f = none
some a >>= f = f a

abbrev pub ◌>>◌ {ℓ} : {B : Type ℓ} → Option (Unit {0}) → Option B → Option B
m >> k = m >>= λ _. k

-- `NVMEV_ASSERT`, a `BUG_ON`
abbrev pub assert : Bool → Option (Unit {0})
assert true = some tt
assert false = none

pub data Returns {ℓ κ} {A : Type ℓ} (P : A → Type κ) : Option A → Type (ℓ ⊔ κ) where
  returns : {a : A} → P a → Returns P (some a)

module _ {ℓ κ} {A : Type ℓ} {P : A → Type κ} where
  pub Returns-inv : {o : Option A} → Returns P o → (a : A) × (o ≡ some a) × P a
  Returns-inv (returns p) = (_, refl, p)

  pub Returns-bind {μ ν} :
      {B : Type μ} {Q : B → Type ν} {o : Option A} {f : A → Option B}
      → Returns P o
      → ((a : A) → P a → Returns Q (f a))
      → Returns Q (o >>= f)
  Returns-bind (returns p) k = k _ p

  pub Returns-mono {ν} :
      {Q : A → Type ν} {o : Option A} → Returns P o → ((a : A) → P a → Q a) → Returns Q o
  Returns-mono (returns p) k = returns (k _ p)

  pub Returns-if :
      (b : Bool) {x y : Option A}
      → (b ≡ true → Returns P x)
      → (b ≡ false → Returns P y)
      → Returns P (if b then x else y)
  Returns-if true h k = h refl
  Returns-if false h k = k refl

  pub Returns-assert :
      (b : Bool) {k : Option A} → b ≡ true → Returns P k → Returns P (assert b >> k)
  Returns-assert true h r = r
  Returns-assert false h r = absurd cc
