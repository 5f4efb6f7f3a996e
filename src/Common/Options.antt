-- ===== src/Common/Options.antt =====
-- What holds of the result of a step that may have none.
use mathlib.Core.Path.{◌≡◌, refl}
use mathlib.Core.Bool.{Bool, true, false}
use mathlib.Core.Option.{Option, none, some}
use neko_chat.Common.Tests.{if◌then◌else◌}

abbrev pub Returns {ℓ κ} : {A : Type ℓ} → (A → Type κ) → Option A → Type κ
Returns P none = Unit
Returns P (some a) = P a

infixl 5 ◌>>=◌
abbrev pub ◌>>=◌ {ℓ κ} : {A : Type ℓ} {B : Type κ} → Option A → (A → Option B) → Option B
none >>= f = none
some a >>= f = f a

pub Returns-bind {ℓ κ μ} :
    {A : Type ℓ} {B : Type κ} (P : B → Type μ) (o : Option A) (f : A → Option B)
    → ((a : A) → o ≡ some a → Returns P (f a))
    → Returns P (o >>= f)
Returns-bind P none f h = tt
Returns-bind P (some a) f h = h a refl

pub Returns-if {ℓ κ} :
    {A : Type ℓ} (P : A → Type κ) (b : Bool) (o p : Option A)
    → (b ≡ true → Returns P o)
    → (b ≡ false → Returns P p)
    → Returns P (if b then o else p)
Returns-if P true o p h k = h refl
Returns-if P false o p h k = k refl

-- What holds of both branches of a look at an option holds of what it gives.
pub elim_either {ℓ κ μ} :
    {A : Type ℓ} {B : Type κ} (P : B → Type μ) (o : Option A) (x : B) (f : A → B)
    → P x
    → ((a : A) → o ≡ some a → P (f a))
    → P (elim o [ none ↦ x | some a ↦ f a ])
elim_either P none x f h k = h
elim_either P (some a) x f h k = k a refl
