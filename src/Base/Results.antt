-- ===== src/Base/Results.antt =====
-- Code that may throw: a value, or the exception.
use mathlib.Core.Path.{◌≡◌}

pub data Throws {ℓ} (A : Type ℓ) : Type ℓ where
  ok : A → Throws A
  throw : Throws A

infixl 5 ◌>>=◌
abbrev pub ◌>>=◌ {ℓ κ} : {A : Type ℓ} {B : Type κ} → Throws A → (A → Throws B) → Throws B
ok a >>= f = f a
throw >>= f = throw

-- The call returns: it does not throw.
abbrev pub Returns {ℓ} : {A : Type ℓ} → Throws A → Type ℓ
Returns {A = A} r = (a : A) × (r ≡ ok a)

-- What holds of the value, if the call returns.
abbrev pub Ensures {ℓ κ} : {A : Type ℓ} → (A → Type κ) → Throws A → Type κ
Ensures P (ok a) = P a
Ensures P throw = Unit

pub Ensures->>= {ℓ κ μ} :
    {A : Type ℓ} {B : Type κ} (P : B → Type μ) (m : Throws A) (f : A → Throws B)
    → ((a : A) → Ensures P (f a))
    → Ensures P (m >>= f)
Ensures->>= P (ok a) f h = h a
Ensures->>= P throw f h = tt
