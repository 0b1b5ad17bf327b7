-- ===== src/Prelude/Options.antt =====
-- Chains of optional results.
use mathlib.Core.Option.{Option, none, some}

infixl 20 ◌>>=◌
abbrev pub ◌>>=◌ {ℓ ℓ'} : {A : Type ℓ} {B : Type ℓ'} → Option A → (A → Option B) → Option B
none >>= f = none
some a >>= f = f a

-- The predicate holds of the value, if there is one.
abbrev pub IfSome {ℓ ℓ'} : {A : Type ℓ} → (A → Type ℓ') → Option A → Type ℓ'
IfSome P none = Unit
IfSome P (some a) = P a

pub bind-IfSome {ℓ ℓ' ℓ₁ ℓ₂} :
    {A : Type ℓ} {B : Type ℓ'} (P : A → Type ℓ₁) (Q : B → Type ℓ₂) (o : Option A) (f : A → Option B)
    → IfSome P o
    → ((a : A) → P a → IfSome Q (f a))
    → IfSome Q (o >>= f)
bind-IfSome P Q none f h k = tt
bind-IfSome P Q (some a) f h k = k a h
