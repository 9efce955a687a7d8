-- ===== src/Prelude/Steps.antt =====
-- Steps that may not return: their order, and what holds of the state they return.
use mathlib.Core.Path.{◌≡◌, ap, ◌∙◌}
use mathlib.Core.Option.{Option, none, some}

abbrev pub bind {ℓ κ} : {A : Type ℓ} {B : Type κ} → Option A → (A → Option B) → Option B
bind none f = none
bind (some a) f = f a

-- What holds of the state a step returns, if it returns.
abbrev pub Holds {ℓ κ} : {A : Type ℓ} → (A → Type κ) → Option A → Type κ
Holds P none = Unit
Holds P (some a) = P a

-- A step that returns.
abbrev pub Returns {ℓ} : {A : Type ℓ} → Option A → Type ℓ
Returns {A = A} o = (a : A) × (o ≡ some a)

pub Holds-bind {ℓ κ} :
    {A : Type ℓ} (P Q : A → Type κ) (o : Option A) (f : A → Option A)
    → Holds P o
    → ((a : A) → P a → Holds Q (f a))
    → Holds Q (bind o f)
Holds-bind P Q none f h g = tt
Holds-bind P Q (some a) f h g = g a h

pub Holds-each {ℓ κ μ} :
    {A : Type ℓ} {B : Type μ} (Q : B → Type κ) (o : Option A) (f : A → Option B)
    → ((a : A) → Holds Q (f a))
    → Holds Q (bind o f)
Holds-each Q none f g = tt
Holds-each Q (some a) f g = g a

pub Returns-bind {ℓ} :
    {A : Type ℓ} (o : Option A) (f : A → Option A)
    → Returns o
    → ((a : A) → Returns (f a))
    → Returns (bind o f)
Returns-bind o f (a, e) g = ((g a).0, ap (λ p. bind p f) e ∙ (g a).1)
