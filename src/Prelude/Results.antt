-- ===== src/Prelude/Results.antt =====
-- `Result` with its `?`.
use mathlib.Core.Path.{◌≡◌, refl}
use mathlib.Core.Logic.{◌⊎◌, inl, inr}
use mathlib.Core.Bool.{Bool, true, false}
use mathlib.Core.Option.{Option, none, some}

pub data Result {ℓ} (E A : Type ℓ) : Type ℓ where
  ok : A → Result E A
  err : E → Result E A

infixl 5 ◌>>=◌
abbrev pub ◌>>=◌ {ℓ} : {E A B : Type ℓ} → Result E A → (A → Result E B) → Result E B
err x >>= f = err x
ok a >>= f = f a

abbrev pub or_fail {ℓ} : {E A : Type ℓ} → E → Option A → Result E A
or_fail x none = err x
or_fail x (some a) = ok a

abbrev pub map_err {ℓ} : {E F A : Type ℓ} → (E → F) → Result E A → Result F A
map_err f (ok a) = ok a
map_err f (err x) = err (f x)

pub Result-cases {ℓ} :
    {E A : Type ℓ} (r : Result E A) → ((a : A) × (r ≡ ok a)) ⊎ ((x : E) × (r ≡ err x))
Result-cases (ok a) = inl (a, refl)
Result-cases (err x) = inr (x, refl)

abbrev pub is_ok {ℓ} : {E A : Type ℓ} → Result E A → Bool
is_ok (ok a) = true
is_ok (err x) = false

-- A chain that ends well has gone well so far.
pub bind-ok {ℓ} :
    {E A B : Type ℓ} (r : Result E A) (k : A → Result E B) (b : B)
    → r >>= k ≡ ok b
    → (a : A) × (r ≡ ok a) × (k a ≡ ok b)
bind-ok (ok a) k b h = (a, refl, h)
bind-ok (err x) k b h = absurd (cc)

pub or_fail-ok {ℓ} : {E A : Type ℓ} (x : E) (o : Option A) (a : A) → or_fail x o ≡ ok a → o ≡ some a
or_fail-ok x none a h = absurd (cc)
or_fail-ok x (some b) a h = cc
