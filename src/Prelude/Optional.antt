-- ===== src/Prelude/Optional.antt =====
-- `Option` with its `?`, and a test that ends a chain.
use mathlib.Core.Bool.{Bool, true, false}
use mathlib.Core.Option.{Option, none, some}

-- Nothing where the test fails.
abbrev pub guard : Bool → Option (Unit {0})
guard false = none
guard true = some tt

infixl 5 ◌>>=◌ ◌>>◌
abbrev pub ◌>>=◌ {ℓ κ} : {A : Type ℓ} {B : Type κ} → Option A → (A → Option B) → Option B
some a >>= f = f a
none >>= f = none

abbrev pub ◌>>◌ {ℓ} : {B : Type ℓ} → Option (Unit {0}) → Option B → Option B
some tt >> k = k
none >> k = none
