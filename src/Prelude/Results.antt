-- ===== src/Prelude/Results.antt =====
-- `Result<T, E>`: a value or an error, and chains of such calls with `?`.
use mathlib.Core.Path.{◌≡◌, refl}
use mathlib.Core.Bool.{Bool, true, false}

pub data Result {ℓ κ} (T : Type ℓ) (E : Type κ) : Type (ℓ ⊔ κ) where
  ok : T → Result T E
  err : E → Result T E

module _ {ℓ κ μ} {T : Type ℓ} {U : Type κ} {E : Type μ} where
  infixl 5 ◌>>=◌ ◌>>◌
  -- The `?` of a call whose value is used, or dropped.
  abbrev pub ◌>>=◌ : Result T E → (T → Result U E) → Result U E
  err e >>= next = err e
  ok t >>= next = next t

  abbrev pub ◌>>◌ : Result T E → Result U E → Result U E
  err e >> next = err e
  ok t >> next = next

-- `if !test { return Err(e) }`
abbrev pub require {ℓ} : {E : Type ℓ} → Bool → E → Result (Unit {0}) E
require false e = err e
require true e = ok tt

-- A chain that succeeds passed its test, and went on.
pub require-ok {ℓ κ} :
    {T : Type ℓ} {E : Type κ} (b : Bool) (e : E) (next : Result T E) (t : T)
    → (require b e >> next) ≡ ok t
    → (b ≡ true) × (next ≡ ok t)
require-ok false e next t h = cc
require-ok true e next t h = (refl, h)
