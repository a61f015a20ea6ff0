-- ===== src/Prelude/Results.antt =====
-- A computation that may raise an exception: `raise E(...)` is `err`, and a `do` block goes on
-- only after `ok`.
use mathlib.Core.Path.{◌≡◌, refl}
use mathlib.Core.Logic.{◌⊎◌, inl, inr}
use mathlib.Core.Bool.{Bool, true, false}

module _ {ℓ κ} where
  pub data Result (Raised : Type ℓ) (Value : Type κ) : Type (ℓ ⊔ κ) where
    err : Raised → Result Raised Value
    ok : Value → Result Raised Value

  pub Result-cases :
      {Raised : Type ℓ} {Value : Type κ} (r : Result Raised Value)
      → ((e : Raised) × (r ≡ err e)) ⊎ ((v : Value) × (r ≡ ok v))
  Result-cases (err e) = inl (e, refl)
  Result-cases (ok v) = inr (v, refl)

-- `if not test: raise error`
abbrev pub guard {ℓ} : {Raised : Type ℓ} → Bool → Raised → Result Raised (Unit {0})
guard false error = err error
guard true error = ok tt

module _ {ℓ κ μ} {Raised : Type ℓ} {Value : Type κ} {Next : Type μ} where
  infixl 5 ◌>>=◌
  abbrev pub ◌>>=◌ : Result Raised Value → (Value → Result Raised Next) → Result Raised Next
  err error >>= continue = err error
  ok v >>= continue = continue v

  -- A computation that ends well has come through each of its steps.
  pub >>=-eq-ok :
      (first : Result Raised Value) (continue : Value → Result Raised Next) {n : Next}
      → (first >>= continue) ≡ ok n
      → (v : Value) × (first ≡ ok v) × (continue v ≡ ok n)
  >>=-eq-ok (err error) continue ends = cc
  >>=-eq-ok (ok v) continue ends = (v, refl, ends)

infixl 5 ◌>>◌
abbrev pub ◌>>◌ {ℓ μ} :
    {Raised : Type ℓ} {Next : Type μ}
    → Result Raised (Unit {0})
    → Result Raised Next
    → Result Raised Next
step >> next = step >>= (λ done. next)
