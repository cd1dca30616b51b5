-- ===== src/Base/Results.antt =====
-- Go's (value, error) results: a value or an error of the component's own type.
use mathlib.Core.Path.{◌≡◌, refl}
use mathlib.Core.Logic.{◌⊎◌, inl, inr}
use mathlib.Core.Bool.{Bool, true, false}

pub data Result {κ ℓ} (Failure : Type κ) (Value : Type ℓ) : Type (κ ⊔ ℓ) where
  err : Failure → Result Failure Value
  ok : Value → Result Failure Value

module _ {κ} {Failure : Type κ} where
  infixl 5 ◌>>=◌ ◌>>◌
  -- `if err != nil { return err }`, and the rest of the function.
  abbrev pub ◌>>=◌ {ℓ μ} :
      {V : Type ℓ} {W : Type μ} → Result Failure V → (V → Result Failure W) → Result Failure W
  err failure >>= next = err failure
  ok value >>= next = next value

  abbrev pub ◌>>◌ {μ} :
      {W : Type μ} → Result Failure (Unit {0}) → Result Failure W → Result Failure W
  err failure >> next = err failure
  ok _ >> next = next

  pub Result-cases {ℓ} :
      {V : Type ℓ} (r : Result Failure V) → ((e : Failure) × (r ≡ err e)) ⊎ ((v : V) × (r ≡ ok v))
  Result-cases (err e) = inl (e, refl)
  Result-cases (ok v) = inr (v, refl)

  -- A chain that succeeds has a first step that does.
  pub >>=-eq-ok {ℓ μ} :
      {V : Type ℓ} {W : Type μ} (first : Result Failure V) (next : V → Result Failure W) {w : W}
      → (first >>= next) ≡ ok w
      → (v : V) × (first ≡ ok v) × (next v ≡ ok w)
  >>=-eq-ok (err failure) next whole = cc
  >>=-eq-ok (ok value) next whole = (value, refl, whole)

-- `if refused { return nil, e }`
abbrev pub reject_if {ℓ} : {E : Type ℓ} → Bool → E → Result E (Unit {0})
reject_if true e = err e
reject_if false e = ok tt
