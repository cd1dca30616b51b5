-- ===== src/ClientCtap2/Pins/Attempts.antt =====
-- How often internal/client/ctap2 sends a PIN change.
use fido_go.Base.{
  ℕ, zero, suc, ◌≤◌, ◌<◌, ◌≡◌, refl, ap, ◌⊎◌, inl, inr, true, false, Option, arith, Bool-cases,
  Bytes, Result, Result-cases, err,
}
use fido_go.ClientCtap2.Platform.{Platform, Error}
use fido_go.ClientCtap2.Pins.{Info, change_pin_once, should_retry, change_pin_attempts, change_pin}

module _ {World X Priv Pub : Type 0} (p : Platform World X Priv Pub) (info : Option Info)
    (current_pin new_pin : Bytes) where
  -- `k` attempts from `w` fail with the status that is tried again, and lead to `w'`.
  pub data Refused : ℕ → World → World → Type 0 where
    fresh : (w : World) → Refused 0 w w
    refused :
        (k : ℕ) (w next w' : World) (e : Error X)
        → change_pin_once p info current_pin new_pin w ≡ (err e, next)
        → should_retry p e ≡ true
        → Refused k next w'
        → Refused (suc k) w w'

  -- An answer that ends the loop.
  abbrev pub IsFinal : Result (Error X) (Unit {0}) × World → Type 0
  IsFinal outcome = (e : Error X) → outcome.0 ≡ err e → should_retry p e ≡ false

  change_pin_attempts-Refused :
      (n : ℕ) (w : World)
      → (k : ℕ) × (w' : World) × ((k ≤ n)
          × (Refused k w w'
              × ((change_pin_attempts p n info current_pin new_pin w
                    ≡ change_pin_once p info current_pin new_pin w')
                  × ((k ≡ n) ⊎ IsFinal (change_pin_once p info current_pin new_pin w')))))
  unfolding change_pin_attempts
  change_pin_attempts-Refused zero w = (0, w, (omega arith, (fresh w, (refl, inl refl))))
  change_pin_attempts-Refused (suc n) w =
      elim (Result-cases (change_pin_once p info current_pin new_pin w).0) [
        | inr (_, h) ↦
            (0, w, (omega arith, (fresh w, (ground (arith, h), inr (λ e i. ground (arith, h, i))))))
        | inl (e, h) ↦ elim (Bool-cases (should_retry p e)) [
          | inl r ↦
              let next = (change_pin_once p info current_pin new_pin w).1 in
              let (k, w', (bound, (trail, (same, end)))) = change_pin_attempts-Refused n next in
              (
                suc k,
                w',
                (
                  omega (arith, bound),
                  (
                    refused k w next w' e (ap (λ o. (o, next)) h) r trail,
                    (
                      ground (arith, h, r, same),
                      elim end [ inl b ↦ inl (ap suc b) | inr f ↦ inr f ],
                    ),
                  ),
                ),
              )
          | inr r ↦ (
            0,
            w,
            (omega arith, (fresh w, (ground (arith, h, r), inr (λ e' i. ground (arith, h, r, i))))),
          )
        ]
      ]

  -- A PIN change ends with its first answer that is not the status 0x12, or else with its third: the
  -- outcome is that of the last attempt, and each attempt before it was refused with that status.
  pub change_pin-Refused :
      (w : World)
      → (k : ℕ) × (w' : World) × ((k < 3)
          × (Refused k w w'
              × ((change_pin p info current_pin new_pin w
                    ≡ change_pin_once p info current_pin new_pin w')
                  × ((k ≡ 2) ⊎ IsFinal (change_pin_once p info current_pin new_pin w')))))
  unfolding change_pin
  change_pin-Refused w =
      let (k, w', (bound, rest)) = change_pin_attempts-Refused 2 w in
      (k, w', (omega (arith, bound), rest))
