-- ===== src/Client/AuthData/Tests.antt =====
-- Authenticator data with a credential of two bytes.
use fido_go.Base.{ℕ, ◌≡◌, refl, true, [], ◌∷◌, arith, zeros, ok}
use fido_go.Client.AuthData.{parse_authenticator_data}
use fido_go.Client.AuthData.RoundTrip.{layout, parse_authenticator_data-layout}

parse_authenticator_data-layout_example :
    parse_authenticator_data {X = ℕ} (layout (zeros 32) 0x45 258 (zeros 16) (7 ∷ 9 ∷ []) (1 ∷ []))
    ≡ ok (record {
      user_present = true;
      user_verified = true;
      sign_count = 258;
      credential_id = 7 ∷ 9 ∷ [];
    })
parse_authenticator_data-layout_example =
    parse_authenticator_data-layout (zeros 32) 0x45 258 (zeros 16) (7 ∷ 9 ∷ []) (1 ∷ []) refl refl
      (omega arith) refl (omega arith)
