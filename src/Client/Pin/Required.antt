-- ===== src/Client/Pin/Required.antt =====
-- A flow that requires user verification does not go on without it.
use fido_go.Base.{
  ℕ, ◌≡◌, refl, ◌⊎◌, inl, inr, true, false, arith, Bool-cases, Bytes, Result-cases, ok,
}
use fido_go.Ctap2.GetInfo.{GetInfoResponse}
use fido_go.ClientCtap2.Protocol.{authenticate}
use fido_go.ClientCtap2.Pins.{option_client_pin, pin_token_for_permission}
use fido_go.Client.Types.{
  Error, required, AuthenticatorSelection, normalized_user_verification, Operation, Client,
  request_pin, managed, manager_platform,
}
use fido_go.Client.Capabilities.{Codec, option_present, option_enabled, option_uv}
use fido_go.Client.Pin.{
  UserVerification, info_of, may_skip, verify_by_pin, resolve_user_verification,
}

module _ {World X Priv Pub Wire Value : Type 0} (client : Client World X Priv Pub)
    (codec : Codec Wire Value X) where
  -- The verification that a token of the PIN gives.
  abbrev pub by_token : Bytes × ℕ → Bytes → UserVerification
  by_token token challenge_hash = record {
    use_built_in_uv = false;
    pin_uv_auth_param = authenticate client.crypto token.1 token.0 challenge_hash;
    pin_uv_auth_protocol = token.1;
  }

  -- The PIN was asked for, and it gave a token with which the challenge is authenticated.
  pub record IsByPin (info : GetInfoResponse Wire) (operation : Operation) (challenge_hash : Bytes)
      (permission : ℕ) (rp_id : Bytes) (w last : World) (v : UserVerification) : Type 0 where
    pub pin : Bytes
    pub asked : World
    pub token : Bytes × ℕ
    pub answered : request_pin client operation w ≡ (ok pin, asked)
    pub granted :
        managed client
          (pin_token_for_permission (manager_platform client) (info_of info) pin permission rp_id)
          asked
        ≡ (ok token, last)
    pub verification : v ≡ by_token token challenge_hash

  module _ (info : GetInfoResponse Wire) (operation : Operation) (challenge_hash : Bytes)
      (permission : ℕ) (rp_id : Bytes) (w last : World) (v : UserVerification) where
    may_skip-required : (e : Error X) → may_skip required e ≡ false
    unfolding may_skip
    may_skip-required e = refl

    verify_by_pin-IsByPin :
        verify_by_pin client codec info operation required challenge_hash permission rp_id w
          ≡ (ok v, last)
        → IsByPin info operation challenge_hash permission rp_id w last v
    unfolding verify_by_pin
    verify_by_pin-IsByPin h = elim (Result-cases (request_pin client operation w).0) [
      | inl (e, a) ↦ absurd (ground (arith, h, a, may_skip-required e))
      | inr (pin, a) ↦
          let asked = (request_pin client operation w).1 in
          let grant =
            managed client
              (pin_token_for_permission (manager_platform client) (info_of info) pin permission
                rp_id)
              asked in
          elim (Result-cases grant.0) [
            | inl (e, b) ↦ absurd (ground (arith, h, a, b))
            | inr (token, b) ↦ record {
              pin = pin;
              asked = asked;
              token = token;
              answered = ground (arith, a);
              granted = ground (arith, h, a, b);
              verification = ground (arith, h, a, b);
            }
          ]
    ]

    -- Where a selection requires user verification and its resolution succeeds, either the authenticator
    -- has its own and it is asked for, or the PIN gave a token with which the challenge is authenticated.
    pub resolve_user_verification-required :
        (selection : AuthenticatorSelection)
        → normalized_user_verification selection ≡ required
        → resolve_user_verification client codec info operation selection challenge_hash permission
            rp_id w
          ≡ (ok v, last)
        → ((option_enabled info option_uv ≡ true) × (v.use_built_in_uv ≡ true))
          ⊎ IsByPin info operation challenge_hash permission rp_id w last v
    unfolding resolve_user_verification
    resolve_user_verification-required selection n h =
        elim (Bool-cases (option_enabled info option_uv)) [
          | inl u ↦ inl (u, ground (arith, n, h, u))
          | inr u ↦ elim (Bool-cases (option_present info option_client_pin)) [
            | inr p ↦ absurd (ground (arith, n, h, u, p))
            | inl p ↦ inr (verify_by_pin-IsByPin ground (arith, n, h, u, p))
          ]
        ]
