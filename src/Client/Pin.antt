-- ===== src/Client/Pin.antt =====
-- pkg/client/pin.go: the user verification of a flow.
pub mod Required
mod Tests
use fido_go.Base.{ℕ, Bool, true, false, not, [], if◌then◌else◌, Bytes, err, ok}
use fido_go.Ctap2.GetInfo.{GetInfoResponse}
use fido_go.ClientCtap2.Protocol.{authenticate}
use fido_go.ClientCtap2.Pins.{Info, option_client_pin, pin_token_for_permission}
use fido_go.Client.Types.{
  Error, pin_required, user_verification_unsupported, Requirement, discouraged, preferred, required,
  AuthenticatorSelection, is_required, normalized_user_verification, unset, Operation, Client,
  Action, managed, manager_platform, request_pin,
}
use fido_go.Client.Capabilities.{Codec, option_present, option_enabled, option_uv}

abbrev pub info_of : {Wire : Type 0} → GetInfoResponse Wire → Info
info_of info = record { options = info.options; pin_uv_auth_protocols = info.pin_uv_auth_protocols }

-- Built-in verification, and the pinUvAuthParam with its protocol.
pub record UserVerification : Type 0 where
  pub use_built_in_uv : Bool
  pub pin_uv_auth_param : Bytes
  pub pin_uv_auth_protocol : ℕ

abbrev pub no_verification : UserVerification
no_verification = record {
  use_built_in_uv = false;
  pin_uv_auth_param = [];
  pin_uv_auth_protocol = 0;
}

abbrev is_discouraged : Requirement → Bool
is_discouraged discouraged = true
is_discouraged required = false
is_discouraged preferred = false
is_discouraged unset = false

-- ErrPINRequired is let pass where verification is only preferred.
unfoldable pub may_skip : {X : Type 0} → Requirement → Error X → Bool
may_skip preferred pin_required = true
may_skip policy e = false

module _ {World X Priv Pub Wire Value : Type 0} (client : Client World X Priv Pub)
    (codec : Codec Wire Value X) where
  unfoldable pub verify_by_pin :
      GetInfoResponse Wire
      → Operation
      → Requirement
      → Bytes
      → ℕ
      → Bytes
      → Action World X UserVerification
  verify_by_pin info operation policy challenge_hash permission rp_id w =
      let (answer, asked) = request_pin client operation w in
      elim answer [
        | err e ↦ if may_skip policy e then (ok no_verification, asked) else (err e, asked)
        | ok pin ↦
            let (result, last) =
              managed client
                (pin_token_for_permission (manager_platform client) (info_of info) pin permission
                  rp_id)
                asked in
            elim result [
              | err e ↦ (err e, last)
              | ok token ↦ (
                ok (record {
                  use_built_in_uv = false;
                  pin_uv_auth_param = authenticate client.crypto token.1 token.0 challenge_hash;
                  pin_uv_auth_protocol = token.1;
                }),
                last,
              )
            ]
      ]

  -- `resolveCTAP2UserVerification`
  unfoldable pub resolve_user_verification :
      GetInfoResponse Wire
      → Operation
      → AuthenticatorSelection
      → Bytes
      → ℕ
      → Bytes
      → Action World X UserVerification
  resolve_user_verification info operation selection challenge_hash permission rp_id w =
      let policy = normalized_user_verification selection in
      let by_pin = verify_by_pin info operation policy challenge_hash permission rp_id w in
      if is_discouraged policy
      then (ok no_verification, w)
      else if option_enabled info option_uv
      then (ok (record no_verification { use_built_in_uv = true }), w)
      else if not (option_present info option_client_pin)
      then (if is_required policy then err user_verification_unsupported else ok no_verification, w)
      else by_pin
