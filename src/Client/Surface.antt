-- ===== src/Client/Surface.antt =====
-- pkg/client/ctap2_surface.go: the management operations of CTAP2Client.
use fido_go.Base.{
  ℕ, Bool, true, false, not, ◌&&◌, Option, none, some, List, [], ◌==◌, if◌then◌else◌, length, Bytes,
  Result, ◌>>◌, reject_if, err, ok,
}
use fido_go.Ctap2.Types.{CredentialDescriptor}
use fido_go.Ctap2.GetInfo.{GetInfoResponse}
use fido_go.ClientCtap2.Pins.{option_client_pin, option_pin_uv_auth_token}
use fido_go.ClientCtap2.Credentials.{CredentialListResult}
use fido_go.ClientCtap2.Management.{option_cred_mgmt, option_credential_mgmt_preview}
use fido_go.Client.Types.{
  Error, ctap2_unavailable, client_pin_unsupported, unsupported_method, method_unavailable,
  credential_management_unsupported, bio_unsupported, bio_not_implemented, managing, Client, lift,
  request_pin,
}
use fido_go.Client.Capabilities.{
  Codec, Capabilities, option_present, option_enabled, option_uv, option_bio_enroll,
  with_capabilities,
}
use fido_go.Client.Manage.{
  with_ctap2, client_pin_retries, list_client_credentials, list_credentials_with_built_in_uv,
  delete_client_credential, delete_credential_with_built_in_uv,
}

pub record PinStatus : Type 0 where
  pub configured : Bool
  pub retries : ℕ
  pub uv_retries : ℕ
  pub power_cycle_needed : Bool

-- VerificationMethod, a Go string.
pub data Method : Type 0 where
  no_method by_pin by_built_in_uv other_method : Method

pub record UvAuthorization : Type 0 where
  pub pin : Bytes
  pub method : Method

-- credentialAuthorization: a PIN, or built-in verification with the GetInfo response.
pub data Authorization (Wire : Type 0) : Type 0 where
  with_pin : Bytes → Authorization Wire
  with_built_in_uv : GetInfoResponse Wire → Authorization Wire

module _ {X Wire : Type 0} where
  unfoldable pub check_built_in_uv : GetInfoResponse Wire → Result (Error X) (GetInfoResponse Wire)
  check_built_in_uv info = do
    reject_if (not (option_present info option_uv)) method_unavailable
    reject_if (not (option_enabled info option_uv)) method_unavailable
    reject_if (not (option_enabled info option_pin_uv_auth_token)) method_unavailable
    reject_if
        (not (option_enabled info option_cred_mgmt)
          && option_enabled info option_credential_mgmt_preview)
        unsupported_method
    reject_if (not (option_enabled info option_cred_mgmt)) credential_management_unsupported
    ok info

-- A step of a flow that keeps the client's cache.
abbrev Flow : Type 0 → Type 0 → Type 0 → Type 0 → Type 0
Flow World X Wire A =
    Option (Capabilities Wire) → World → (Result (Error X) A × Option (Capabilities Wire)) × World

abbrev then_flow :
    {World X Wire A B : Type 0}
    → Flow World X Wire A
    → (A → Flow World X Wire B)
    → Flow World X Wire B
then_flow first after cache w =
    let ((result, cache'), w') = first cache w in
    elim result [ err e ↦ ((err e, cache'), w') | ok a ↦ after a cache' w' ]

abbrev return_flow : {World X Wire A : Type 0} → Result (Error X) A → Flow World X Wire A
return_flow result cache w = ((result, cache), w)

module _ {World X Priv Pub Wire Value : Type 0} (client : Client World X Priv Pub)
    (codec : Codec Wire Value X) where
  -- `Info`, and the test of `CTAP2`.
  pub info : Flow World X Wire (GetInfoResponse Wire)
  info = with_capabilities client codec (λ caps. elim caps.raw_ctap2 [
    | none ↦ lift (err ctap2_unavailable)
    | some response ↦ lift (ok response)
  ])

  -- pinManager.Status
  pub pin_status : Flow World X Wire PinStatus
  pin_status =
      then_flow
        (with_ctap2 client codec (λ response.
          if not (option_present response option_client_pin)
          then lift (err client_pin_unsupported)
          else lift (ok (option_enabled response option_client_pin))))
        (λ configured.
          if not configured
          then return_flow (
              ok (record {
                configured = false;
                retries = 0;
                uv_retries = 0;
                power_cycle_needed = false;
              }))
          else then_flow (client_pin_retries client codec) (λ counters. return_flow (
              ok (record {
                configured = true;
                retries = counters.pin_retries;
                uv_retries = counters.uv_retries;
                power_cycle_needed = counters.power_cycle_state;
              }))))

  -- `resolveCredentialPINAuthorization`
  unfoldable pub resolve_pin : UvAuthorization → Flow World X Wire (Authorization Wire)
  resolve_pin authorization cache w =
      let (answer, asked) = request_pin client managing w in
      if not (length authorization.pin == 0)
      then ((ok (with_pin authorization.pin), cache), w)
      else elim answer [
        | err e ↦ ((err e, cache), asked)
        | ok pin ↦ ((ok (with_pin pin), cache), asked)
      ]

  -- `resolveCredentialAuthorization`
  unfoldable pub resolve_authorization : UvAuthorization → Flow World X Wire (Authorization Wire)
  resolve_authorization authorization = elim authorization.method [
    | no_method ↦ resolve_pin authorization
    | by_pin ↦ resolve_pin authorization
    | by_built_in_uv ↦
        then_flow (with_ctap2 client codec (λ response. lift (check_built_in_uv response)))
          (λ response. return_flow (ok (with_built_in_uv response)))
    | other_method ↦ return_flow (err unsupported_method)
  ]

  -- An action on the authenticator, with the client's cache as it is.
  abbrev keeping_cache : {A : Type 0} → (World → Result (Error X) A × World) → Flow World X Wire A
  keeping_cache action cache w = (((action w).0, cache), (action w).1)

  -- credentialManager.List
  pub list_managed : UvAuthorization → Flow World X Wire CredentialListResult
  list_managed authorization = then_flow (resolve_authorization authorization) (λ resolved.
      elim resolved [
        | with_pin pin ↦ list_client_credentials client codec pin
        | with_built_in_uv response ↦
            keeping_cache (list_credentials_with_built_in_uv client codec response)
      ])

  -- credentialManager.Delete
  pub delete_managed : CredentialDescriptor → UvAuthorization → Flow World X Wire (Unit {0})
  delete_managed credential authorization =
      then_flow (resolve_authorization authorization) (λ resolved. elim resolved [
        | with_pin pin ↦ delete_client_credential client codec credential pin
        | with_built_in_uv response ↦
            keeping_cache (delete_credential_with_built_in_uv client codec credential response)
      ])

  -- bioManager.Supported
  pub bio_supported : Flow World X Wire Bool
  bio_supported =
      with_ctap2 client codec (λ response. lift (ok (option_present response option_bio_enroll)))

  -- bioManager.Enrollments: a list is never more than empty.
  pub bio_enrollments : Flow World X Wire (List Bytes)
  bio_enrollments = with_ctap2 client codec (λ response.
      if not (option_present response option_bio_enroll)
      then lift (err bio_unsupported)
      else if not (option_enabled response option_bio_enroll)
      then lift (ok [])
      else lift (err bio_not_implemented))
