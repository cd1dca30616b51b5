-- ===== src/Client/Manage.antt =====
-- pkg/client: pin.go, reset.go and credentials.go, the management of PINs and credentials.
use fido_go.Base.{Option, some, [], ◌==◌, if◌then◌else◌, length, Bytes, Result, err, ok}
use fido_go.Ctap2.Types.{CredentialDescriptor}
use fido_go.Ctap2.GetInfo.{GetInfoResponse, command_reset, decode_reset}
use fido_go.ClientCtap2.Pins.{PinRetries, set_pin, get_pin_retries, change_pin}
use fido_go.ClientCtap2.Credentials.{CredentialListResult, normalize_credential_descriptor}
use fido_go.ClientCtap2.Management.{
  list_credentials, delete_credential, pin_token_source, built_in_uv_token_source,
}
use fido_go.Client.Types.{
  ◌>>=◌, ◌>>◌, Error, manager, ctap2_error, pin_required, new_pin_required, resetting,
  awaiting_user_presence, family_ctap2, Client, Action, lift, with_error, invoke, managed,
  manager_platform, emit_interaction,
}
use fido_go.Client.Capabilities.{Codec, Capabilities, with_capabilities, require_ctap2}
use fido_go.Client.Pin.{info_of}

module _ {World X Priv Pub Wire Value : Type 0} (client : Client World X Priv Pub)
    (codec : Codec Wire Value X) where
  -- A management operation on the GetInfo response.
  unfoldable pub with_ctap2 :
      {A : Type 0}
      → (GetInfoResponse Wire → Action World X A)
      → Option (Capabilities Wire)
      → World
      → (Result (Error X) A × Option (Capabilities Wire)) × World
  with_ctap2 flow =
      with_capabilities client codec
        (λ caps w. elim (require_ctap2 caps) [ err e ↦ (err e, w) | ok info ↦ flow info w ])

  -- The rejection of an empty secret before anything else.
  unfoldable pub unless_empty :
      {A : Type 0}
      → Bytes
      → Error X
      → (Option (Capabilities Wire)
          → World
          → (Result (Error X) A × Option (Capabilities Wire)) × World)
      → Option (Capabilities Wire)
      → World
      → (Result (Error X) A × Option (Capabilities Wire)) × World
  unless_empty secret e flow cache w =
      if length secret == 0 then ((err e, cache), w) else flow cache w

  pub set_client_pin :
      Bytes
      → Option (Capabilities Wire)
      → World
      → (Result (Error X) (Unit {0}) × Option (Capabilities Wire)) × World
  set_client_pin new_pin = unless_empty new_pin new_pin_required (
      with_ctap2
        (λ info. managed client (set_pin (manager_platform client) (info_of info) new_pin)))

  pub client_pin_retries :
      Option (Capabilities Wire)
      → World
      → (Result (Error X) PinRetries × Option (Capabilities Wire)) × World
  client_pin_retries =
      with_ctap2
        (λ info. managed client (get_pin_retries (manager_platform client) (some (info_of info))))

  pub change_client_pin :
      Bytes
      → Bytes
      → Option (Capabilities Wire)
      → World
      → (Result (Error X) (Unit {0}) × Option (Capabilities Wire)) × World
  change_client_pin current_pin new_pin = unless_empty current_pin pin_required (
      unless_empty new_pin new_pin_required (
        with_ctap2 (λ info.
          managed client
            (change_pin (manager_platform client) (some (info_of info)) current_pin new_pin))))

  pub list_client_credentials :
      Bytes
      → Option (Capabilities Wire)
      → World
      → (Result (Error X) CredentialListResult × Option (Capabilities Wire)) × World
  list_client_credentials pin = unless_empty pin pin_required (
      with_ctap2 (λ info. managed client (
        list_credentials (manager_platform client) (some (info_of info))
          (pin_token_source (manager_platform client) pin))))

  pub list_credentials_with_built_in_uv : GetInfoResponse Wire → Action World X CredentialListResult
  list_credentials_with_built_in_uv info = managed client (
      list_credentials (manager_platform client) (some (info_of info))
        (built_in_uv_token_source (manager_platform client)))

  pub delete_client_credential :
      CredentialDescriptor
      → Bytes
      → Option (Capabilities Wire)
      → World
      → (Result (Error X) (Unit {0}) × Option (Capabilities Wire)) × World
  delete_client_credential credential pin = unless_empty pin pin_required (λ cache w.
      elim (with_error manager (normalize_credential_descriptor credential)) [
        | err e ↦ ((err e, cache), w)
        | ok normalized ↦
            with_ctap2
              (λ info. managed client (
                delete_credential (manager_platform client) (some (info_of info)) normalized
                  (pin_token_source (manager_platform client) pin)))
              cache w
      ])

  pub delete_credential_with_built_in_uv :
      CredentialDescriptor → GetInfoResponse Wire → Action World X (Unit {0})
  delete_credential_with_built_in_uv credential info = do
    normalized ← lift (with_error manager (normalize_credential_descriptor credential))
    managed client (
        delete_credential (manager_platform client) (some (info_of info)) normalized
          (built_in_uv_token_source (manager_platform client)))

  -- `Reset`
  pub reset :
      Option (Capabilities Wire)
      → World
      → (Result (Error X) (Unit {0}) × Option (Capabilities Wire)) × World
  reset = with_ctap2 (λ info. do
    emit_interaction client
        (record { kind = awaiting_user_presence; operation = resetting; family = family_ctap2 })
    content ← invoke client family_ctap2 command_reset []
    lift (with_error ctap2_error (decode_reset content)))
