-- ===== src/ClientCtap2/Management.antt =====
-- internal/client/ctap2/manager.go: listing and deleting credentials, with their retries.
pub mod Retries
use fido_go.Base.{
  ℕ, Bool, true, false, ◌&&◌, ◌||◌, Option, none, some, List, [], ◌∷◌, ◌==◌, if◌then◌else◌, Bytes,
  Result, err, ok,
}
use fido_go.Ctap2.Types.{CredentialDescriptor, permission_credential_management}
use fido_go.Ctap2.CredentialManagement.{
  new_command, command_credential_management, command_credential_management_preview,
  credential_management_delete_credential,
}
use fido_go.ClientCtap2.Platform.{
  ◌>>=◌, Platform, Error, no_capable_protocol, credential_management_unsupported, Action, lift,
  status_of,
}
use fido_go.ClientCtap2.Protocol.{select_pin_uv_auth_protocol}
use fido_go.ClientCtap2.Session.{
  get_pin_token, get_pin_token_with_permissions, get_uv_token_with_permissions,
}
use fido_go.ClientCtap2.Pins.{Info, option_enabled, should_retry}
use fido_go.ClientCtap2.Credentials.{
  CredentialListResult, get_credential_metadata, enumerate_relying_parties, enumerate_each,
  invoke_authorized,
}

-- "credMgmt"
abbrev pub option_cred_mgmt : Bytes
option_cred_mgmt = 99 ∷ 114 ∷ 101 ∷ 100 ∷ 77 ∷ 103 ∷ 109 ∷ 116 ∷ []

-- "credentialMgmtPreview"
abbrev pub option_credential_mgmt_preview : Bytes
option_credential_mgmt_preview =
    99 ∷ 114 ∷ 101 ∷ 100 ∷ 101 ∷ 110 ∷ 116 ∷ 105 ∷ 97 ∷ 108 ∷ 77 ∷ 103 ∷ 109 ∷ 116 ∷ 80 ∷ 114 ∷ 101
    ∷ 118 ∷ 105 ∷ 101 ∷ 119 ∷ []

-- credentialManagementTokenSource: the token for a command code and a protocol version.
pub record TokenSource (World X : Type 0) : Type 0 where
  pub token : ℕ → ℕ → Action World X Bytes
  pub supports_preview_command : Bool

unfoldable pub command_code_of : {X : Type 0} → Option Info → Result (Error X) ℕ
command_code_of none = err no_capable_protocol
command_code_of (some info) =
    if option_enabled (some info) option_cred_mgmt
    then ok command_credential_management
    else if option_enabled (some info) option_credential_mgmt_preview
    then ok command_credential_management_preview
    else err credential_management_unsupported

-- The status codes that another command code may cure.
abbrev pub is_preview_status : ℕ → Bool
is_preview_status code =
    code == 0x01
    || (code == 0x02
        || (code == 0x12
            || (code == 0x14
                || (code == 0x2b
                    || (code == 0x2c || (code == 0x36 || (code == 0x3e || code == 0x40)))))))

abbrev pub protocols_of : Option Info → List ℕ
protocols_of none = []
protocols_of (some info) = info.pin_uv_auth_protocols

module _ {World X Priv Pub : Type 0} (p : Platform World X Priv Pub) where
  unfoldable pub list_credentials_with_command :
      TokenSource World X → ℕ → ℕ → Action World X CredentialListResult
  list_credentials_with_command source version code = do
    token ← source.token code version
    result ← get_credential_metadata p code version token
    elim (result.existing_resident_credentials_count == 0) [
      | true ↦ lift (ok result)
      | false ↦ do
        parties ← enumerate_relying_parties p code version token
        credentials ← enumerate_each p code version token parties
        lift (ok (record result { credentials = credentials }))
    ]

  unfoldable pub delete_credential_with_command :
      TokenSource World X → CredentialDescriptor → ℕ → ℕ → Action World X (Unit {0})
  delete_credential_with_command source credential version code = do
    token ← source.token code version
    response ←
        invoke_authorized p version token
          (record (new_command code credential_management_delete_credential) {
            subcommand_params =
                some (record { rp_id_hash = []; credential_id = some credential; user = none });
          })
    lift (ok tt)

  unfoldable pub should_retry_with_preview : Option Info → Error X → Bool
  should_retry_with_preview info e =
      option_enabled info option_credential_mgmt_preview
      && elim (status_of p e) [ none ↦ false | some code ↦ is_preview_status code ]

  -- Another action in place of one that failed.
  abbrev or_else : {A : Type 0} → Action World X A → (Error X → Action World X A) → Action World X A
  or_else first other w = elim (first w).0 [
    | ok a ↦ (ok a, (first w).1)
    | err e ↦ other e (first w).1
  ]

  -- The preview command, if the last error may be cured by it.
  unfoldable pub try_preview :
      {A : Type 0} → Option Info → Bool → ℕ → (ℕ → Action World X A) → Error X → Action World X A
  try_preview info supports_preview code run e =
      if code == command_credential_management
        && (supports_preview && should_retry_with_preview info e)
      then run command_credential_management_preview
      else lift (err e)

  -- What `listCredentials` and `deleteCredential` do with a command that may be run again.
  unfoldable pub with_retries :
      {A : Type 0} → Option Info → Bool → ℕ → (ℕ → Action World X A) → Action World X A
  with_retries info supports_preview code run = or_else (run code) (λ e.
      if should_retry p e
      then or_else (run code) (try_preview info supports_preview code run)
      else try_preview info supports_preview code run e)

  unfoldable pub list_credentials :
      Option Info → TokenSource World X → Action World X CredentialListResult
  list_credentials info source = do
    code ← lift (command_code_of info)
    version ← lift (select_pin_uv_auth_protocol (protocols_of info))
    with_retries info source.supports_preview_command code
        (list_credentials_with_command source version)

  unfoldable pub delete_credential :
      Option Info → CredentialDescriptor → TokenSource World X → Action World X (Unit {0})
  delete_credential info credential source = do
    code ← lift (command_code_of info)
    version ← lift (select_pin_uv_auth_protocol (protocols_of info))
    with_retries info source.supports_preview_command code
        (delete_credential_with_command source credential version)

  -- `pinCredentialManagementTokenSource` and `builtInUVCredentialManagementTokenSource`
  unfoldable pub pin_token_source : Bytes → TokenSource World X
  pin_token_source pin = record {
    token = λ code version.
        if code == command_credential_management_preview
        then get_pin_token p version pin
        else get_pin_token_with_permissions p version pin permission_credential_management [];
    supports_preview_command = true;
  }

  unfoldable pub built_in_uv_token_source : TokenSource World X
  built_in_uv_token_source = record {
    token =
        λ code version. get_uv_token_with_permissions p version permission_credential_management [];
    supports_preview_command = false;
  }
