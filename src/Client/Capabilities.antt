-- ===== src/Client/Capabilities.antt =====
-- pkg/client/capabilities.go: what the authenticator supports, probed once.
use fido_go.Base.{
  Bool, true, false, not, ◌&&◌, ◌||◌, Option, none, some, List, [], ◌∷◌, if◌then◌else◌, Bytes,
  equal_bytes, Result, err, ok,
}
use fido_go.Ctap1.Version.{VersionResponse, command_version}
use fido_go.Ctap1.Version
use fido_go.Ctap2.GetInfo.{GetInfoResponse, command_get_info, decode_get_info}
use fido_go.Ctap2.MakeCredential.{MakeCredentialCommand, MakeCredentialResponse}
use fido_go.Ctap2.GetAssertion.{GetAssertionCommand, GetAssertionResponse}
use fido_go.ClientCtap2.Pins.{lookup_option, option_client_pin, option_pin_uv_auth_token}
use fido_go.ClientCtap2.Management.{option_cred_mgmt, option_credential_mgmt_preview}
use fido_go.Client.Types.{
  Family, family_ctap1, family_ctap2, RawError, Error, no_capable_protocol, ctap1_only, Client,
  Action, invoke,
}

-- Marshal and Unmarshal of the commands that the client sends itself, with a fresh GetInfo response.
pub record Codec (Wire Value X : Type 0) : Type 0 where
  pub fresh_info : GetInfoResponse Wire
  pub unmarshal_get_info : Bytes → Result (RawError X) (GetInfoResponse Wire)
  pub marshal_get_assertion : GetAssertionCommand Value → Result (RawError X) Bytes
  pub unmarshal_get_assertion : Bytes → Result (RawError X) GetAssertionResponse
  pub marshal_make_credential : MakeCredentialCommand Value → Result (RawError X) Bytes
  pub unmarshal_make_credential : Bytes → Result (RawError X) (MakeCredentialResponse Value)

-- Capabilities, its nested structs in one.
pub record Capabilities (Wire : Type 0) : Type 0 where
  pub preferred : Option Family
  pub resident_key : Bool
  pub credential_management : Bool
  pub credential_management_preview : Bool
  pub client_pin : Bool
  pub built_in_uv : Bool
  pub pin_uv_auth_token : Bool
  pub bio_enrollment : Bool
  pub user_presence : Bool
  pub user_verification : Bool
  pub nfc_implicit_presence : Bool
  pub raw_ctap1 : Option Bytes
  pub raw_ctap2 : Option (GetInfoResponse Wire)

abbrev pub is_some : {A : Type 0} → Option A → Bool
is_some none = false
is_some (some a) = true

unfoldable pub has_option : Bytes → List (Bytes × Bool) → Bool
has_option key [] = false
has_option key ((k, value) ∷ entries) = equal_bytes k key || has_option key entries

module _ {Wire : Type 0} where
  abbrev pub option_present : GetInfoResponse Wire → Bytes → Bool
  option_present info key = has_option key info.options

  abbrev pub option_enabled : GetInfoResponse Wire → Bytes → Bool
  option_enabled info key = lookup_option key info.options

-- "rk"
abbrev pub option_rk : Bytes
option_rk = 114 ∷ 107 ∷ []

-- "uv"
abbrev pub option_uv : Bytes
option_uv = 117 ∷ 118 ∷ []

-- "bioEnroll"
abbrev pub option_bio_enroll : Bytes
option_bio_enroll = 98 ∷ 105 ∷ 111 ∷ 69 ∷ 110 ∷ 114 ∷ 111 ∷ 108 ∷ 108 ∷ []

unfoldable pub preferred_protocol :
    {Wire : Type 0} → Option Bytes → Option (GetInfoResponse Wire) → Option Family
preferred_protocol raw_ctap1 (some info) = some family_ctap2
preferred_protocol (some version) none = some family_ctap1
preferred_protocol none none = none

module _ {Wire : Type 0} where
  unfoldable pub build_capabilities :
      Option Bytes → Option (GetInfoResponse Wire) → Bool → Capabilities Wire
  build_capabilities raw_ctap1 none is_nfc = record {
    preferred = preferred_protocol {Wire = Wire} raw_ctap1 none;
    resident_key = false;
    credential_management = false;
    credential_management_preview = false;
    client_pin = false;
    built_in_uv = false;
    pin_uv_auth_token = false;
    bio_enrollment = false;
    user_presence = is_some raw_ctap1;
    user_verification = false;
    nfc_implicit_presence = is_nfc;
    raw_ctap1 = raw_ctap1;
    raw_ctap2 = none;
  }
  build_capabilities raw_ctap1 (some info) is_nfc = record {
    preferred = preferred_protocol raw_ctap1 (some info);
    resident_key = option_present info option_rk;
    credential_management =
        option_enabled info option_cred_mgmt || option_enabled info option_credential_mgmt_preview;
    credential_management_preview = option_enabled info option_credential_mgmt_preview;
    client_pin = option_present info option_client_pin;
    built_in_uv = option_present info option_uv;
    pin_uv_auth_token = option_enabled info option_pin_uv_auth_token;
    bio_enrollment = option_present info option_bio_enroll;
    user_presence = true;
    user_verification = option_present info option_client_pin || option_present info option_uv;
    nfc_implicit_presence = is_nfc;
    raw_ctap1 = raw_ctap1;
    raw_ctap2 = some info;
  }

module _ {World X Priv Pub Wire Value : Type 0} (client : Client World X Priv Pub)
    (codec : Codec Wire Value X) where
  -- What a failed probe gives: no capability.
  unfoldable pub probe_ctap2 : World → Option (GetInfoResponse Wire) × World
  probe_ctap2 w = elim client.ctap2_invoker [
    | none ↦ (none, w)
    | some invoker ↦
        let answer = invoke client family_ctap2 command_get_info [] w in
        (
          elim answer.0 [
            | err e ↦ none
            | ok content ↦
                elim (decode_get_info codec.unmarshal_get_info codec.fresh_info content) [
                  | err e ↦ none
                  | ok info ↦ some info
                ]
          ],
          answer.1,
        )
  ]

  unfoldable pub probe_ctap1 : World → Option Bytes × World
  probe_ctap1 w = elim client.ctap1_invoker [
    | none ↦ (none, w)
    | some invoker ↦
        let answer = invoke client family_ctap1 command_version [] w in
        (
          elim answer.0 [
            | err e ↦ none
            | ok content ↦
                let decoded = Version.decode content (record { version = [] }) in
                elim decoded.1 [ err e ↦ none | ok _ ↦ some decoded.0.version ]
          ],
          answer.1,
        )
  ]

  -- The client's cache, and the capabilities: GetInfo first, then the CTAP1 version.
  unfoldable pub capabilities :
      Option (Capabilities Wire)
      → World
      → (Result (Error X) (Capabilities Wire) × Option (Capabilities Wire)) × World
  capabilities (some caps) w = ((ok caps, some caps), w)
  capabilities none w =
      let (info, w') = probe_ctap2 w in
      let (version, w'') = probe_ctap1 w' in
      let caps = build_capabilities version info client.is_nfc in
      if not (is_some version) && not (is_some info)
      then ((err no_capable_protocol, none), w'')
      else ((ok caps, some caps), w'')

  -- A flow that starts with the capabilities.
  unfoldable pub with_capabilities :
      {A : Type 0}
      → (Capabilities Wire → Action World X A)
      → Option (Capabilities Wire)
      → World
      → (Result (Error X) A × Option (Capabilities Wire)) × World
  with_capabilities flow cache w =
      let ((result, cache'), w') = capabilities cache w in
      elim result [
        | err e ↦ ((err e, cache'), w')
        | ok caps ↦ ((((flow caps w').0, cache'), (flow caps w').1))
      ]

-- `requireCTAP2Capabilities` of pin.go
unfoldable pub require_ctap2 :
    {X Wire : Type 0} → Capabilities Wire → Result (Error X) (GetInfoResponse Wire)
require_ctap2 caps = elim caps.raw_ctap2 [
  | some info ↦ ok info
  | none ↦ if is_some caps.raw_ctap1 then err ctap1_only else err no_capable_protocol
]
