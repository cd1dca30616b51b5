-- ===== src/Client/Authenticate.antt =====
-- pkg/client/authenticate.go: an assertion by the best protocol that the authenticator has.
use fido_go.Base.{
  ℕ, Bool, false, not, ◌&&◌, Option, none, some, List, [], ◌∷◌, ◌++◌, ◌==◌, if◌then◌else◌, length,
  drop, Bytes, u8, Result, reject_if, err, ok,
}
use fido_go.Ctap1.Authenticate.{
  AuthenticateResponse, command_authenticate, control_enforce_user_presence_and_sign,
  control_dont_enforce_user_presence_and_sign, user_present,
}
use fido_go.Ctap1.Authenticate
use fido_go.Ctap2.Types.{CredentialDescriptor, GetAssertionOptions, permission_get_assertion}
use fido_go.Ctap2.GetInfo.{GetInfoResponse}
use fido_go.Ctap2.GetAssertion.{GetAssertionCommand, GetAssertionResponse, command_get_assertion}
use fido_go.Ctap2.GetAssertion
use fido_go.Client.Types.{
  Family, family_ctap1, family_ctap2, Error, ctap1_error, ctap2_error, no_capable_protocol,
  ctap1_options_required, challenge_hash_size, app_id_hash_size, key_handle_empty, is_required,
  normalized_user_presence, discouraged, preferred, required, unset, AuthenticatorSelection,
  authenticating, awaiting_user_presence, Client, Action, ◌>>=◌, ◌>>◌, lift, with_error, invoke,
  emit_interaction,
}
use fido_go.Client.AuthData.{parse_authenticator_data}
use fido_go.Client.Capabilities.{Codec, Capabilities, with_capabilities}
use fido_go.Client.Pin.{resolve_user_verification}

pub record Ctap1Options : Type 0 where
  pub app_id_hash : Bytes
  pub key_handle : Bytes
  pub control : ℕ

-- The CTAP2 options are their allow list, empty where they are nil.
pub record AuthenticationRequest : Type 0 where
  pub challenge_hash : Bytes
  pub rp_id : Bytes
  pub selection : AuthenticatorSelection
  pub ctap1 : Option Ctap1Options
  pub allow_list : List CredentialDescriptor

pub record AuthenticationResult : Type 0 where
  pub family : Family
  pub credential_id : Bytes
  pub signature : Bytes
  pub sign_count : ℕ
  pub user_present : Bool
  pub user_verified : Bool
  pub raw_ctap1 : Option AuthenticateResponse
  pub raw_ctap2 : Option GetAssertionResponse

unfoldable pub get_assertion_options : AuthenticatorSelection → Bool → Option GetAssertionOptions
get_assertion_options selection use_built_in_uv =
    if not (is_required (normalized_user_presence selection)) && not use_built_in_uv
    then none
    else some (record {
      user_presence = is_required (normalized_user_presence selection);
      user_verification = use_built_in_uv;
    })

unfoldable pub default_control : AuthenticatorSelection → ℕ
default_control selection = elim (normalized_user_presence selection) [
  | discouraged ↦ control_dont_enforce_user_presence_and_sign
  | preferred ↦ control_enforce_user_presence_and_sign
  | required ↦ control_enforce_user_presence_and_sign
  | unset ↦ control_enforce_user_presence_and_sign
]

-- The control of the command, which only decodes the response.
unfoldable pub control_of : AuthenticatorSelection → Ctap1Options → ℕ
control_of selection options =
    if options.control == 0 then default_control selection else options.control

-- `payload` of the CTAP1 flow.
unfoldable pub authenticate_payload : Bytes → Ctap1Options → Bytes
authenticate_payload challenge_hash options =
    challenge_hash ++ (options.app_id_hash ++ (u8 (length options.key_handle) ∷ options.key_handle))

unfoldable pub result_of_ctap1 : Bytes → AuthenticateResponse → AuthenticationResult
result_of_ctap1 key_handle response = record {
  family = family_ctap1;
  credential_id = key_handle;
  signature = response.signature;
  sign_count = response.counter;
  user_present = user_present response;
  user_verified = false;
  raw_ctap1 = some response;
  raw_ctap2 = none;
}

-- `command.DecodeResponse` into a fresh response.
unfoldable pub decode_ctap1 : {X : Type 0} → Bytes → Result (Error X) AuthenticateResponse
decode_ctap1 content =
    let decoded =
      Authenticate.decode content (record { user_presence = 0; counter = 0; signature = [] }) in
    elim decoded.1 [ ok _ ↦ ok decoded.0 | err e ↦ err (ctap1_error e) ]

module _ {World X Priv Pub Wire Value : Type 0} (client : Client World X Priv Pub)
    (codec : Codec Wire Value X) where
  abbrev await_presence : Family → Action World X (Unit {0})
  await_presence family =
      emit_interaction client
        (record { kind = awaiting_user_presence; operation = authenticating; family = family })

  unfoldable pub authenticate_ctap2 :
      AuthenticationRequest → GetInfoResponse Wire → Action World X AuthenticationResult
  authenticate_ctap2 request info = do
    verification ←
        resolve_user_verification client codec info authenticating request.selection
          request.challenge_hash permission_get_assertion request.rp_id
    await_presence family_ctap2
    encoded ← lift (
        with_error ctap2_error (
          GetAssertion.encode {Value = Value} codec.marshal_get_assertion (record {
            rp_id = request.rp_id;
            client_data_hash = request.challenge_hash;
            allow_list = request.allow_list;
            extensions = none;
            options = get_assertion_options request.selection verification.use_built_in_uv;
            pin_uv_auth_param = verification.pin_uv_auth_param;
            pin_uv_auth_protocol = verification.pin_uv_auth_protocol;
          })))
    content ← invoke client family_ctap2 command_get_assertion (drop 1 encoded)
    response ←
        lift (with_error ctap2_error (GetAssertion.decode codec.unmarshal_get_assertion content))
    parsed ← lift (parse_authenticator_data response.auth_data)
    lift (
        ok (record {
          family = family_ctap2;
          credential_id = response.credential.id;
          signature = response.signature;
          sign_count = parsed.sign_count;
          user_present = parsed.user_present;
          user_verified = parsed.user_verified;
          raw_ctap1 = none;
          raw_ctap2 = some response;
        }))

  unfoldable pub authenticate_ctap1 : AuthenticationRequest → Action World X AuthenticationResult
  authenticate_ctap1 request = elim request.ctap1 [
    | none ↦ lift (err ctap1_options_required)
    | some options ↦ do
      lift (reject_if (not (length request.challenge_hash == 32)) challenge_hash_size)
      lift (reject_if (not (length options.app_id_hash == 32)) app_id_hash_size)
      lift (reject_if (length options.key_handle == 0) key_handle_empty)
      await_presence family_ctap1
      content ←
          invoke client family_ctap1 command_authenticate
            (authenticate_payload request.challenge_hash options)
      response ← lift (decode_ctap1 content)
      lift (ok (result_of_ctap1 options.key_handle response))
  ]

  -- `Authenticate` on the capabilities.
  unfoldable pub authenticate_with :
      AuthenticationRequest → Capabilities Wire → Action World X AuthenticationResult
  authenticate_with request caps = elim caps.raw_ctap2 [
    | some info ↦ authenticate_ctap2 request info
    | none ↦ elim caps.raw_ctap1 [
      | none ↦ lift (err no_capable_protocol)
      | some version ↦ authenticate_ctap1 request
    ]
  ]

  pub authenticate :
      AuthenticationRequest
      → Option (Capabilities Wire)
      → World
      → (Result (Error X) AuthenticationResult × Option (Capabilities Wire)) × World
  authenticate request = with_capabilities client codec (authenticate_with request)
