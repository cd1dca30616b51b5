-- ===== src/Client/Register.antt =====
-- pkg/client/register.go: a new credential by the best protocol that the authenticator has.
use fido_go.Base.{
  Bool, true, false, not, ◌&&◌, Option, none, some, List, [], ◌∷◌, ◌++◌, ◌==◌, if◌then◌else◌,
  length, drop, Bytes, Result, reject_if, err, ok, negsuc,
}
use fido_go.Ctap1.Register.{CertificateReader, RegisterResponse, command_register}
use fido_go.Ctap1.Register
use fido_go.Ctap2.Types.{
  UserEntity, CredentialParameter, CredentialDescriptor, MakeCredentialOptions,
  permission_make_credential,
}
use fido_go.Ctap2.GetInfo.{GetInfoResponse}
use fido_go.Ctap2.MakeCredential.{
  MakeCredentialCommand, MakeCredentialResponse, command_make_credential,
}
use fido_go.Ctap2.MakeCredential
use fido_go.ClientCtap2.Credentials.{public_key_type}
use fido_go.Client.Types.{
  Family, family_ctap1, family_ctap2, Error, ctap1_error, ctap2_error, no_capable_protocol,
  ctap1_options_required, challenge_hash_size, app_id_hash_size, missing_credential_id, is_required,
  normalized_user_presence, AuthenticatorSelection, registering, awaiting_user_presence, Client,
  Action, ◌>>=◌, ◌>>◌, lift, with_error, invoke, emit_interaction,
}
use fido_go.Client.AuthData.{parse_authenticator_data}
use fido_go.Client.Capabilities.{Codec, Capabilities, with_capabilities}
use fido_go.Client.Pin.{resolve_user_verification}

-- CTAP2RegistrationOptions; its zero value stands for nil.
pub record Ctap2Options : Type 0 where
  pub rp_name : Bytes
  pub resident_key : Bool
  pub credential_parameters : List CredentialParameter
  pub exclude_list : List CredentialDescriptor

-- The CTAP1 options are the hash of the application's ID.
pub record RegistrationRequest : Type 0 where
  pub challenge_hash : Bytes
  pub rp_id : Bytes
  pub user : UserEntity
  pub selection : AuthenticatorSelection
  pub ctap1 : Option Bytes
  pub ctap2 : Ctap2Options

pub record RegistrationResult (Value : Type 0) : Type 0 where
  pub family : Family
  pub credential_id : Bytes
  pub attestation_format : Bytes
  pub user_present : Bool
  pub user_verified : Bool
  pub raw_ctap1 : Option RegisterResponse
  pub raw_ctap2 : Option (MakeCredentialResponse Value)

-- "fido-u2f"
abbrev pub fido_u2f_attestation_format : Bytes
fido_u2f_attestation_format = 102 ∷ 105 ∷ 100 ∷ 111 ∷ 45 ∷ 117 ∷ 50 ∷ 102 ∷ []

unfoldable pub make_credential_options :
    AuthenticatorSelection → Bool → Bool → Option MakeCredentialOptions
make_credential_options selection use_built_in_uv resident_key =
    if not resident_key
      && (not (is_required (normalized_user_presence selection)) && not use_built_in_uv)
    then none
    else some (record {
      resident_key = resident_key;
      user_presence = is_required (normalized_user_presence selection);
      user_verification = use_built_in_uv;
    })

-- ES256 where none is asked for.
unfoldable pub default_credential_parameters : List CredentialParameter → List CredentialParameter
default_credential_parameters parameters =
    if length parameters == 0
    then record { type = public_key_type; alg = negsuc 6 } ∷ []
    else parameters

unfoldable pub decode_ctap1 :
    {X : Type 0} → CertificateReader → Bytes → Result (Error X) RegisterResponse
decode_ctap1 reader content =
    let fresh : RegisterResponse = record {
      reserved = 0;
      public_key = [];
      key_handle = [];
      attestation_certificate = [];
      signature = [];
    } in
    let decoded = Register.decode reader content fresh in
    elim decoded.1 [ ok _ ↦ ok decoded.0 | err e ↦ err (ctap1_error e) ]

module _ {World X Priv Pub Wire Value : Type 0} (client : Client World X Priv Pub)
    (codec : Codec Wire Value X) (reader : CertificateReader) where
  abbrev await_presence : Family → Action World X (Unit {0})
  await_presence family =
      emit_interaction client
        (record { kind = awaiting_user_presence; operation = registering; family = family })

  unfoldable pub register_ctap2 :
      RegistrationRequest → GetInfoResponse Wire → Action World X (RegistrationResult Value)
  register_ctap2 request info = do
    verification ←
        resolve_user_verification client codec info registering request.selection
          request.challenge_hash permission_make_credential request.rp_id
    await_presence family_ctap2
    encoded ← lift (
        with_error ctap2_error (
          MakeCredential.encode codec.marshal_make_credential (record {
            client_data_hash = request.challenge_hash;
            relying_party = record { id = request.rp_id; name = request.ctap2.rp_name };
            user = request.user;
            credential_parameters =
                default_credential_parameters request.ctap2.credential_parameters;
            exclude_list = request.ctap2.exclude_list;
            extensions = none;
            options =
                make_credential_options request.selection verification.use_built_in_uv
                  request.ctap2.resident_key;
            pin_uv_auth_param = verification.pin_uv_auth_param;
            pin_uv_auth_protocol = verification.pin_uv_auth_protocol;
            enterprise_attestation = 0;
          })))
    content ← invoke client family_ctap2 command_make_credential (drop 1 encoded)
    response ←
        lift
          (with_error ctap2_error (MakeCredential.decode codec.unmarshal_make_credential content))
    parsed ← lift (parse_authenticator_data response.auth_data)
    lift (reject_if (length parsed.credential_id == 0) missing_credential_id)
    lift (
        ok (record {
          family = family_ctap2;
          credential_id = parsed.credential_id;
          attestation_format = response.format;
          user_present = parsed.user_present;
          user_verified = parsed.user_verified;
          raw_ctap1 = none;
          raw_ctap2 = some response;
        }))

  unfoldable pub register_ctap1 : RegistrationRequest → Action World X (RegistrationResult Value)
  register_ctap1 request = elim request.ctap1 [
    | none ↦ lift (err ctap1_options_required)
    | some app_id_hash ↦ do
      lift (reject_if (not (length request.challenge_hash == 32)) challenge_hash_size)
      lift (reject_if (not (length app_id_hash == 32)) app_id_hash_size)
      await_presence family_ctap1
      content ← invoke client family_ctap1 command_register (request.challenge_hash ++ app_id_hash)
      response ← lift (decode_ctap1 reader content)
      lift (
          ok (record {
            family = family_ctap1;
            credential_id = response.key_handle;
            attestation_format = fido_u2f_attestation_format;
            user_present = true;
            user_verified = false;
            raw_ctap1 = some response;
            raw_ctap2 = none;
          }))
  ]

  -- `Register` on the capabilities.
  unfoldable pub register_with :
      RegistrationRequest → Capabilities Wire → Action World X (RegistrationResult Value)
  register_with request caps = elim caps.raw_ctap2 [
    | some info ↦ register_ctap2 request info
    | none ↦ elim caps.raw_ctap1 [
      | none ↦ lift (err no_capable_protocol)
      | some version ↦ register_ctap1 request
    ]
  ]

  pub register :
      RegistrationRequest
      → Option (Capabilities Wire)
      → World
      → (Result (Error X) (RegistrationResult Value) × Option (Capabilities Wire)) × World
  register request = with_capabilities client codec (register_with request)
