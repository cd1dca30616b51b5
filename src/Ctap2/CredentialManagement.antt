-- ===== src/Ctap2/CredentialManagement.antt =====
-- pkg/ctap2/credential_management.go: authenticatorCredentialManagement.
use fido_go.Base.{
  ℕ, Option, none, some, [], ◌∷◌, ◌==◌, if◌then◌else◌, Bytes, u8, Result, ◌>>=◌, ◌>>◌, reject_if,
  err, ok,
}
use fido_go.Ctap2.Types.{RelyingPartyEntity, UserEntity, CredentialDescriptor}
use fido_go.Ctap2.Cbor.{
  Error, subcommand_required, marshal_failed, encode_command, decode_command_response,
}

abbrev pub command_credential_management : ℕ
command_credential_management = 0x0a

abbrev pub command_credential_management_preview : ℕ
command_credential_management_preview = 0x41

abbrev pub credential_management_get_metadata : ℕ
credential_management_get_metadata = 0x01

abbrev pub credential_management_enumerate_rps_begin : ℕ
credential_management_enumerate_rps_begin = 0x02

abbrev pub credential_management_enumerate_rps_get_next : ℕ
credential_management_enumerate_rps_get_next = 0x03

abbrev pub credential_management_enumerate_credentials_begin : ℕ
credential_management_enumerate_credentials_begin = 0x04

abbrev pub credential_management_enumerate_credentials_get_next : ℕ
credential_management_enumerate_credentials_get_next = 0x05

abbrev pub credential_management_delete_credential : ℕ
credential_management_delete_credential = 0x06

pub record Params : Type 0 where
  pub rp_id_hash : Bytes
  pub credential_id : Option CredentialDescriptor
  pub user : Option UserEntity

pub record Command : Type 0 where
  pub command_code : ℕ
  pub subcommand : ℕ
  pub subcommand_params : Option Params
  pub pin_uv_auth_protocol : ℕ
  pub pin_uv_auth_param : Bytes

-- credentialManagementRequest
pub record Request : Type 0 where
  pub subcommand : ℕ
  pub subcommand_params : Option Params
  pub pin_uv_auth_protocol : ℕ
  pub pin_uv_auth_param : Bytes

-- Without PublicKey, which nothing reads.
pub record Response : Type 0 where
  pub existing_resident_credentials_count : ℕ
  pub max_possible_remaining_resident_credentials_count : ℕ
  pub rp : Option RelyingPartyEntity
  pub rp_id_hash : Bytes
  pub total_rps : ℕ
  pub user : Option UserEntity
  pub credential_id : Option CredentialDescriptor
  pub total_credentials : ℕ
  pub cred_protect : ℕ
  pub large_blob_key : Bytes

abbrev pub zero_response : Response
zero_response = record {
  existing_resident_credentials_count = 0;
  max_possible_remaining_resident_credentials_count = 0;
  rp = none;
  rp_id_hash = [];
  total_rps = 0;
  user = none;
  credential_id = none;
  total_credentials = 0;
  cred_protect = 0;
  large_blob_key = [];
}

abbrev pub command_byte : ℕ → ℕ
command_byte command_code =
    if command_code == 0 then command_credential_management else command_code

abbrev pub new_command : ℕ → ℕ → Command
new_command command_code subcommand = record {
  command_code = command_byte command_code;
  subcommand = subcommand;
  subcommand_params = none;
  pin_uv_auth_protocol = 0;
  pin_uv_auth_param = [];
}

abbrev pub request_of : Command → Request
request_of command = record {
  subcommand = command.subcommand;
  subcommand_params = command.subcommand_params;
  pin_uv_auth_protocol = command.pin_uv_auth_protocol;
  pin_uv_auth_param = command.pin_uv_auth_param;
}

module _ {X : Type 0} where
  unfoldable pub encoded_subcommand_params :
      (Params → Result X Bytes) → Option Params → Result (Error X) Bytes
  encoded_subcommand_params marshal none = ok []
  encoded_subcommand_params marshal (some params) = elim (marshal params) [
    | ok encoded ↦ ok encoded
    | err e ↦ err (marshal_failed e)
  ]

  unfoldable pub authentication_message :
      (Params → Result X Bytes) → Command → Result (Error X) Bytes
  authentication_message marshal command = do
    reject_if (command.subcommand == 0) subcommand_required
    encoded ← encoded_subcommand_params marshal command.subcommand_params
    ok (u8 command.subcommand ∷ encoded)

  unfoldable pub encode : (Request → Result X Bytes) → Command → Result (Error X) Bytes
  encode marshal command = do
    reject_if (command.subcommand == 0) subcommand_required
    encode_command (command_byte command.command_code) (some (marshal (request_of command)))

  unfoldable pub decode : (Bytes → Result X Response) → Bytes → Result (Error X) Response
  decode unmarshal content = decode_command_response (some unmarshal) zero_response content
