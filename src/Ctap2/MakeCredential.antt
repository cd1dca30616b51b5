-- ===== src/Ctap2/MakeCredential.antt =====
-- pkg/ctap2/make_credential.go: authenticatorMakeCredential. Extensions and attestation statements
-- are values of the CBOR library.
use fido_go.Base.{
  ℕ, Bool, true, false, not, Option, none, some, List, [], ◌==◌, length, Bytes, Result, ◌>>=◌, ◌>>◌,
  reject_if, ok,
}
use fido_go.Ctap2.Types.{
  RelyingPartyEntity, UserEntity, CredentialParameter, CredentialDescriptor, MakeCredentialOptions,
}
use fido_go.Ctap2.Cbor.{
  Error, request_field_required, response_field_missing, encode_command, decode_command_response,
}

abbrev pub command_make_credential : ℕ
command_make_credential = 0x01

-- Its fields are those of makeCredentialRequest too.
pub record MakeCredentialCommand (Value : Type 0) : Type 0 where
  pub client_data_hash : Bytes
  pub relying_party : RelyingPartyEntity
  pub user : UserEntity
  pub credential_parameters : List CredentialParameter
  pub exclude_list : List CredentialDescriptor
  pub extensions : Option Value
  pub options : Option MakeCredentialOptions
  pub pin_uv_auth_param : Bytes
  pub pin_uv_auth_protocol : ℕ
  pub enterprise_attestation : ℕ

pub record MakeCredentialResponse (Value : Type 0) : Type 0 where
  pub format : Bytes
  pub auth_data : Bytes
  pub attestation_statement : Option Value
  pub enterprise_attestation : Bool
  pub large_blob_key : Bytes

abbrev zero_response : {Value : Type 0} → MakeCredentialResponse Value
zero_response = record {
  format = [];
  auth_data = [];
  attestation_statement = none;
  enterprise_attestation = false;
  large_blob_key = [];
}

abbrev pub is_none : {A : Type 0} → Option A → Bool
is_none none = true
is_none (some a) = false

module _ {X Value : Type 0} where
  unfoldable pub encode :
      (MakeCredentialCommand Value → Result X Bytes)
      → MakeCredentialCommand Value
      → Result (Error X) Bytes
  encode marshal command = do
    reject_if (not (length command.client_data_hash == 32)) request_field_required
    reject_if (length command.relying_party.id == 0) request_field_required
    reject_if (length command.credential_parameters == 0) request_field_required
    encode_command command_make_credential (some (marshal command))

  unfoldable pub decode :
      (Bytes → Result X (MakeCredentialResponse Value))
      → Bytes
      → Result (Error X) (MakeCredentialResponse Value)
  decode unmarshal content = do
    response ← decode_command_response (some unmarshal) zero_response content
    reject_if (length response.format == 0) response_field_missing
    reject_if (length response.auth_data == 0) response_field_missing
    reject_if (is_none response.attestation_statement) response_field_missing
    ok response
