-- ===== src/Ctap2/GetAssertion.antt =====
-- pkg/ctap2/get_assertion.go: authenticatorGetAssertion.
use fido_go.Base.{
  ℕ, Bool, false, not, Option, none, some, List, [], ◌==◌, length, Bytes, Result, ◌>>=◌, ◌>>◌,
  reject_if, ok,
}
use fido_go.Ctap2.Types.{UserEntity, CredentialDescriptor, GetAssertionOptions}
use fido_go.Ctap2.Cbor.{
  Error, request_field_required, response_field_missing, encode_command, decode_command_response,
}

abbrev pub command_get_assertion : ℕ
command_get_assertion = 0x02

-- Its fields are those of getAssertionRequest too.
pub record GetAssertionCommand (Value : Type 0) : Type 0 where
  pub rp_id : Bytes
  pub client_data_hash : Bytes
  pub allow_list : List CredentialDescriptor
  pub extensions : Option Value
  pub options : Option GetAssertionOptions
  pub pin_uv_auth_param : Bytes
  pub pin_uv_auth_protocol : ℕ

pub record GetAssertionResponse : Type 0 where
  pub credential : CredentialDescriptor
  pub auth_data : Bytes
  pub signature : Bytes
  pub user : Option UserEntity
  pub number_of_credentials : ℕ
  pub user_selected : Bool
  pub large_blob_key : Bytes

abbrev zero_response : GetAssertionResponse
zero_response = record {
  credential = record { type = []; id = []; transports = [] };
  auth_data = [];
  signature = [];
  user = none;
  number_of_credentials = 0;
  user_selected = false;
  large_blob_key = [];
}

module _ {X Value : Type 0} where
  unfoldable pub encode :
      (GetAssertionCommand Value → Result X Bytes)
      → GetAssertionCommand Value
      → Result (Error X) Bytes
  encode marshal command = do
    reject_if (length command.rp_id == 0) request_field_required
    reject_if (not (length command.client_data_hash == 32)) request_field_required
    encode_command command_get_assertion (some (marshal command))

module _ {X : Type 0} where
  unfoldable pub decode :
      (Bytes → Result X GetAssertionResponse) → Bytes → Result (Error X) GetAssertionResponse
  decode unmarshal content = do
    response ← decode_command_response (some unmarshal) zero_response content
    reject_if (length response.credential.id == 0) response_field_missing
    reject_if (length response.auth_data == 0) response_field_missing
    reject_if (length response.signature == 0) response_field_missing
    ok response
