-- ===== src/Ctap2/ClientPin.antt =====
-- pkg/ctap2/client_pin.go: authenticatorClientPIN.
use fido_go.Base.{
  ℕ, Bool, false, Option, none, some, [], ◌==◌, Bytes, Result, ◌>>=◌, ◌>>◌, reject_if, err, ok,
}
use fido_go.Ctap2.Types.{CoseKey}
use fido_go.Ctap2.Cose.{validate_ec2}
use fido_go.Ctap2.Cbor.{
  Error, subcommand_required, cose_key, encode_command, decode_command_response,
}

abbrev pub command_client_pin : ℕ
command_client_pin = 0x06

abbrev pub client_pin_get_retries : ℕ
client_pin_get_retries = 0x01

abbrev pub client_pin_get_key_agreement : ℕ
client_pin_get_key_agreement = 0x02

abbrev pub client_pin_set_pin : ℕ
client_pin_set_pin = 0x03

abbrev pub client_pin_change_pin : ℕ
client_pin_change_pin = 0x04

abbrev pub client_pin_get_pin_token : ℕ
client_pin_get_pin_token = 0x05

abbrev pub client_pin_get_pin_token_with_uv : ℕ
client_pin_get_pin_token_with_uv = 0x06

abbrev pub client_pin_get_pin_token_with_pin : ℕ
client_pin_get_pin_token_with_pin = 0x09

-- Its fields are those of clientPINRequest too.
pub record ClientPinCommand : Type 0 where
  pub pin_uv_auth_protocol : ℕ
  pub subcommand : ℕ
  pub key_agreement : Option CoseKey
  pub pin_uv_auth_param : Bytes
  pub new_pin_enc : Bytes
  pub pin_hash_enc : Bytes
  pub permissions : ℕ
  pub permissions_rp_id : Bytes

pub record ClientPinResponse : Type 0 where
  pub key_agreement : Option CoseKey
  pub pin_uv_auth_token : Bytes
  pub pin_retries : ℕ
  pub power_cycle_state : Bool
  pub uv_retries : ℕ

abbrev pub zero_response : ClientPinResponse
zero_response = record {
  key_agreement = none;
  pin_uv_auth_token = [];
  pin_retries = 0;
  power_cycle_state = false;
  uv_retries = 0;
}

abbrev pub new_client_pin_command : ℕ → ℕ → ClientPinCommand
new_client_pin_command protocol_version subcommand = record {
  pin_uv_auth_protocol = protocol_version;
  subcommand = subcommand;
  key_agreement = none;
  pin_uv_auth_param = [];
  new_pin_enc = [];
  pin_hash_enc = [];
  permissions = 0;
  permissions_rp_id = [];
}

module _ {X : Type 0} where
  unfoldable pub validate_key : Option CoseKey → Result (Error X) (Unit {0})
  validate_key none = ok tt
  validate_key (some key) = elim (validate_ec2 key) [ ok _ ↦ ok tt | err e ↦ err (cose_key e) ]

  unfoldable pub encode :
      (ClientPinCommand → Result X Bytes) → ClientPinCommand → Result (Error X) Bytes
  encode marshal command = do
    reject_if (command.subcommand == 0) subcommand_required
    validate_key command.key_agreement
    encode_command command_client_pin (some (marshal command))

  unfoldable pub decode :
      (Bytes → Result X ClientPinResponse) → Bytes → Result (Error X) ClientPinResponse
  decode unmarshal content = do
    response ← decode_command_response (some unmarshal) zero_response content
    validate_key response.key_agreement
    ok response
