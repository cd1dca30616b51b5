-- ===== src/Ctap2/GetInfo.antt =====
-- pkg/ctap2/get_info.go and reset.go: authenticatorGetInfo and authenticatorReset.
use fido_go.Base.{
  ◌>>=◌, ◌>>◌, ℕ, Bool, false, not, ◌&&◌, ◌||◌, none, some, List, [], ◌∷◌, ◌==◌, length, Bytes,
  Result, reject_if, ok,
}
use fido_go.Ctap2.Types.{CredentialParameter}
use fido_go.Ctap2.Cbor.{Error, response_field_missing, encode_command, decode_command_response}

abbrev pub command_get_info : ℕ
command_get_info = 0x04

abbrev pub command_reset : ℕ
command_reset = 0x07

-- A Go map is a list of its entries. The fields that no validation reads are in Wire.
pub record GetInfoResponse (Wire : Type 0) : Type 0 where
  pub versions : List Bytes
  pub aaguid : Bytes
  pub options : List (Bytes × Bool)
  pub pin_uv_auth_protocols : List ℕ
  pub transports : List Bytes
  pub algorithms : List CredentialParameter
  pub wire : Wire
  pub raw : List (ℕ × Bytes)

unfoldable pub has_key : ℕ → List (ℕ × Bytes) → Bool
has_key key [] = false
has_key key ((k, v) ∷ entries) = k == key || has_key key entries

module _ {X Wire : Type 0} where
  -- `Validate`
  unfoldable pub validate_info : GetInfoResponse Wire → Result (Error X) (Unit {0})
  validate_info r = do
    reject_if (length r.versions == 0) response_field_missing
    reject_if (not (length r.aaguid == 16)) response_field_missing
    reject_if (has_key 0x06 r.raw && length r.pin_uv_auth_protocols == 0) response_field_missing
    reject_if (has_key 0x09 r.raw && length r.transports == 0) response_field_missing
    reject_if (has_key 0x0a r.raw && length r.algorithms == 0) response_field_missing

  unfoldable pub decode_get_info :
      (Bytes → Result X (GetInfoResponse Wire))
      → GetInfoResponse Wire
      → Bytes
      → Result (Error X) (GetInfoResponse Wire)
  decode_get_info unmarshal fresh content = do
    response ← decode_command_response (some unmarshal) fresh content
    validate_info response
    ok response

module _ {X : Type 0} where
  unfoldable pub encode_get_info : Result (Error X) Bytes
  encode_get_info = ok (command_get_info ∷ [])

  pub encode_reset : Result (Error X) Bytes
  encode_reset = encode_command command_reset none

  unfoldable pub decode_reset : Bytes → Result (Error X) (Unit {0})
  decode_reset content = decode_command_response none tt content
