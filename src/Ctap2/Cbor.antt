-- ===== src/Ctap2/Cbor.antt =====
-- pkg/ctap2/cbor.go and errors.go: a command byte before the CBOR of a request, and a status byte
-- before that of a response. The CBOR library gives the results of Marshal and Unmarshal, with errors
-- of its own type.
use fido_go.Base.{ℕ, not, Option, none, some, [], ◌∷◌, ◌==◌, if◌then◌else◌, Bytes, Result, err, ok}

pub data CoseError : Type 0 where
  key_type algorithm curve missing_coordinate long_coordinate : CoseError

-- *Error is `status`; the others stand for the texts of the package's errors.
pub data Error (X : Type 0) : Type 0 where
  marshal_failed unmarshal_failed : X → Error X
  response_empty : Error X
  status : ℕ → Error X
  subcommand_required : Error X
  cose_key : CoseError → Error X
  request_field_required response_field_missing : Error X

module _ {X : Type 0} where
  -- `none` is a nil request.
  unfoldable pub encode_command : ℕ → Option (Result X Bytes) → Result (Error X) Bytes
  encode_command command none = ok (command ∷ [])
  encode_command command (some (err e)) = err (marshal_failed e)
  encode_command command (some (ok encoded)) = ok (command ∷ encoded)

  -- Into a target that holds `fresh`; `none` is a nil target.
  unfoldable pub decode_command_response :
      {R : Type 0} → Option (Bytes → Result X R) → R → Bytes → Result (Error X) R
  decode_command_response unmarshal fresh [] = err response_empty
  decode_command_response none fresh (code ∷ body) =
      if not (code == 0x00) then err (status code) else ok fresh
  decode_command_response (some unmarshal) fresh (code ∷ []) =
      if not (code == 0x00) then err (status code) else ok fresh
  decode_command_response (some unmarshal) fresh (code ∷ b ∷ body) =
      let decoded = unmarshal (b ∷ body) in
      if not (code == 0x00)
      then err (status code)
      else elim decoded [ ok response ↦ ok response | err e ↦ err (unmarshal_failed e) ]
