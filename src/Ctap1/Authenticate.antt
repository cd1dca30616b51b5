-- ===== src/Ctap1/Authenticate.antt =====
-- pkg/ctap1/authenticate.go: U2F_AUTHENTICATE.
pub mod Layout
use fido_go.Base.{
  ℕ, bit_and, Bool, not, ◌||◌, ◌∷◌, ◌++◌, ltb, ◌==◌, if◌then◌else◌, length, drop, Bytes, u8,
  byte_at, uint32_at, Result, ◌>>=◌, ◌>>◌, reject_if, err, ok,
}
use fido_go.Ctap1.Apdu.{encode_apdu, decode_response, max_extended_response_length}
use fido_go.Ctap1.Errors.{
  Error, unsupported_control, challenge_size, application_size, key_handle_empty,
  key_handle_too_long, payload_too_short, missing_signature,
}

abbrev pub command_authenticate : ℕ
command_authenticate = 0x02

abbrev pub control_enforce_user_presence_and_sign : ℕ
control_enforce_user_presence_and_sign = 0x03

abbrev pub control_check_only : ℕ
control_check_only = 0x07

abbrev pub control_dont_enforce_user_presence_and_sign : ℕ
control_dont_enforce_user_presence_and_sign = 0x08

pub record AuthenticateResponse : Type 0 where
  pub user_presence : ℕ
  pub counter : ℕ
  pub signature : Bytes

pub record AuthenticateCommand : Type 0 where
  pub control : ℕ
  pub challenge : Bytes
  pub application : Bytes
  pub key_handle : Bytes

unfoldable pub user_present : AuthenticateResponse → Bool
user_present response = bit_and response.user_presence 0x01 == 0x01

unfoldable pub validate : ℕ → Result Error (Unit {0})
validate control =
    if control == control_enforce_user_presence_and_sign
      || control == control_check_only
      || control == control_dont_enforce_user_presence_and_sign
    then ok tt
    else err (unsupported_control control)

unfoldable pub encode : AuthenticateCommand → Result Error Bytes
unfolding validate
encode command = do
  validate command.control
  reject_if (not (length command.challenge == 32)) challenge_size
  reject_if (not (length command.application == 32)) application_size
  reject_if (length command.key_handle == 0) key_handle_empty
  reject_if (ltb 0xff (length command.key_handle)) key_handle_too_long
  encode_apdu command_authenticate command.control 0
      (command.challenge
        ++ (command.application ++ (u8 (length command.key_handle) ∷ command.key_handle)))
      max_extended_response_length

-- The fields are written before the signature is tested.
unfoldable pub decode_payload :
    Bytes → AuthenticateResponse → AuthenticateResponse × Result Error (Unit {0})
decode_payload payload target =
    let decoded : AuthenticateResponse = record {
      user_presence = byte_at payload 0;
      counter = uint32_at payload 1;
      signature = drop 5 payload;
    } in
    if ltb (length payload) 6
    then (target, err payload_too_short)
    else (decoded, reject_if (length (drop 5 payload) == 0) missing_signature)

unfoldable pub decode :
    Bytes → AuthenticateResponse → AuthenticateResponse × Result Error (Unit {0})
decode response target = elim (decode_response response) [
  | err e ↦ (target, err e)
  | ok payload ↦ decode_payload payload target
]
