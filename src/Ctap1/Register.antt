-- ===== src/Ctap1/Register.antt =====
-- pkg/ctap1/register.go: U2F_REGISTER. The certificate is read by encoding/asn1 and crypto/x509,
-- which enter as `CertificateReader`.
pub mod Layout
use fido_go.Base.{
  ℕ, ◌+◌, ◌-◌, ◌≡◌, Bool, not, Option, none, some, ◌++◌, ltb, ◌==◌, length, take, drop, slice,
  Bytes, byte_at, Result, ◌>>=◌, ◌>>◌, reject_if, err, ok,
}
use fido_go.Ctap1.Apdu.{encode_apdu, decode_response, max_extended_response_length}
use fido_go.Ctap1.Errors.{
  Error, challenge_size, application_size, payload_too_short, reserved_byte, key_handle_truncated,
  missing_certificate, malformed_certificate, missing_certificate_bytes, missing_signature,
}

abbrev pub command_register : ℕ
command_register = 0x01

-- `asn1.Unmarshal` into a RawValue returns the bytes behind the first element, or fails;
-- `x509.ParseCertificate` accepts or fails. The law is the documentation's: what is returned is the
-- rest of the input.
pub record CertificateReader : Type 0 where
  pub unmarshal : Bytes → Option Bytes
  pub parse_certificate : Bytes → Bool
  pub unmarshal_rest :
      (bs rest : Bytes) → unmarshal bs ≡ some rest → (element : Bytes) × (bs ≡ element ++ rest)

pub record RegisterResponse : Type 0 where
  pub reserved : ℕ
  pub public_key : Bytes
  pub key_handle : Bytes
  pub attestation_certificate : Bytes
  pub signature : Bytes

pub record RegisterCommand : Type 0 where
  pub challenge : Bytes
  pub application : Bytes

unfoldable pub encode : RegisterCommand → Result Error Bytes
encode command = do
  reject_if (not (length command.challenge == 32)) challenge_size
  reject_if (not (length command.application == 32)) application_size
  encode_apdu command_register 0 0 (command.challenge ++ command.application)
      max_extended_response_length

-- The checks and fields behind the key handle: `remaining` is the certificate and the signature.
unfoldable pub decode_certificate :
    CertificateReader → Bytes → ℕ → Bytes → Result Error RegisterResponse
decode_certificate reader payload key_handle_length remaining = elim (reader.unmarshal remaining) [
  | none ↦ err malformed_certificate
  | some rest ↦
      let certificate_length = length remaining - length rest in
      let certificate = take certificate_length remaining in
      do
        reject_if (certificate_length == 0) missing_certificate_bytes
        reject_if (not (reader.parse_certificate certificate)) malformed_certificate
        reject_if (length rest == 0) missing_signature
        ok (record {
          reserved = byte_at payload 0;
          public_key = slice payload 1 66;
          key_handle = slice payload 67 (67 + key_handle_length);
          attestation_certificate = certificate;
          signature = rest;
        })
]

unfoldable pub decode_payload : CertificateReader → Bytes → Result Error RegisterResponse
decode_payload reader payload =
    let key_handle_length = byte_at payload 66 in
    let remaining = drop (67 + key_handle_length) payload in
    do
      reject_if (ltb (length payload) 67) payload_too_short
      reject_if (not (byte_at payload 0 == 0x05)) reserved_byte
      reject_if (ltb (length payload) (67 + key_handle_length)) key_handle_truncated
      reject_if (length remaining == 0) missing_certificate
      decode_certificate reader payload key_handle_length remaining

-- The target is written only after the last check.
unfoldable pub decode :
    CertificateReader → Bytes → RegisterResponse → RegisterResponse × Result Error (Unit {0})
decode reader response target = elim (decode_response response >>= decode_payload reader) [
  | err e ↦ (target, err e)
  | ok decoded ↦ (decoded, ok tt)
]
