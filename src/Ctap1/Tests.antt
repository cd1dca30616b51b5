-- ===== src/Ctap1/Tests.antt =====
-- Runs of the U2F messages, and the theorems at such inputs.

use fido_go.Base.{
  ℕ, ◌≡◌, refl, ◌≢◌, inl, Option, none, some, [], ◌∷◌, ◌++◌, arith, ltb, length, take, drop,
  replicate, take-append-drop, slice, Bytes, ok, err,
}
use fido_go.Ctap1.Apdu.Decode.{read_apdu}
use fido_go.Ctap1.Apdu.RoundTrip.{read_apdu-encode_apdu, decode_response-status}
use fido_go.Ctap1.Apdu.{
  encode_apdu, encode_short_apdu, encode_extended_apdu, encode_raw, decode_response,
}
use fido_go.Ctap1.Authenticate.Layout.{
  read_apdu-encode_authenticate, decode_answer, decode_error_keeps_target, request,
}
use fido_go.Ctap1.Authenticate.{AuthenticateCommand, AuthenticateResponse}
use fido_go.Ctap1.Authenticate
use fido_go.Ctap1.Errors.{status, missing_signature, payload_too_short}
use fido_go.Ctap1.Register.Layout.{
  read_apdu-encode_register, IsRegistration, message, decode-message, decode_payload-IsRegistration,
}
use fido_go.Ctap1.Register.{CertificateReader, RegisterCommand, RegisterResponse}
use fido_go.Ctap1.Register
use fido_go.Ctap1.Version.{VersionResponse}
use fido_go.Ctap1.Version

abbrev block : ℕ → Bytes
block b = replicate 32 b

-- Short and extended forms, and a version answer.
apdus :
    (encode_apdu 3 0 0 [] 256 ≡ ok (0 ∷ 3 ∷ 0 ∷ 0 ∷ 0 ∷ []))
    × (Version.encode ≡ ok (0 ∷ 3 ∷ 0 ∷ 0 ∷ 0 ∷ 0 ∷ 0 ∷ []))
    × (encode_apdu 1 0 0 (7 ∷ 8 ∷ []) 65536 ≡ ok (0 ∷ 1 ∷ 0 ∷ 0 ∷ 0 ∷ 0 ∷ 2 ∷ 7 ∷ 8 ∷ 0 ∷ 0 ∷ []))
    × (Version.decode (0x55 ∷ 0x90 ∷ 0 ∷ []) (record { version = [] })
        ≡ (record { version = 0x55 ∷ [] }, ok tt))
unfolding encode_apdu encode_short_apdu encode_extended_apdu decode_response encode_raw
    Version.encode Version.decode
apdus = (refl, refl, refl, refl)

read_apdu-encode_apdu_example :
    (encoded : Bytes) × (encode_apdu 2 3 0 (block 9) 65536 ≡ ok encoded)
    × (read_apdu encoded
        ≡ some (record {
          class = 0;
          instruction = 2;
          p1 = 3;
          p2 = 0;
          body = block 9;
          expected = 65536;
        }))
read_apdu-encode_apdu_example =
    read_apdu-encode_apdu 2 3 0 (block 9) 65536 (omega arith) (omega arith)

decode_response-status_example : decode_response (1 ∷ 0x69 ∷ 0x85 ∷ []) ≡ err (status 0x6985)
decode_response-status_example = decode_response-status (1 ∷ []) 0x69 0x85

abbrev command : AuthenticateCommand
command = record {
  control = 3;
  challenge = block 1;
  application = block 2;
  key_handle = 5 ∷ 6 ∷ [];
}

read_apdu-encode_authenticate_example :
    (encoded : Bytes) × (Authenticate.encode command ≡ ok encoded)
    × (read_apdu encoded
        ≡ some (record {
          class = 0;
          instruction = 2;
          p1 = 3;
          p2 = 0;
          body = request command;
          expected = 65536;
        }))
read_apdu-encode_authenticate_example = read_apdu-encode_authenticate command (record {
  control_known = inl refl;
  challenge_size = refl;
  application_size = refl;
  key_handle_pos = omega arith;
  key_handle_fits = omega arith;
})

abbrev nothing : AuthenticateResponse
nothing = record { user_presence = 0; counter = 0; signature = [] }

decode_answer_example :
    Authenticate.decode (1 ∷ 0 ∷ 0 ∷ 1 ∷ 2 ∷ 0xaa ∷ 0x90 ∷ 0 ∷ []) nothing
    ≡ (record { user_presence = 1; counter = 258; signature = 0xaa ∷ [] }, ok tt)
decode_answer_example = decode_answer 1 0 0 1 2 (0xaa ∷ []) nothing (omega arith)

short_answer :
    Authenticate.decode (1 ∷ 0 ∷ 0x90 ∷ 0 ∷ []) nothing ≡ (nothing, err payload_too_short)
unfolding Authenticate.decode Authenticate.decode_payload decode_response
short_answer = refl

decode_error_keeps_target_example : (nothing ≡ nothing) × (payload_too_short ≢ missing_signature)
decode_error_keeps_target_example =
    decode_error_keeps_target (1 ∷ 0 ∷ 0x90 ∷ 0 ∷ []) nothing nothing payload_too_short short_answer

-- A reader whose elements are a length byte and as many bytes.
element_rest : Bytes → Option Bytes
element_rest [] = none
element_rest (n ∷ bs) = some (drop n bs)

element_rest_law :
    (bs rest : Bytes) → element_rest bs ≡ some rest → (element : Bytes) × (bs ≡ element ++ rest)
unfolding element_rest
element_rest_law [] rest h = cc
element_rest_law (n ∷ bs) rest h = (n ∷ take n bs, ground (arith, take-append-drop n bs))

abbrev reader : CertificateReader
reader = record {
  unmarshal = element_rest;
  parse_certificate = λ c. ltb 1 (length c);
  unmarshal_rest = element_rest_law;
}

abbrev registration : RegisterResponse
registration = record {
  reserved = 5;
  public_key = replicate 65 4;
  key_handle = 21 ∷ 22 ∷ 23 ∷ [];
  attestation_certificate = 2 ∷ 31 ∷ 32 ∷ [];
  signature = 41 ∷ 42 ∷ [];
}

registration-IsRegistration : IsRegistration reader registration
unfolding element_rest
registration-IsRegistration = record {
  reserved_is = refl;
  public_key_size = refl;
  certificate_pos = omega arith;
  certificate_read = refl;
  certificate_parses = refl;
  signature_pos = omega arith;
}

decode-message_example :
    (Register.decode reader (message registration ++ (0x90 ∷ 0 ∷ [])) registration)
    ≡ (registration, ok tt)
decode-message_example = decode-message reader registration registration registration-IsRegistration

decode_registration : Register.decode_payload reader (message registration) ≡ ok registration
unfolding Register.decode_payload Register.decode_certificate element_rest slice
decode_registration = refl

decode_payload-IsRegistration_example :
    (message registration ≡ message registration) × IsRegistration reader registration
decode_payload-IsRegistration_example =
    decode_payload-IsRegistration reader (message registration) registration decode_registration

read_apdu-encode_register_example :
    (encoded : Bytes) × (Register.encode (record { challenge = block 1; application = block 2 })
      ≡ ok encoded)
    × (read_apdu encoded
        ≡ some (record {
          class = 0;
          instruction = 1;
          p1 = 0;
          p2 = 0;
          body = block 1 ++ block 2;
          expected = 65536;
        }))
read_apdu-encode_register_example =
    read_apdu-encode_register (record { challenge = block 1; application = block 2 }) refl refl
