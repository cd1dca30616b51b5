-- ===== src/Ctap1/Authenticate/Layout.antt =====
-- What a token reads from the request, and what a response holds.
use fido_go.Base.{
  ℕ, ◌+◌, ◌-◌, ◌*◌, ◌^◌, ◌≤◌, ◌<◌, ◌≡◌, ◌≢◌, ◌⊎◌, some, [], ◌∷◌, ◌++◌, arith, length, take,
  length-append, length-take, length-drop, Bytes, u8, ok, err,
}
use fido_go.Ctap1.Apdu.Decode.{read_apdu}
use fido_go.Ctap1.Apdu.RoundTrip.{read_apdu-encode_apdu, decode_response-status}
use fido_go.Ctap1.Apdu.{decode_response}
use fido_go.Ctap1.Errors.{Error, missing_signature}
use fido_go.Ctap1.Authenticate.{
  AuthenticateCommand, AuthenticateResponse, encode, decode, decode_payload, command_authenticate,
}

-- A request that U2F_AUTHENTICATE can carry.
pub record IsValid (command : AuthenticateCommand) : Type 0 where
  pub control_known : (command.control ≡ 0x03) ⊎ (command.control ≡ 0x07) ⊎ (command.control ≡ 0x08)
  pub challenge_size : length command.challenge ≡ 32
  pub application_size : length command.application ≡ 32
  pub key_handle_pos : 0 < length command.key_handle
  pub key_handle_fits : length command.key_handle ≤ 255

abbrev pub request : AuthenticateCommand → Bytes
request command =
    command.challenge ++ (command.application ++ (length command.key_handle ∷ command.key_handle))

-- A valid request is encoded, and a card reads from it the control byte as P1 and the challenge,
-- application and key handle with its length as the body.
pub read_apdu-encode_authenticate :
    (command : AuthenticateCommand)
    → IsValid command
    → (encoded : Bytes) × (encode command ≡ ok encoded)
      × (read_apdu encoded
          ≡ some (record {
            class = 0;
            instruction = command_authenticate;
            p1 = command.control;
            p2 = 0;
            body = request command;
            expected = 65536;
          }))
unfolding encode
read_apdu-encode_authenticate command v =
    let size : u8 (length command.key_handle) ≡ length command.key_handle =
      omega (arith, v.key_handle_fits) in
    let (encoded, e, same) =
      read_apdu-encode_apdu command_authenticate command.control 0 (request command) 65536
        (omega (
          arith,
          length-append command.challenge
              (command.application ++ (length command.key_handle ∷ command.key_handle)),
          length-append command.application (length command.key_handle ∷ command.key_handle),
          v.challenge_size,
          v.application_size,
          v.key_handle_fits,
        ))
        (omega arith) in
    (encoded, ground (arith, size, e), same)

-- Only valid requests are encoded.
encode-IsValid :
    (command : AuthenticateCommand) (encoded : Bytes)
    → encode command ≡ ok encoded
    → IsValid command
unfolding encode
encode-IsValid command encoded h = ground arith

-- A token's answer is decoded into its fields.
pub decode_answer :
    (presence c0 c1 c2 c3 : ℕ) (signature : Bytes) (target : AuthenticateResponse)
    → 0 < length signature
    → decode (presence ∷ c0 ∷ c1 ∷ c2 ∷ c3 ∷ (signature ++ (0x90 ∷ 0 ∷ []))) target ≡ (
      record {
        user_presence = presence;
        counter = c0 * 2 ^ 24 + c1 * 2 ^ 16 + c2 * 2 ^ 8 + c3;
        signature = signature;
      },
      ok tt,
    )
unfolding decode decode_payload
decode_answer presence c0 c1 c2 c3 signature target h =
    ground (arith, decode_response-status (presence ∷ c0 ∷ c1 ∷ c2 ∷ c3 ∷ signature) 0x90 0)

-- An error leaves the caller's target as it was: the test for a missing signature, which stands
-- behind the writes, cannot fail.
pub decode_error_keeps_target :
    (response : Bytes) (target after : AuthenticateResponse) (e : Error)
    → decode response target ≡ (after, err e)
    → (after ≡ target) × (e ≢ missing_signature)
unfolding decode decode_payload decode_response
decode_error_keeps_target response target after e h = ground (
  arith,
  length-take (length response - 2) response,
  length-drop 5 (take (length response - 2) response),
)
