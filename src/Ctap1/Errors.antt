-- ===== src/Ctap1/Errors.antt =====
-- The errors of pkg/ctap1, one constructor for each message; `status` is *Error with its word.
use fido_go.Base.{ℕ}

pub data Error : Type 0 where
  unsupported_response_length payload_exceeds_extended : ℕ → Error
  response_too_short : Error
  status : ℕ → Error
  challenge_size application_size : Error
  key_handle_empty key_handle_too_long : Error
  unsupported_control : ℕ → Error
  payload_too_short reserved_byte key_handle_truncated missing_certificate : Error
  malformed_certificate missing_certificate_bytes missing_signature : Error
