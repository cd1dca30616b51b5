-- ===== src/Ctap1/Apdu.antt =====
-- pkg/ctap1/apdu.go: command APDUs and response status words.
pub mod Decode
pub mod RoundTrip
use fido_go.Base.{
  ℕ, ◌+◌, ◌-◌, ◌*◌, ◌/◌, ◌^◌, not, ◌&&◌, [], ◌∷◌, ◌++◌, ltb, leb, ◌==◌, if◌then◌else◌, length, take,
  Bytes, u8, byte_at, Result, ◌>>=◌, ◌>>◌, reject_if, ok,
}
use fido_go.Ctap1.Errors.{
  Error, unsupported_response_length, payload_exceeds_extended, response_too_short, status,
}

abbrev pub max_short_response_length : ℕ
max_short_response_length = 256

abbrev pub max_extended_response_length : ℕ
max_extended_response_length = 65536

abbrev pub success_status_word : ℕ
success_status_word = 0x9000

unfoldable pub encode_short_apdu : ℕ → ℕ → ℕ → Bytes → ℕ → Bytes
encode_short_apdu command p1 p2 body max_response_length =
    let le =
      if max_response_length == max_short_response_length then 0 else u8 max_response_length in
    let sized : Bytes = if ltb 0 (length body) then u8 (length body) ∷ body else [] in
    let expected : Bytes = if ltb 0 max_response_length then le ∷ [] else [] in
    0 ∷ command ∷ p1 ∷ p2 ∷ (sized ++ expected)

unfoldable pub encode_extended_apdu : ℕ → ℕ → ℕ → Bytes → ℕ → Bytes
encode_extended_apdu command p1 p2 body max_response_length =
    let le =
      if max_response_length == max_extended_response_length then 0 else max_response_length in
    let sized : Bytes =
      if ltb 0 (length body) then u8 (length body / 2 ^ 8) ∷ u8 (length body) ∷ body else [] in
    let expected : Bytes = if ltb 0 max_response_length then u8 (le / 2 ^ 8) ∷ u8 le ∷ [] else [] in
    0 ∷ command ∷ p1 ∷ p2 ∷ 0 ∷ (sized ++ expected)

unfoldable pub encode_apdu : ℕ → ℕ → ℕ → Bytes → ℕ → Result Error Bytes
encode_apdu command p1 p2 body max_response_length = do
  reject_if (ltb max_extended_response_length max_response_length)
      (unsupported_response_length max_response_length)
  reject_if (ltb 0xffff (length body)) (payload_exceeds_extended (length body))
  ok (
      if leb (length body) 0xff && leb max_response_length max_short_response_length
      then encode_short_apdu command p1 p2 body max_response_length
      else encode_extended_apdu command p1 p2 body max_response_length)

-- `EncodeShortAPDU` and `EncodeRawAPDU`
encode_short : ℕ → Bytes → Result Error Bytes
encode_short command body = encode_apdu command 0 0 body max_short_response_length

unfoldable pub encode_raw : ℕ → Bytes → Result Error Bytes
encode_raw command body = encode_apdu command 0 0 body max_extended_response_length

unfoldable pub decode_response : Bytes → Result Error Bytes
decode_response response =
    let size = length response - 2 in
    let word = byte_at response size * 2 ^ 8 + byte_at response (size + 1) in
    do
      reject_if (ltb (length response) 2) response_too_short
      reject_if (not (word == success_status_word)) (status word)
      ok (take size response)
