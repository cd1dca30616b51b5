-- ===== src/ClientCtap2/Protocol.antt =====
-- internal/client/ctap2/protocol.go: pinUvAuthProtocol 1 and 2.
pub mod Laws
use fido_go.Base.{
  ℕ, ◌-◌, ◌%◌, Bool, false, not, ◌||◌, List, [], ◌∷◌, ◌++◌, ltb, ◌==◌, if◌then◌else◌, length, take,
  drop, Bytes, zeros, Result, ◌>>=◌, ◌>>◌, reject_if, err, ok,
}
use fido_go.Ctap2.Types.{
  CoseKey, cose_key_type_ec2, cose_algorithm_ecdh_es_hkdf_256, cose_curve_p256,
}
use fido_go.Ctap2.Cose.{validate_ec2}
use fido_go.Ctap2.Cbor
use fido_go.ClientCtap2.Platform.{
  Crypto, Error, ctap2, no_protocol, short_secret, short_ciphertext, unsupported_protocol,
  bad_length, outside,
}

-- "CTAP2 HMAC key"
abbrev pub hmac_key_info : Bytes
hmac_key_info = 67 ∷ 84 ∷ 65 ∷ 80 ∷ 50 ∷ 32 ∷ 72 ∷ 77 ∷ 65 ∷ 67 ∷ 32 ∷ 107 ∷ 101 ∷ 121 ∷ []

-- "CTAP2 AES key"
abbrev pub aes_key_info : Bytes
aes_key_info = 67 ∷ 84 ∷ 65 ∷ 80 ∷ 50 ∷ 32 ∷ 65 ∷ 69 ∷ 83 ∷ 32 ∷ 107 ∷ 101 ∷ 121 ∷ []

unfoldable pub contains : ℕ → List ℕ → Bool
contains n [] = false
contains n (m ∷ ms) = m == n || contains n ms

unfoldable pub select_pin_uv_auth_protocol : {X : Type 0} → List ℕ → Result (Error X) ℕ
select_pin_uv_auth_protocol protocols =
    if length protocols == 0
    then ok 1
    else if contains 2 protocols
    then ok 2
    else if contains 1 protocols
    then ok 1
    else err no_protocol

unfoldable pub left_pad_coordinate : Bytes → Bytes
left_pad_coordinate coordinate =
    if length coordinate == 32 then coordinate else zeros (32 - length coordinate) ++ coordinate

-- The uncompressed point.
unfoldable pub encode_point : CoseKey → Bytes
encode_point key = 0x04 ∷ (left_pad_coordinate key.x ++ left_pad_coordinate key.y)

-- The key of the public bytes of `newPINProtocolSession`.
unfoldable pub cose_of_public_bytes : Bytes → CoseKey
cose_of_public_bytes content = record {
  key_type = cose_key_type_ec2;
  algorithm = cose_algorithm_ecdh_es_hkdf_256;
  curve = cose_curve_p256;
  x = take 32 (drop 1 content);
  y = take 32 (drop 33 content);
}

module _ {X Priv Pub : Type 0} (crypto : Crypto X Priv Pub) where
  unfoldable pub cose_ec2_public_key : CoseKey → Result (Error X) Pub
  cose_ec2_public_key key = elim (validate_ec2 key) [
    | err e ↦ err (ctap2 (Cbor.cose_key e))
    | ok _ ↦ outside (crypto.new_public_key (encode_point key))
  ]

  unfoldable pub kdf : ℕ → Bytes → Result (Error X) Bytes
  kdf version point =
      let two : Result (Error X) Bytes = do
        hmac_key ← outside (crypto.hkdf_sha256 point (zeros 32) hmac_key_info 32)
        aes_key ← outside (crypto.hkdf_sha256 point (zeros 32) aes_key_info 32)
        ok (hmac_key ++ aes_key)
      in if version == 1
        then ok (crypto.sha256 point)
        else if version == 2
        then two
        else err (unsupported_protocol version)

  unfoldable pub encrypt_1 : Bytes → Bytes → Result (Error X) Bytes
  encrypt_1 key plaintext = do
    reject_if (not (length plaintext % 16 == 0)) (bad_length (length plaintext))
    outside (crypto.aes_key key)
    ok (crypto.cbc_encrypt key (zeros 16) plaintext)

  unfoldable pub decrypt_1 : Bytes → Bytes → Result (Error X) Bytes
  decrypt_1 key ciphertext = do
    reject_if (not (length ciphertext % 16 == 0)) (bad_length (length ciphertext))
    outside (crypto.aes_key key)
    ok (crypto.cbc_decrypt key (zeros 16) ciphertext)

  -- The tests of `pinProtocol2Encrypt`, all before the IV is read.
  unfoldable pub check_encrypt_2 : Bytes → Bytes → Result (Error X) (Unit {0})
  check_encrypt_2 key plaintext = do
    reject_if (ltb (length key) 64) short_secret
    reject_if (not (length plaintext % 16 == 0)) (bad_length (length plaintext))
    outside (crypto.aes_key (take 32 (drop 32 key)))

  unfoldable pub seal_2 : Bytes → Bytes → Bytes → Bytes
  seal_2 key iv plaintext = iv ++ crypto.cbc_encrypt (take 32 (drop 32 key)) iv plaintext

  unfoldable pub decrypt_2 : Bytes → Bytes → Result (Error X) Bytes
  decrypt_2 key ciphertext = do
    reject_if (ltb (length key) 64) short_secret
    reject_if (ltb (length ciphertext) 16) short_ciphertext
    reject_if (not (length (drop 16 ciphertext) % 16 == 0))
        (bad_length (length (drop 16 ciphertext)))
    outside (crypto.aes_key (take 32 (drop 32 key)))
    ok (crypto.cbc_decrypt (take 32 (drop 32 key)) (take 16 ciphertext) (drop 16 ciphertext))

  unfoldable pub decrypt : ℕ → Bytes → Bytes → Result (Error X) Bytes
  decrypt version key ciphertext =
      if version == 1
      then decrypt_1 key ciphertext
      else if version == 2
      then decrypt_2 key ciphertext
      else err (unsupported_protocol version)

  unfoldable pub authenticate_1 : Bytes → Bytes → Bytes
  authenticate_1 key message = take 16 (crypto.hmac_sha256 key message)

  unfoldable pub authenticate_2 : Bytes → Bytes → Bytes
  authenticate_2 key message =
      crypto.hmac_sha256 (if ltb 32 (length key) then take 32 key else key) message

  unfoldable pub authenticate : ℕ → Bytes → Bytes → Bytes
  authenticate version key message =
      if version == 2 then authenticate_2 key message else authenticate_1 key message
