-- ===== src/ClientCtap2/Authenticator.antt =====
-- The authenticator's side of authenticatorClientPIN (getPinToken and setPIN) and of PIN/UV auth
-- protocols 1 and 2, as CTAP 2.1 states them (sections 6.5.5 to 6.5.7), for what internal/client/ctap2
-- talks to. It is written over the ciphers alone and shares no definition with the client's protocols:
-- the labels, the lengths and the codes are the specification's.
pub mod Ciphers
pub mod Agreement
pub mod Tokens
pub mod NewPin
use fido_go.Base.{
  ℕ, ◌+◌, ◌/◌, ◌%◌, Bool, not, ◌&&◌, ◌||◌, Option, none, some, [], ◌∷◌, ◌++◌, ltb, ◌==◌,
  if◌then◌else◌, length, replicate, take, drop, Bytes, equal_bytes, Result, ◌>>=◌, ◌>>◌, reject_if,
  err, ok, equal_int, pos, negsuc,
}
use fido_go.Ctap2.Types.{CoseKey}
use fido_go.Ctap2.Cbor
use fido_go.Ctap2.ClientPin.{ClientPinCommand, ClientPinResponse, zero_response}
use fido_go.ClientCtap2.Platform.{Crypto, Error, ctap2, outside}

pub record Authenticator (Priv : Type 0) : Type 0 where
  pub private_key : Priv
  -- LEFT(SHA-256(PIN), 16) of its PIN
  pub pin_hash : Bytes
  pub token : Bytes

-- The COSE key of an uncompressed point: EC2, ECDH-ES+HKDF-256, P-256.
abbrev pub cose_of : Bytes → CoseKey
cose_of content = record {
  key_type = pos 2;
  algorithm = negsuc 24;
  curve = pos 1;
  x = take 32 (drop 1 content);
  y = take 32 (drop 33 content);
}

unfoldable pub is_agreement_key : CoseKey → Bool
is_agreement_key key =
    equal_int key.key_type (pos 2)
    && (equal_int key.algorithm (negsuc 24)
        && (equal_int key.curve (pos 1) && (length key.x == 32 && length key.y == 32)))

-- A PIN comes padded to 64 bytes: what stands before the zeros at its end.
unfoldable pub unpad : Bytes → Bytes
unpad [] = []
unpad (b ∷ bs) = let rest = unpad bs in if b == 0 && length rest == 0 then [] else b ∷ rest

-- The code points of a text in UTF-8: the bytes that are not 10xxxxxx.
unfoldable pub code_points : Bytes → ℕ
code_points [] = 0
code_points (b ∷ bs) = (if b / 64 == 2 then 0 else 1) + code_points bs

-- A status in place of an answer.
abbrev pub refuse : {X : Type 0} → ℕ → Error X
refuse code = ctap2 (Cbor.status code)

abbrev pub or_status : {X A : Type 0} → ℕ → Option A → Result (Error X) A
or_status code none = err (refuse code)
or_status code (some a) = ok a

module _ {X Priv Pub : Type 0} (crypto : Crypto X Priv Pub) where
  -- `kdf(Z)`: of protocol 1 SHA-256(Z), of protocol 2 HKDF-SHA-256 with a salt of 32 zeros, once with
  -- info "CTAP2 HMAC key" and once with info "CTAP2 AES key", 32 bytes of each.
  unfoldable pub derive : ℕ → Bytes → Result (Error X) Bytes
  derive version z =
      let two : Result (Error X) Bytes = do
        mac_key ← outside (
            crypto.hkdf_sha256 z (replicate 32 0)
              (67 ∷ 84 ∷ 65 ∷ 80 ∷ 50 ∷ 32 ∷ 72 ∷ 77 ∷ 65 ∷ 67 ∷ 32 ∷ 107 ∷ 101 ∷ 121 ∷ []) 32)
        aes_key ← outside (
            crypto.hkdf_sha256 z (replicate 32 0)
              (67 ∷ 84 ∷ 65 ∷ 80 ∷ 50 ∷ 32 ∷ 65 ∷ 69 ∷ 83 ∷ 32 ∷ 107 ∷ 101 ∷ 121 ∷ []) 32)
        ok (mac_key ++ aes_key)
      in if version == 2 then two else ok (crypto.sha256 z)

  -- `encrypt` with a given IV: protocol 1 uses AES-256-CBC under the key and a zero IV, protocol 2 the
  -- key without its first 32 bytes, and puts the IV before the ciphertext.
  unfoldable pub seal : ℕ → Bytes → Bytes → Bytes → Bytes
  seal version key iv text =
      if version == 2
      then iv ++ crypto.cbc_encrypt (drop 32 key) iv text
      else crypto.cbc_encrypt key (replicate 16 0) text

  -- `decrypt`: nothing where the text has no IV or is not of whole blocks.
  unfoldable pub unseal : ℕ → Bytes → Bytes → Option Bytes
  unseal version key sealed =
      if version == 2
      then (if ltb (length sealed) 16 || not (length sealed % 16 == 0)
          then none
          else some (crypto.cbc_decrypt (drop 32 key) (take 16 sealed) (drop 16 sealed)))
      else if length sealed % 16 == 0
      then some (crypto.cbc_decrypt key (replicate 16 0) sealed)
      else none

  -- `authenticate`: the first 16 bytes of HMAC-SHA-256 under the key, or all 32 under its first 32 bytes.
  unfoldable pub mac : ℕ → Bytes → Bytes → Bytes
  mac version key message =
      if version == 2
      then crypto.hmac_sha256 (take 32 key) message
      else take 16 (crypto.hmac_sha256 key message)

  -- `decapsulate`: the secret that it shares with the holder of a key agreement key, 0x02
  -- (INVALID_PARAMETER) for another key.
  unfoldable pub secret_of : Priv → ℕ → CoseKey → Result (Error X) Bytes
  secret_of private_key version key = do
    reject_if (not (is_agreement_key key)) (refuse 0x02)
    peer ← outside (crypto.new_public_key (0x04 ∷ (key.x ++ key.y)))
    point ← outside (crypto.ecdh private_key peer)
    derive version point

  -- getPinToken (0x05): the token under the shared secret, 0x31 (PIN_INVALID) if the PIN's hash is wrong.
  unfoldable pub token_answer :
      Authenticator Priv → Bytes → ClientPinCommand → Result (Error X) ClientPinResponse
  token_answer auth iv command =
      let version = command.pin_uv_auth_protocol in
      do
        reject_if (not (command.subcommand == 5)) (refuse 0x3e)
        reject_if (not (version == 1 || version == 2)) (refuse 0x02)
        key ← or_status 0x14 command.key_agreement
        secret ← secret_of auth.private_key version key
        hash ← or_status 0x31 (unseal version secret command.pin_hash_enc)
        reject_if (not (equal_bytes hash auth.pin_hash)) (refuse 0x31)
        ok (record zero_response { pin_uv_auth_token = seal version secret iv auth.token })

  -- setPIN (0x03) of an authenticator that has no PIN: the PIN that it takes. 0x33 (PIN_AUTH_INVALID)
  -- if the message authentication is wrong, 0x02 if it is not padded to 64 bytes, 0x37
  -- (PIN_POLICY_VIOLATION) if it has fewer than 4 code points.
  unfoldable pub new_pin_of : Priv → ClientPinCommand → Result (Error X) Bytes
  new_pin_of private_key command =
      let version = command.pin_uv_auth_protocol in
      do
        reject_if (not (command.subcommand == 3)) (refuse 0x3e)
        reject_if (not (version == 1 || version == 2)) (refuse 0x02)
        key ← or_status 0x14 command.key_agreement
        secret ← secret_of private_key version key
        reject_if
            (not (equal_bytes command.pin_uv_auth_param (mac version secret command.new_pin_enc)))
            (refuse 0x33)
        text ← or_status 0x33 (unseal version secret command.new_pin_enc)
        reject_if (not (length text == 64)) (refuse 0x02)
        reject_if (ltb (code_points (unpad text)) 4) (refuse 0x37)
        ok (unpad text)
