-- ===== src/ClientCtap2/Session.antt =====
-- internal/client/ctap2: the PIN protocol session of protocol.go, and the tokens of manager.go.
use fido_go.Base.{ℕ, none, some, ◌==◌, if◌then◌else◌, length, take, drop, Bytes, err, ok}
use fido_go.Ctap2.Types.{CoseKey}
use fido_go.Ctap2.ClientPin.{
  ClientPinCommand, ClientPinResponse, new_client_pin_command, command_client_pin,
  client_pin_get_key_agreement, client_pin_get_pin_token, client_pin_get_pin_token_with_uv,
  client_pin_get_pin_token_with_pin,
}
use fido_go.Ctap2.ClientPin
use fido_go.ClientCtap2.Platform.{
  Platform, unsupported_protocol, no_token, no_key_agreement, Action, ◌>>=◌, ◌>>◌, lift, outside,
  from_ctap2, call,
}
use fido_go.ClientCtap2.Protocol.{
  cose_of_public_bytes, cose_ec2_public_key, kdf, encrypt_1, check_encrypt_2, seal_2, decrypt,
}

-- pinProtocolSession
pub record PinSession : Type 0 where
  pub version : ℕ
  pub shared_secret : Bytes
  pub key_agreement : CoseKey

module _ {World X Priv Pub : Type 0} (p : Platform World X Priv Pub) where
  unfoldable pub encrypt_2 : Bytes → Bytes → Action World X Bytes
  encrypt_2 key plaintext = do
    lift (check_encrypt_2 p.crypto key plaintext)
    iv ← call (p.random 16)
    lift (ok (seal_2 p.crypto key iv plaintext))

  unfoldable pub encrypt : ℕ → Bytes → Bytes → Action World X Bytes
  encrypt version key plaintext =
      if version == 1
      then lift (encrypt_1 p.crypto key plaintext)
      else if version == 2
      then encrypt_2 key plaintext
      else lift (err (unsupported_protocol version))

  -- `newPINProtocolSession` with a key that is not nil
  unfoldable pub new_session : ℕ → CoseKey → Action World X PinSession
  new_session version peer_key_agreement = do
    peer ← lift (cose_ec2_public_key p.crypto peer_key_agreement)
    private_key ← call p.generate_key
    point ← lift (outside (p.crypto.ecdh private_key peer))
    secret ← lift (kdf p.crypto version point)
    lift (
        ok (record {
          version = version;
          shared_secret = secret;
          key_agreement = cose_of_public_bytes (p.crypto.public_bytes private_key);
        }))

  -- A ClientPIN command from its encoding to its response.
  unfoldable pub exchange_client_pin : ClientPinCommand → Action World X ClientPinResponse
  exchange_client_pin command = do
    encoded ← lift (from_ctap2 (ClientPin.encode p.cbor.marshal_client_pin command))
    content ← call (p.invoke command_client_pin (drop 1 encoded))
    lift (from_ctap2 (ClientPin.decode p.cbor.unmarshal_client_pin content))

  unfoldable pub get_session : ℕ → Action World X PinSession
  get_session version = do
    response ← exchange_client_pin (new_client_pin_command version client_pin_get_key_agreement)
    elim response.key_agreement [
      | none ↦ lift (err no_key_agreement)
      | some key ↦ new_session version key
    ]

  -- The end of the three token operations: the token must be there, and is decrypted.
  unfoldable pub receive_token : PinSession → ClientPinCommand → Action World X Bytes
  receive_token session command = do
    response ← exchange_client_pin command
    lift (
        if length response.pin_uv_auth_token == 0
        then err no_token
        else decrypt p.crypto session.version session.shared_secret response.pin_uv_auth_token)

  unfoldable pub encrypt_pin_hash : PinSession → Bytes → Action World X Bytes
  encrypt_pin_hash session pin =
      encrypt session.version session.shared_secret (take 16 (p.crypto.sha256 pin))

  unfoldable pub get_pin_token : ℕ → Bytes → Action World X Bytes
  get_pin_token version pin = do
    session ← get_session version
    pin_hash_enc ← encrypt_pin_hash session pin
    receive_token session (record (new_client_pin_command version client_pin_get_pin_token) {
      key_agreement = some session.key_agreement;
      pin_hash_enc = pin_hash_enc;
    })

  unfoldable pub get_pin_token_with_permissions : ℕ → Bytes → ℕ → Bytes → Action World X Bytes
  get_pin_token_with_permissions version pin permissions permissions_rp_id = do
    session ← get_session version
    pin_hash_enc ← encrypt_pin_hash session pin
    receive_token session
        (record (new_client_pin_command version client_pin_get_pin_token_with_pin) {
          key_agreement = some session.key_agreement;
          pin_hash_enc = pin_hash_enc;
          permissions = permissions;
          permissions_rp_id = permissions_rp_id;
        })

  unfoldable pub get_uv_token_with_permissions : ℕ → ℕ → Bytes → Action World X Bytes
  get_uv_token_with_permissions version permissions permissions_rp_id = do
    session ← get_session version
    receive_token session
        (record (new_client_pin_command version client_pin_get_pin_token_with_uv) {
          key_agreement = some session.key_agreement;
          permissions = permissions;
          permissions_rp_id = permissions_rp_id;
        })
