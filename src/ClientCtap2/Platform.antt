-- ===== src/ClientCtap2/Platform.antt =====
-- What internal/client/ctap2 uses of other code: Go's crypto packages, the CBOR library and the
-- invoker of raw commands. An action takes the world that these calls change.
use fido_go.Base.{ℕ, Option, none, some, Bytes, Result, err, ok}
use fido_go.Ctap2.Cbor
use fido_go.Ctap2.ClientPin.{ClientPinCommand, ClientPinResponse}
use fido_go.Ctap2.CredentialManagement.{Params, Request, Response}

-- crypto/sha256, hmac, hkdf, aes, cipher and ecdh; X is the type of the errors from outside.
pub record Crypto (X PrivateKey PublicKey : Type 0) : Type 0 where
  pub sha256 : Bytes → Bytes
  -- key, message
  pub hmac_sha256 : Bytes → Bytes → Bytes
  -- secret, salt, info, length
  pub hkdf_sha256 : Bytes → Bytes → Bytes → ℕ → Result X Bytes
  -- `aes.NewCipher`
  pub aes_key : Bytes → Result X (Unit {0})
  -- key, iv, text
  pub cbc_encrypt : Bytes → Bytes → Bytes → Bytes
  pub cbc_decrypt : Bytes → Bytes → Bytes → Bytes
  -- `ecdh.P256()`
  pub new_public_key : Bytes → Result X PublicKey
  pub ecdh : PrivateKey → PublicKey → Result X Bytes
  pub public_bytes : PrivateKey → Bytes

-- Marshal and Unmarshal of the requests and responses.
pub record CborCodec (X : Type 0) : Type 0 where
  pub marshal_client_pin : ClientPinCommand → Result X Bytes
  pub unmarshal_client_pin : Bytes → Result X ClientPinResponse
  pub marshal_params : Params → Result X Bytes
  pub marshal_request : Request → Result X Bytes
  pub unmarshal_response : Bytes → Result X Response

pub record Platform (World X PrivateKey PublicKey : Type 0) : Type 0 where
  pub crypto : Crypto X PrivateKey PublicKey
  pub cbor : CborCodec X
  pub random : ℕ → World → Result X Bytes × World
  pub generate_key : World → Result X PrivateKey × World
  -- `InvokeCTAP2` with a command byte and a payload
  pub invoke : ℕ → Bytes → World → Result X Bytes × World
  -- `errors.As` of an error from outside to *ctap2.Error
  pub status_code : X → Option ℕ

pub data Error (X : Type 0) : Type 0 where
  external : X → Error X
  ctap2 : Cbor.Error X → Error X
  no_protocol short_secret short_ciphertext pin_required : Error X
  unsupported_protocol bad_length pin_too_long : ℕ → Error X
  pin_not_configured no_token no_key_agreement : Error X
  no_capable_protocol credential_management_unsupported : Error X
  incomplete_response missing_relying_party credential_id_required : Error X

abbrev pub Action : Type 0 → Type 0 → Type 0 → Type 0
Action World X A = World → Result (Error X) A × World

infixl 5 ◌>>=◌ ◌>>◌
abbrev pub ◌>>=◌ :
    {World X A B : Type 0} → Action World X A → (A → Action World X B) → Action World X B
(first >>= next) w = elim (first w).0 [ err e ↦ (err e, (first w).1) | ok a ↦ next a (first w).1 ]

abbrev pub ◌>>◌ :
    {World X B : Type 0} → Action World X (Unit {0}) → Action World X B → Action World X B
first >> next = first >>= (λ _. next)

abbrev pub lift : {World X A : Type 0} → Result (Error X) A → Action World X A
lift result w = (result, w)

abbrev pub outside : {X A : Type 0} → Result X A → Result (Error X) A
outside (ok a) = ok a
outside (err e) = err (external e)

abbrev pub from_ctap2 : {X A : Type 0} → Result (Cbor.Error X) A → Result (Error X) A
from_ctap2 (ok a) = ok a
from_ctap2 (err e) = err (ctap2 e)

-- A call of outside code.
abbrev pub call : {World X A : Type 0} → (World → Result X A × World) → Action World X A
call f w = (outside (f w).0, (f w).1)

-- `errors.As(err, &statusErr)`
pub status_of : {World X Priv Pub : Type 0} → Platform World X Priv Pub → Error X → Option ℕ
status_of p (external e) = p.status_code e
status_of p (ctap2 (Cbor.status code)) = some code
status_of p (ctap2 (Cbor.marshal_failed e)) = p.status_code e
status_of p (ctap2 (Cbor.unmarshal_failed e)) = p.status_code e
status_of p e = none
