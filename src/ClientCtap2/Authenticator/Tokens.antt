-- ===== src/ClientCtap2/Authenticator/Tokens.antt =====
-- The token that the client gets with the right PIN.
use fido_go.Base.{
  ℕ, ◌%◌, ◌<◌, ◌≡◌, some, arith, length, take, length-take, Bytes, equal_bytes_refl, ok,
}
use fido_go.Ctap2.ClientPin.{
  ClientPinCommand, zero_response, new_client_pin_command, client_pin_get_pin_token,
}
use fido_go.ClientCtap2.Platform.{Platform}
use fido_go.ClientCtap2.Protocol.Laws.{CipherLaws}
use fido_go.ClientCtap2.Session.{
  exchange_client_pin, encrypt_pin_hash, receive_token, get_pin_token,
}
use fido_go.ClientCtap2.Authenticator.{Authenticator, cose_of, seal, token_answer}
use fido_go.ClientCtap2.Authenticator.Ciphers.{decrypt-seal, unseal-seal, length-seal}
use fido_go.ClientCtap2.Authenticator.Agreement.{
  ExchangeLaws, Opening, get_session-Opening, secret_of-Opening, IsKey-Opening, encrypt-seal,
  after_encrypt,
}

-- The command of getPINToken.
abbrev pub token_command :
    {World X Priv Pub : Type 0}
    → Platform World X Priv Pub
    → ℕ
    → Priv
    → Bytes
    → Bytes
    → Bytes
    → ClientPinCommand
token_command p version a secret iv pin =
    record (new_client_pin_command version client_pin_get_pin_token) {
      key_agreement = some (cose_of (p.crypto.public_bytes a));
      pin_hash_enc = seal p.crypto version secret iv (take 16 (p.crypto.sha256 pin));
    }

module _ {World X Priv Pub : Type 0} (p : Platform World X Priv Pub) (laws : CipherLaws p.crypto)
    (ex : ExchangeLaws p.crypto) (version : ℕ) (auth : Authenticator Priv) (a : Priv)
    (secret : Bytes) (w opened drawn : World)
    (o : Opening p ex version a auth.private_key secret w opened) (iv : Bytes) where
  hash_blocks : (pin : Bytes) → length (take 16 (p.crypto.sha256 pin)) % 16 ≡ 0
  hash_blocks pin = omega (arith, length-take 16 (p.crypto.sha256 pin), laws.length-sha256 pin)

  -- The authenticator answers the command with its token, sealed.
  token_answer-command :
      (pin iv' : Bytes)
      → length iv ≡ 16
      → take 16 (p.crypto.sha256 pin) ≡ auth.pin_hash
      → token_answer p.crypto auth iv' (token_command p version a secret iv pin)
        ≡ ok (record zero_response {
          pin_uv_auth_token = seal p.crypto version secret iv' auth.token;
        })
  unfolding token_answer
  token_answer-command pin iv' v h =
      let key = IsKey-Opening p ex version a auth.private_key secret w opened o laws in
      let opens =
        unseal-seal p.crypto laws version secret iv (take 16 (p.crypto.sha256 pin)) key v
          (hash_blocks pin) in
      ground (
        arith,
        o.known,
        secret_of-Opening p ex version a auth.private_key secret w opened o,
        opens,
        h,
        equal_bytes_refl auth.pin_hash,
      )

  -- With the right PIN, an authenticator that follows the specification and has a token of whole blocks
  -- hands that token over: the client returns it.
  pub get_pin_token-agrees :
      (pin iv' : Bytes) (last : World)
      → length iv ≡ 16
      → length iv' ≡ 16
      → p.random 16 opened ≡ (ok iv, drawn)
      → take 16 (p.crypto.sha256 pin) ≡ auth.pin_hash
      → 0 < length auth.token
      → length auth.token % 16 ≡ 0
      → exchange_client_pin p
          (token_command p version a secret iv pin)
          (after_encrypt version opened drawn)
        ≡ (token_answer p.crypto auth iv' (token_command p version a secret iv pin), last)
      → get_pin_token p version pin w ≡ (ok auth.token, last)
  unfolding get_pin_token encrypt_pin_hash receive_token
  get_pin_token-agrees pin iv' last v v' r h some_token whole e =
      let key = IsKey-Opening p ex version a auth.private_key secret w opened o laws in
      let sealed =
        encrypt-seal p laws version secret iv (take 16 (p.crypto.sha256 pin)) opened drawn key v
          (hash_blocks pin) r in
      let opens = decrypt-seal p.crypto laws version secret iv' auth.token key v' whole in
      let nonempty = length-seal p.crypto laws version secret iv' auth.token key v' whole in
      let answer = token_answer-command pin iv' v h in
      ground (
        arith,
        get_session-Opening p ex version a auth.private_key secret w opened o,
        sealed,
        e,
        answer,
        opens,
        nonempty,
      )
