-- ===== src/ClientCtap2/Authenticator/Ciphers.antt =====
-- The client's ciphers are the specification's: each side opens what the other seals.
use fido_go.Base.{
  ℕ, ◌%◌, ◌≤◌, ◌≡◌, refl, ◌⊎◌, inl, inr, some, arith, length, take, drop, replicate, length-append,
  length-drop, length-replicate, take-append, drop-append, take_all, Bytes, ok,
}
use fido_go.ClientCtap2.Platform.{Crypto}
use fido_go.ClientCtap2.Protocol.{
  kdf, decrypt, seal_2, authenticate, authenticate_1, authenticate_2,
}
use fido_go.ClientCtap2.Protocol.Laws.{
  CipherLaws, IsKey, one, two, decrypt_1-encrypt_1, decrypt_2-seal_2,
}
use fido_go.ClientCtap2.Authenticator.{derive, seal, unseal, mac}

module _ {X Priv Pub : Type 0} (crypto : Crypto X Priv Pub) where
  pub kdf-derive :
      (version : ℕ) (point : Bytes)
      → (version ≡ 1) ⊎ (version ≡ 2)
      → kdf crypto version point ≡ derive crypto version point
  unfolding kdf derive
  kdf-derive version point (inl e) = rw e refl
  kdf-derive version point (inr e) = rw e refl

  -- The key of protocol 2 has 64 bytes, and the client cuts its halves out of it.
  pub second_half : (key : Bytes) → length key ≡ 64 → take 32 (drop 32 key) ≡ drop 32 key
  second_half key k = take_all 32 (drop 32 key) (omega (arith, length-drop 32 key))

  pub seal_2-seal :
      (key iv text : Bytes)
      → length key ≡ 64
      → seal_2 crypto key iv text ≡ seal crypto 2 key iv text
  unfolding seal_2 seal
  seal_2-seal key iv text k = rw (second_half key k) refl

  pub authenticate-mac :
      (version : ℕ) (key message : Bytes)
      → IsKey key version
      → authenticate crypto version key message ≡ mac crypto version key message
  unfolding authenticate authenticate_1 authenticate_2 mac
  authenticate-mac _ key message (one k) = refl
  authenticate-mac _ key message (two k) = ground (arith, k)

module _ {X Priv Pub : Type 0} (crypto : Crypto X Priv Pub) (laws : CipherLaws crypto) where
  -- What one side seals with a key of the protocol, the other opens: the client,
  pub decrypt-seal :
      (version : ℕ) (key iv text : Bytes)
      → IsKey key version
      → length iv ≡ 16
      → length text % 16 ≡ 0
      → decrypt crypto version key (seal crypto version key iv text) ≡ ok text
  unfolding decrypt seal
  decrypt-seal _ key iv text (one k) v t = (decrypt_1-encrypt_1 crypto laws key text k t).1
  decrypt-seal _ key iv text (two k) v t =
      rw (seal_2-seal crypto key iv text k) at (decrypt_2-seal_2 crypto laws key iv text k v t).1

  -- and the authenticator.
  pub unseal-seal :
      (version : ℕ) (key iv text : Bytes)
      → IsKey key version
      → length iv ≡ 16
      → length text % 16 ≡ 0
      → unseal crypto version key (seal crypto version key iv text) ≡ some text
  unfolding unseal seal
  unseal-seal _ key iv text (one k) v t =
      let zero_iv = length-replicate {A = ℕ} 16 0 in
      let size = laws.length-cbc_encrypt key (replicate 16 0) text k zero_iv t in
      let undone = laws.cbc_decrypt-cbc_encrypt key (replicate 16 0) text k zero_iv t in
      ground (arith, size, undone)
  unseal-seal _ key iv text (two k) v t =
      let aes : length (drop 32 key) ≡ 32 = omega (arith, length-drop 32 key) in
      let c = crypto.cbc_encrypt (drop 32 key) iv text in
      let size = laws.length-cbc_encrypt (drop 32 key) iv text aes v t in
      let undone = laws.cbc_decrypt-cbc_encrypt (drop 32 key) iv text aes v t in
      let whole = length-append iv c in
      rw (take-append 16 iv c v, drop-append 16 iv c v) (ground (arith, size, undone, whole))

  pub length-seal :
      (version : ℕ) (key iv text : Bytes)
      → IsKey key version
      → length iv ≡ 16
      → length text % 16 ≡ 0
      → length text ≤ length (seal crypto version key iv text)
  unfolding seal
  length-seal _ key iv text (one k) v t =
      omega (
        arith,
        laws.length-cbc_encrypt key (replicate 16 0) text k (length-replicate {A = ℕ} 16 0) t,
      )
  length-seal _ key iv text (two k) v t =
      let half = drop 32 key in
      let aes : length half ≡ 32 = omega (arith, length-drop 32 key) in
      omega (
        arith,
        length-append iv (crypto.cbc_encrypt half iv text),
        laws.length-cbc_encrypt half iv text aes v t,
      )
