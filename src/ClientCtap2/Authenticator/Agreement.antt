-- ===== src/ClientCtap2/Authenticator/Agreement.antt =====
-- Client and authenticator derive one secret, and the client seals for it as the specification does.
use fido_go.Base.{
  ℕ, ◌%◌, ◌≡◌, refl, ◌⊎◌, true, some, ◌∷◌, ◌++◌, arith, ◌==◌, if◌then◌else◌, length, take-append,
  drop-append, take_all, Bytes, ok, equal_int,
}
use fido_go.Ctap2.ClientPin.{
  ClientPinResponse, new_client_pin_command, client_pin_get_key_agreement,
}
use fido_go.ClientCtap2.Platform.{Crypto, Platform}
use fido_go.ClientCtap2.Protocol.{cose_of_public_bytes, cose_ec2_public_key, seal_2}
use fido_go.ClientCtap2.Protocol.Laws.{
  CipherLaws, IsKey, one, two, IsPoint, uncompressed, validate_ec2-cose_of_public_bytes,
  encode_point-cose_of_public_bytes, decrypt_1-encrypt_1, decrypt_2-seal_2, kdf-IsKey,
}
use fido_go.ClientCtap2.Session.{
  PinSession, encrypt, encrypt_2, new_session, get_session, exchange_client_pin,
}
use fido_go.ClientCtap2.Authenticator.{cose_of, is_agreement_key, derive, seal, secret_of}
use fido_go.ClientCtap2.Authenticator.Ciphers.{kdf-derive, seal_2-seal}

-- A public key is an uncompressed point, is read back as the key, and both parties derive one point.
pub record ExchangeLaws {X Priv Pub : Type 0} (crypto : Crypto X Priv Pub) : Type 0 where
  pub public : Priv → Pub
  pub public_bytes-IsPoint : (a : Priv) → IsPoint (crypto.public_bytes a)
  pub new_public_key-public_bytes :
      (a : Priv) → crypto.new_public_key (crypto.public_bytes a) ≡ ok (public a)
  pub ecdh_comm : (a b : Priv) → crypto.ecdh a (public b) ≡ crypto.ecdh b (public a)

module _ {X Priv Pub : Type 0} (crypto : Crypto X Priv Pub) (ex : ExchangeLaws crypto) where
  cose_ec2_public_key-public :
      (a : Priv) → cose_ec2_public_key crypto (cose_of (crypto.public_bytes a)) ≡ ok (ex.public a)
  unfolding cose_ec2_public_key cose_of_public_bytes
  cose_ec2_public_key-public a =
      let pt = ex.public_bytes-IsPoint a in
      rw
        (
          validate_ec2-cose_of_public_bytes (crypto.public_bytes a) pt,
          cose_ec2_public_key,
          encode_point-cose_of_public_bytes (crypto.public_bytes a) pt,
          ex.new_public_key-public_bytes a,
        )
        refl

  cose_of-IsPoint :
      (content : Bytes)
      → IsPoint content
      → (is_agreement_key (cose_of content) ≡ true)
        × (0x04 ∷ ((cose_of content).x ++ (cose_of content).y) ≡ content)
  unfolding is_agreement_key equal_int
  cose_of-IsPoint _ (uncompressed x y h k) =
      rw (take-append 32 x y h, drop-append 32 x y h, take_all 32 y (omega arith))
        (ground (arith, h, k), refl)

  -- The authenticator `b` derives from the client's COSE key the secret that the client derives.
  pub secret_of-agrees :
      (a b : Priv) (version : ℕ) (point secret : Bytes)
      → crypto.ecdh a (ex.public b) ≡ ok point
      → derive crypto version point ≡ ok secret
      → secret_of crypto b version (cose_of (crypto.public_bytes a)) ≡ ok secret
  unfolding secret_of
  secret_of-agrees a b version point secret h k =
      let (accepted, same) = cose_of-IsPoint (crypto.public_bytes a) (ex.public_bytes-IsPoint a) in
      rw (same) (ground (arith, accepted, ex.new_public_key-public_bytes a, ex.ecdh_comm a b, h, k))

-- The world after an encryption: protocol 2 has drawn an IV.
abbrev pub after_encrypt : {World : Type 0} → ℕ → World → World → World
after_encrypt version before drawn = if version == 1 then before else drawn

module _ {World X Priv Pub : Type 0} (p : Platform World X Priv Pub)
    (laws : CipherLaws p.crypto) where
  encrypt_2-seal_2 :
      (key iv text : Bytes) (w drawn : World)
      → length key ≡ 64
      → length iv ≡ 16
      → length text % 16 ≡ 0
      → p.random 16 w ≡ (ok iv, drawn)
      → encrypt p 2 key text w ≡ (ok (seal_2 p.crypto key iv text), drawn)
  unfolding encrypt encrypt_2
  encrypt_2-seal_2 key iv text w drawn k v t h =
      let checked = (decrypt_2-seal_2 p.crypto laws key iv text k v t).0 in
      ground (arith, checked, h)

  -- The client encrypts as the specification does.
  pub encrypt-seal :
      (version : ℕ) (key iv text : Bytes) (w drawn : World)
      → IsKey key version
      → length iv ≡ 16
      → length text % 16 ≡ 0
      → p.random 16 w ≡ (ok iv, drawn)
      → encrypt p version key text w
        ≡ (ok (seal p.crypto version key iv text), after_encrypt version w drawn)
  unfolding encrypt seal
  encrypt-seal _ key iv text w drawn (one k) v t h =
      rw (decrypt_1-encrypt_1 p.crypto laws key text k t).0 refl
  encrypt-seal _ key iv text w drawn (two k) v t h =
      rw (seal_2-seal p.crypto key iv text k) at (encrypt_2-seal_2 key iv text w drawn k v t h)

module _ {World X Priv Pub : Type 0} (p : Platform World X Priv Pub)
    (ex : ExchangeLaws p.crypto) where
  -- The client asks for the key agreement key of `b`, makes a key `a`, and derives `secret` from both;
  -- the worlds are those before and after.
  pub record Opening (version : ℕ) (a b : Priv) (secret : Bytes) (w opened : World) : Type 0 where
    pub known : (version ≡ 1) ⊎ (version ≡ 2)
    pub response : ClientPinResponse
    pub asked : World
    pub exchanged :
        exchange_client_pin p (new_client_pin_command version client_pin_get_key_agreement) w
        ≡ (ok response, asked)
    pub offered : response.key_agreement ≡ some (cose_of (p.crypto.public_bytes b))
    pub generated : p.generate_key asked ≡ (ok a, opened)
    pub point : Bytes
    pub derived : p.crypto.ecdh a (ex.public b) ≡ ok point
    pub secret_is : derive p.crypto version point ≡ ok secret

  -- The session that the client opens.
  abbrev pub session_of : ℕ → Priv → Bytes → PinSession
  session_of version a secret = record {
    version = version;
    shared_secret = secret;
    key_agreement = cose_of (p.crypto.public_bytes a);
  }

  module _ (version : ℕ) (a b : Priv) (secret : Bytes) (w opened : World)
      (o : Opening version a b secret w opened) where
    pub get_session-Opening : get_session p version w ≡ (ok (session_of version a secret), opened)
    unfolding get_session new_session cose_of_public_bytes
    get_session-Opening = ground (
      arith,
      o.exchanged,
      o.offered,
      o.generated,
      o.derived,
      o.secret_is,
      kdf-derive p.crypto version o.point o.known,
      cose_ec2_public_key-public p.crypto ex b,
    )

    -- The authenticator derives the same secret.
    pub secret_of-Opening :
        secret_of p.crypto b version (cose_of (p.crypto.public_bytes a)) ≡ ok secret
    secret_of-Opening =
        secret_of-agrees p.crypto ex a b version o.point secret o.derived o.secret_is

    pub IsKey-Opening : CipherLaws p.crypto → IsKey secret version
    IsKey-Opening laws =
        kdf-IsKey p.crypto laws version o.point secret o.known
          (rw (kdf-derive p.crypto version o.point o.known) o.secret_is)
