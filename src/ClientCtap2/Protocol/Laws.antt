-- ===== src/ClientCtap2/Protocol/Laws.antt =====
-- What the protocols rely on of Go's crypto packages, and what they make of it.
use fido_go.Base.{
  ℕ, ◌%◌, ◌≡◌, refl, sym, ◌⊎◌, inl, inr, ◌∷◌, ◌++◌, arith, length, take, drop, length-append,
  length-take, length-drop, length-replicate, take-append, drop-append, take_all, Bytes, zeros,
  Result-cases, ok, equal_int,
}
use fido_go.Ctap2.Types.{cose_key_type_ec2, cose_algorithm_ecdh_es_hkdf_256, cose_curve_p256}
use fido_go.Ctap2.Cose.{validate_ec2}
use fido_go.ClientCtap2.Platform.{Crypto}
use fido_go.ClientCtap2.Protocol.{
  hmac_key_info, aes_key_info, kdf, encrypt_1, decrypt_1, check_encrypt_2, seal_2, decrypt_2,
  encode_point, left_pad_coordinate, cose_of_public_bytes,
}

-- SHA-256 has 32 bytes, HKDF the length that is asked for, AES takes a key of 32 bytes, and CBC over
-- whole blocks keeps the length and is undone by its inverse under the same key and IV.
pub record CipherLaws {X Priv Pub : Type 0} (crypto : Crypto X Priv Pub) : Type 0 where
  pub length-sha256 : (message : Bytes) → length (crypto.sha256 message) ≡ 32
  pub length-hkdf_sha256 :
      (secret salt info key : Bytes) (n : ℕ)
      → crypto.hkdf_sha256 secret salt info n ≡ ok key
      → length key ≡ n
  pub aes_key_accepts : (key : Bytes) → length key ≡ 32 → crypto.aes_key key ≡ ok tt
  pub length-cbc_encrypt :
      (key iv text : Bytes)
      → length key ≡ 32
      → length iv ≡ 16
      → length text % 16 ≡ 0
      → length (crypto.cbc_encrypt key iv text) ≡ length text
  pub cbc_decrypt-cbc_encrypt :
      (key iv text : Bytes)
      → length key ≡ 32
      → length iv ≡ 16
      → length text % 16 ≡ 0
      → crypto.cbc_decrypt key iv (crypto.cbc_encrypt key iv text) ≡ text

-- The length of a protocol's key.
pub data IsKey (key : Bytes) : ℕ → Type 0 where
  one : length key ≡ 32 → IsKey key 1
  two : length key ≡ 64 → IsKey key 2

module _ {X Priv Pub : Type 0} (crypto : Crypto X Priv Pub) (laws : CipherLaws crypto) where
  kdf-one : (point key : Bytes) → kdf crypto 1 point ≡ ok key → length key ≡ 32
  unfolding kdf
  kdf-one point key h = ground (arith, h, laws.length-sha256 point)

  kdf-two : (point key : Bytes) → kdf crypto 2 point ≡ ok key → length key ≡ 64
  unfolding kdf
  kdf-two point key h = elim (Result-cases (crypto.hkdf_sha256 point (zeros 32) hmac_key_info 32)) [
    | inl (_, refused) ↦ absurd (ground (arith, h, refused))
    | inr (hmac, made) ↦ elim (Result-cases (crypto.hkdf_sha256 point (zeros 32) aes_key_info 32)) [
      | inl (_, refused) ↦ absurd (ground (arith, h, made, refused))
      | inr (aes, also) ↦
          let same : hmac ++ aes ≡ key = ground (arith, h, made, also) in
          rw (sym same) (
            omega (
              arith,
              length-append hmac aes,
              laws.length-hkdf_sha256 point (zeros 32) hmac_key_info hmac 32 made,
              laws.length-hkdf_sha256 point (zeros 32) aes_key_info aes 32 also,
            ))
    ]
  ]

  pub kdf-IsKey :
      (version : ℕ) (point key : Bytes)
      → (version ≡ 1) ⊎ (version ≡ 2)
      → kdf crypto version point ≡ ok key
      → IsKey key version
  kdf-IsKey version point key (inl e) h = rw e (one (kdf-one point key (rw (sym e) h)))
  kdf-IsKey version point key (inr e) h = rw e (two (kdf-two point key (rw (sym e) h)))

  -- Protocol 1 uses the zero IV.
  pub decrypt_1-encrypt_1 :
      (key text : Bytes)
      → length key ≡ 32
      → length text % 16 ≡ 0
      → (encrypt_1 crypto key text ≡ ok (crypto.cbc_encrypt key (zeros 16) text))
        × (decrypt_1 crypto key (crypto.cbc_encrypt key (zeros 16) text) ≡ ok text)
  unfolding encrypt_1 decrypt_1
  decrypt_1-encrypt_1 key text k t =
      let iv = length-replicate {A = ℕ} 16 0 in
      let accepts = laws.aes_key_accepts key k in
      let size = laws.length-cbc_encrypt key (zeros 16) text k iv t in
      let undone = laws.cbc_decrypt-cbc_encrypt key (zeros 16) text k iv t in
      (ground (arith, accepts), ground (arith, size, accepts, undone))

  -- Protocol 2 puts the IV before the ciphertext, and encrypts with the second half of its key.
  pub decrypt_2-seal_2 :
      (key iv text : Bytes)
      → length key ≡ 64
      → length iv ≡ 16
      → length text % 16 ≡ 0
      → (check_encrypt_2 crypto key text ≡ ok tt)
        × (decrypt_2 crypto key (seal_2 crypto key iv text) ≡ ok text)
  unfolding check_encrypt_2 decrypt_2 seal_2
  decrypt_2-seal_2 key iv text k v t =
      let aes : length (take 32 (drop 32 key)) ≡ 32 =
        omega (arith, length-take 32 (drop 32 key), length-drop 32 key) in
      let accepts = laws.aes_key_accepts (take 32 (drop 32 key)) aes in
      let c = crypto.cbc_encrypt (take 32 (drop 32 key)) iv text in
      let size = laws.length-cbc_encrypt (take 32 (drop 32 key)) iv text aes v t in
      let undone = laws.cbc_decrypt-cbc_encrypt (take 32 (drop 32 key)) iv text aes v t in
      let whole = length-append iv c in
      (
        ground (arith, accepts),
        rw (take-append 16 iv c v, drop-append 16 iv c v)
            (ground (arith, size, accepts, undone, whole)),
      )

-- An uncompressed point of P-256.
pub data IsPoint : Bytes → Type 0 where
  uncompressed : (x y : Bytes) → length x ≡ 32 → length y ≡ 32 → IsPoint (0x04 ∷ (x ++ y))

-- The COSE key of a point has its coordinates.
cose_of_public_bytes-point :
    (x y : Bytes)
    → length x ≡ 32
    → length y ≡ 32
    → cose_of_public_bytes (0x04 ∷ (x ++ y)) ≡ record {
      key_type = cose_key_type_ec2;
      algorithm = cose_algorithm_ecdh_es_hkdf_256;
      curve = cose_curve_p256;
      x = x;
      y = y;
    }
unfolding cose_of_public_bytes
cose_of_public_bytes-point x y h k =
    rw (take-append 32 x y h, drop-append 32 x y h, take_all 32 y (omega arith)) refl

-- The COSE key that is made of a point is valid, and stands for that point.
pub validate_ec2-cose_of_public_bytes :
    (content : Bytes) → IsPoint content → validate_ec2 (cose_of_public_bytes content) ≡ ok tt
unfolding validate_ec2 equal_int
validate_ec2-cose_of_public_bytes _ (uncompressed x y h k) =
    rw (cose_of_public_bytes-point x y h k, validate_ec2, h, k) refl

pub encode_point-cose_of_public_bytes :
    (content : Bytes) → IsPoint content → encode_point (cose_of_public_bytes content) ≡ content
unfolding encode_point left_pad_coordinate
encode_point-cose_of_public_bytes _ (uncompressed x y h k) =
    rw (cose_of_public_bytes-point x y h k, encode_point, left_pad_coordinate, h, k) refl
