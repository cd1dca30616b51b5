-- ===== src/Client/AuthData/RoundTrip.antt =====
-- The fields of authenticator data, laid out by the WebAuthn specification, are read back.
use fido_go.Base.{
  ℕ, ◌+◌, ◌-◌, ◌^◌, ◌<◌, ◌≡◌, refl, sym, ap, ◌∙◌, true, ◌∷◌, ◌++◌, arith, length, drop,
  length-append, take-append, drop-append, drop-drop, slice, Bytes, byte_at, put_uint16, put_uint32,
  uint16_at, uint32_at, uint32_at-put_uint32, byte_at-append, ok,
}
use fido_go.Client.AuthData.{
  is_set, flag_user_present, flag_user_verified, flag_attested_cred, parse_header,
  parse_authenticator_data,
}

byte_at_offset :
    (n i : ℕ) (xs ys : Bytes) → length xs ≡ n → byte_at (xs ++ ys) (n + i) ≡ byte_at ys i
byte_at_offset n i xs ys e = ap (λ k. byte_at (xs ++ ys) (k + i)) (sym e) ∙ byte_at-append xs ys i

drop_offset : (n i : ℕ) (xs ys : Bytes) → length xs ≡ n → drop (n + i) (xs ++ ys) ≡ drop i ys
drop_offset n i xs ys e = sym (drop-drop n i (xs ++ ys)) ∙ ap (drop i) (drop-append n xs ys e)

slice_offset : (n : ℕ) (xs ys zs : Bytes) → drop n xs ≡ ys ++ zs → slice xs n (n + length ys) ≡ ys
unfolding slice
slice_offset n xs ys zs e =
    let size : n + length ys - n ≡ length ys = omega arith in
    rw (size, e) (take-append (length ys) ys zs refl)

-- rpIdHash, flags, signCount and attested credential data with what follows (the public key).
abbrev pub layout : Bytes → ℕ → ℕ → Bytes → Bytes → Bytes → Bytes
layout rp_id_hash flags sign_count aaguid credential_id rest =
    rp_id_hash
    ++ (flags
        ∷ (put_uint32 sign_count
            ++ (aaguid ++ (put_uint16 (length credential_id) ++ (credential_id ++ rest)))))

-- Data with a 32-byte hash, the flag of an attested credential, a 16-byte AAGUID and a credential ID of at
-- most 65535 bytes is parsed into its flags, its counter and its credential ID.
pub parse_authenticator_data-layout :
    {X : Type 0} (rp_id_hash : Bytes) (flags sign_count : ℕ) (aaguid credential_id rest : Bytes)
    → length rp_id_hash ≡ 32
    → is_set flags flag_attested_cred ≡ true
    → sign_count < 2 ^ 32
    → length aaguid ≡ 16
    → length credential_id < 2 ^ 16
    → parse_authenticator_data {X = X}
        (layout rp_id_hash flags sign_count aaguid credential_id rest)
      ≡ ok (record {
        user_present = is_set flags flag_user_present;
        user_verified = is_set flags flag_user_verified;
        sign_count = sign_count;
        credential_id = credential_id;
      })
unfolding parse_authenticator_data parse_header
parse_authenticator_data-layout h flags count aaguid id rest lh attested bound la li =
    let content = layout h flags count aaguid id rest in
    let tail = put_uint16 (length id) ++ (id ++ rest) in
    let body : Bytes = flags ∷ (put_uint32 count ++ (aaguid ++ tail)) in
    let at_32 : byte_at content 32 ≡ flags = byte_at_offset 32 0 h body lh in
    let counter : uint32_at content 33 ≡ count =
      rw
        (
          byte_at_offset 32 1 h body lh,
          byte_at_offset 32 2 h body lh,
          byte_at_offset 32 3 h body lh,
          byte_at_offset 32 4 h body lh,
        )
        (uint32_at-put_uint32 count (aaguid ++ tail) bound) in
    let high : byte_at content 53 ≡ byte_at tail 0 =
      byte_at_offset 32 21 h body lh ∙ byte_at_offset 16 0 aaguid tail la in
    let low : byte_at content 54 ≡ byte_at tail 1 =
      byte_at_offset 32 22 h body lh ∙ byte_at_offset 16 1 aaguid tail la in
    let size : uint16_at content 53 ≡ length id = rw (high, low) (omega (arith, li)) in
    let whole : length content ≡ 55 + length id + length rest =
      omega
        (arith, length-append h body, length-append aaguid tail, length-append id rest, lh, la) in
    let cut : slice content 55 (55 + length id) ≡ id =
      slice_offset 55 content id rest
        (drop_offset 32 23 h body lh ∙ drop_offset 16 2 aaguid tail la) in
    ground (arith, at_32, attested, counter, size, whole, cut)
