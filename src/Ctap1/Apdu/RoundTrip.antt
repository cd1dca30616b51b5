-- ===== src/Ctap1/Apdu/RoundTrip.antt =====
-- A card reads back what is encoded; a response is split from its status word.
use fido_go.Base.{
  ℕ, suc, ◌+◌, ◌-◌, ◌*◌, ◌/◌, ◌^◌, ◌≤◌, ◌<◌, ◌≡◌, refl, ap, ◌∙◌, ◌⊎◌, inl, inr, ◌&&◌, Option, some,
  [], ◌∷◌, ◌++◌, arith, ltb, leb, ◌==◌, if◌then◌else◌, lt→ltb, le→not_ltb, Bool-cases, length,
  length-append, take-append, drop-append, Bytes, u8, byte_at-append, byte_at_end, ok, err,
}
use fido_go.Ctap1.Apdu.Decode.{
  Apdu, read_fields, read_apdu, with_body, short_expected, extended_expected,
}
use fido_go.Ctap1.Errors.{status}
use fido_go.Ctap1.Apdu.{
  encode_apdu, encode_short_apdu, encode_extended_apdu, decode_response, success_status_word,
}

with_body-append :
    (read : Bytes → Option ℕ) (body tail : Bytes) {n : ℕ}
    → read tail ≡ some n
    → with_body read (length body) (body ++ tail) ≡ some (body, n)
with_body-append read body tail h =
    rw (drop-append (length body) body tail refl, with_body, h)
      (rw (take-append (length body) body tail refl))

read_fields-short :
    (lc b : ℕ) (rest : Bytes)
    → 0 < lc
    → read_fields (lc ∷ b ∷ rest) ≡ with_body short_expected lc (b ∷ rest)
read_fields-short lc b [] h = refl
read_fields-short lc b (c ∷ []) h = ground arith
read_fields-short lc b (c ∷ d ∷ rest) h = ground arith

-- The fields of the short form.
short_fields :
    (body : Bytes) (expected : ℕ) (tail : Bytes)
    → length body ≤ 255
    → short_expected tail ≡ some expected
    → (body ≡ [] → tail ≡ [] → expected ≡ 0)
    → read_fields ((if ltb 0 (length body) then u8 (length body) ∷ body else []) ++ tail)
      ≡ some (body, expected)
short_fields [] expected [] h k z = ground arith
short_fields [] expected (le ∷ []) h k z = ground arith
short_fields [] expected (le ∷ x ∷ tail) h k z = cc
short_fields (b ∷ bs) expected tail h k z =
    let size : u8 (suc (length bs)) ≡ suc (length bs) = omega arith in
    rw (lt→ltb 0 (suc (length bs)) (omega arith)) (
      ap (λ n. read_fields (n ∷ b ∷ (bs ++ tail))) size
      ∙ read_fields-short (suc (length bs)) b (bs ++ tail) (omega arith)
      ∙ with_body-append short_expected (b ∷ bs) tail k)

extended_fields :
    (body : Bytes) (expected : ℕ) (tail : Bytes)
    → length body ≤ 65535
    → extended_expected tail ≡ some expected
    → (0 < length body) ⊎ (length tail ≡ 2)
    → read_fields (
        0
        ∷ ((if ltb 0 (length body) then u8 (length body / 2 ^ 8) ∷ u8 (length body) ∷ body else [])
            ++ tail))
      ≡ some (body, expected)
extended_fields [] expected (x ∷ y ∷ []) h k z = ground arith
extended_fields [] expected [] h k z = ground arith
extended_fields [] expected (x ∷ []) h k z = ground arith
extended_fields [] expected (x ∷ y ∷ w ∷ tail) h k z = cc
extended_fields (b ∷ bs) expected tail h k z =
    let size : u8 (suc (length bs) / 2 ^ 8) * 2 ^ 8 + u8 (suc (length bs)) ≡ suc (length bs) =
      omega arith in
    rw (
      lt→ltb 0 (suc (length bs)) (omega arith),
      size,
      with_body-append extended_expected (b ∷ bs) tail k,
    )

abbrev apdu : ℕ → ℕ → ℕ → Bytes → ℕ → Apdu
apdu command p1 p2 body expected = record {
  class = 0;
  instruction = command;
  p1 = p1;
  p2 = p2;
  body = body;
  expected = expected;
}

read_apdu-encode_short_apdu :
    (command p1 p2 : ℕ) (body : Bytes) (expected : ℕ)
    → length body ≤ 255
    → expected ≤ 256
    → read_apdu (encode_short_apdu command p1 p2 body expected)
      ≡ some (apdu command p1 p2 body expected)
unfolding read_apdu encode_short_apdu
read_apdu-encode_short_apdu command p1 p2 body expected small short =
    let le = if expected == 256 then 0 else u8 expected in
    let tail : Bytes = if ltb 0 expected then le ∷ [] else [] in
    rw (short_fields body expected tail small (ground arith) (ground arith), read_apdu)

read_apdu-encode_extended_apdu :
    (command p1 p2 : ℕ) (body : Bytes) (expected : ℕ)
    → length body ≤ 65535
    → expected ≤ 65536
    → (0 < length body) ⊎ (0 < expected)
    → read_apdu (encode_extended_apdu command p1 p2 body expected)
      ≡ some (apdu command p1 p2 body expected)
unfolding read_apdu encode_extended_apdu
read_apdu-encode_extended_apdu command p1 p2 body expected small short some_field =
    let le = if expected == 65536 then 0 else expected in
    let tail : Bytes = if ltb 0 expected then u8 (le / 2 ^ 8) ∷ u8 le ∷ [] else [] in
    rw (extended_fields body expected tail small (ground arith) (ground arith), read_apdu)

-- For every body of at most 65535 bytes and every response length of at most 65536, the encoding
-- succeeds and a card reads from it the same command, parameters, body and response length.
pub read_apdu-encode_apdu :
    (command p1 p2 : ℕ) (body : Bytes) (expected : ℕ)
    → length body ≤ 65535
    → expected ≤ 65536
    → (encoded : Bytes) × (encode_apdu command p1 p2 body expected ≡ ok encoded)
      × (read_apdu encoded ≡ some (apdu command p1 p2 body expected))
unfolding encode_apdu
read_apdu-encode_apdu command p1 p2 body expected small short =
    elim (Bool-cases (leb (length body) 0xff && leb expected 256)) [
      | inl fits ↦ (
        encode_short_apdu command p1 p2 body expected,
        ground arith,
        read_apdu-encode_short_apdu command p1 p2 body expected (ground arith) (ground arith),
      )
      | inr over ↦ (
        encode_extended_apdu command p1 p2 body expected,
        ground arith,
        read_apdu-encode_extended_apdu command p1 p2 body expected small short (ground arith),
      )
    ]

-- A response is its body and a status word: the body is returned exactly for 0x9000, and any other
-- word is an error that carries it.
pub decode_response-status :
    (body : Bytes) (sw1 sw2 : ℕ)
    → decode_response (body ++ (sw1 ∷ sw2 ∷ [])) ≡ (
        if sw1 * 2 ^ 8 + sw2 == success_status_word
        then ok body
        else err (status (sw1 * 2 ^ 8 + sw2)))
unfolding decode_response
decode_response-status body sw1 sw2 =
    let status : Bytes = sw1 ∷ sw2 ∷ [] in
    let size : length (body ++ status) - 2 ≡ length body =
      omega (arith, length-append body status) in
    rw
      (
        size,
        byte_at-append body status 1,
        byte_at_end body status,
        take-append (length body) body status refl,
        le→not_ltb (length (body ++ status)) 2 (omega (arith, length-append body status)),
      )
      (ground arith)
