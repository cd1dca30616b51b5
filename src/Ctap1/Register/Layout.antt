-- ===== src/Ctap1/Register/Layout.antt =====
-- What a token reads from the request, and how a response is laid out.
use fido_go.Base.{
  ℕ, ◌+◌, ◌-◌, ◌≤◌, ◌<◌, ◌≡◌, refl, sym, ap, ◌∙◌, true, some, [], ◌∷◌, ◌++◌, append_assoc, arith,
  length, take, drop, length-append, length-take, take-append, drop-append, slice, slice-append,
  slice-append-drop, length-slice, Bytes, byte_at, byte_at_after, byte_at_before, drop-eq-cons, ok,
}
use fido_go.Ctap1.Apdu.Decode.{read_apdu}
use fido_go.Ctap1.Apdu.RoundTrip.{read_apdu-encode_apdu, decode_response-status}
use fido_go.Ctap1.Register.{
  CertificateReader, RegisterCommand, RegisterResponse, encode, decode, decode_payload,
  decode_certificate, command_register,
}

-- A command is encoded exactly if both parameters have 32 bytes, and then a card reads from it the
-- challenge and the application as the body.
pub read_apdu-encode_register :
    (command : RegisterCommand)
    → length command.challenge ≡ 32
    → length command.application ≡ 32
    → (encoded : Bytes) × (encode command ≡ ok encoded)
      × (read_apdu encoded
          ≡ some (record {
            class = 0;
            instruction = command_register;
            p1 = 0;
            p2 = 0;
            body = command.challenge ++ command.application;
            expected = 65536;
          }))
unfolding encode
read_apdu-encode_register command h k =
    let size = length-append command.challenge command.application in
    let (encoded, e, same) =
      read_apdu-encode_apdu command_register 0 0 (command.challenge ++ command.application) 65536
        (omega (arith, size)) (omega arith) in
    (encoded, ground (arith, e), same)

-- The response message of the U2F specification.
abbrev header : RegisterResponse → Bytes
header r = r.reserved ∷ (r.public_key ++ (length r.key_handle ∷ []))

abbrev pub message : RegisterResponse → Bytes
message r = header r ++ (r.key_handle ++ (r.attestation_certificate ++ r.signature))

pub record IsRegistration (reader : CertificateReader) (r : RegisterResponse) : Type 0 where
  pub reserved_is : r.reserved ≡ 0x05
  pub public_key_size : length r.public_key ≡ 65
  pub certificate_pos : 0 < length r.attestation_certificate
  pub certificate_read :
      reader.unmarshal (r.attestation_certificate ++ r.signature) ≡ some r.signature
  pub certificate_parses : reader.parse_certificate r.attestation_certificate ≡ true
  pub signature_pos : 0 < length r.signature

-- The certificate and the signature are told apart by the certificate's own length.
decode_certificate-message :
    (reader : CertificateReader) (r : RegisterResponse) (payload : Bytes)
    → IsRegistration reader r
    → payload ≡ message r
    → decode_certificate reader payload
        (length r.key_handle)
        (r.attestation_certificate ++ r.signature)
      ≡ ok r
unfolding decode_certificate
decode_certificate-message reader r payload v e =
    let c = r.attestation_certificate in
    let s = r.signature in
    let cut : length (c ++ s) - length s ≡ length c = omega (arith, length-append c s) in
    let size = length-append r.public_key (length r.key_handle ∷ []) in
    let key =
      slice-append 67 (67 + length r.key_handle) (header r) r.key_handle (c ++ s)
        (omega (arith, size, v.public_key_size)) refl in
    let point =
      slice-append 1 66 (r.reserved ∷ []) r.public_key
        (length r.key_handle ∷ (r.key_handle ++ (c ++ s))) refl
        (omega (arith, v.public_key_size)) in
    let regroup = append_assoc r.public_key (length r.key_handle ∷ []) (r.key_handle ++ (c ++ s)) in
    let key' : slice payload 67 (67 + length r.key_handle) ≡ r.key_handle = rw e key in
    let point' : slice payload 1 66 ≡ r.public_key =
      rw e (ap (λ t. slice (r.reserved ∷ t) 1 66) regroup ∙ point) in
    let first : byte_at payload 0 ≡ r.reserved = rw e refl in
    ground (
      arith,
      v.certificate_read,
      v.certificate_parses,
      v.certificate_pos,
      v.signature_pos,
      cut,
      take-append (length c) c s refl,
      key',
      point',
      first,
    )

module _ (r : RegisterResponse) (size : length r.public_key ≡ 65) where
  length-header : length (header r) ≡ 67
  length-header = omega (arith, length-append r.public_key (length r.key_handle ∷ []), size)

  key_handle_length : byte_at (message r) 66 ≡ length r.key_handle
  key_handle_length =
      byte_at_before 66 (header r) (r.key_handle ++ (r.attestation_certificate ++ r.signature))
        (omega (arith, length-header))
      ∙ byte_at_after 65 r.public_key (length r.key_handle ∷ []) size

  drop-message :
      drop (67 + length r.key_handle) (message r) ≡ r.attestation_certificate ++ r.signature
  drop-message =
      rw (← append_assoc (header r) r.key_handle (r.attestation_certificate ++ r.signature)) (
        drop-append (67 + length r.key_handle) (header r ++ r.key_handle)
          (r.attestation_certificate ++ r.signature)
          (omega (arith, length-append (header r) r.key_handle, length-header)))

  length-message :
      length (message r)
      ≡ 67 + length r.key_handle + (length r.attestation_certificate + length r.signature)
  length-message = omega (
    arith,
    length-append (header r) (r.key_handle ++ (r.attestation_certificate ++ r.signature)),
    length-append r.key_handle (r.attestation_certificate ++ r.signature),
    length-append r.attestation_certificate r.signature,
    length-header,
  )

decode_payload-message :
    (reader : CertificateReader) (r : RegisterResponse) (payload : Bytes)
    → IsRegistration reader r
    → payload ≡ message r
    → decode_payload reader payload ≡ ok r
unfolding decode_payload
decode_payload-message reader r payload v e =
    let n = length r.key_handle in
    let k : byte_at payload 66 ≡ n = rw e (key_handle_length r v.public_key_size) in
    let total : length payload ≡ 67 + n + (length r.attestation_certificate + length r.signature) =
      rw e (length-message r v.public_key_size) in
    let rest : drop (67 + byte_at payload 66) payload ≡ r.attestation_certificate ++ r.signature =
      rw (k, e) (drop-message r v.public_key_size) in
    let first : byte_at payload 0 ≡ 0x05 = rw e v.reserved_is in
    ground (
      arith,
      k,
      total,
      rest,
      first,
      length-append r.attestation_certificate r.signature,
      v.certificate_pos,
      decode_certificate-message reader r payload v e,
    )

-- A registration message with the status 0x9000 is decoded into its fields, whatever the lengths of
-- its key handle, certificate and signature.
pub decode-message :
    (reader : CertificateReader) (r target : RegisterResponse)
    → IsRegistration reader r
    → decode reader (message r ++ (0x90 ∷ 0 ∷ [])) target ≡ (r, ok tt)
unfolding decode
decode-message reader r target v = rw (
  decode_response-status (message r) 0x90 0,
  decode,
  decode_payload-message reader r (message r) v refl,
)

decode_certificate-eq-ok :
    (reader : CertificateReader) (payload : Bytes) (n : ℕ) (remaining : Bytes)
    {r : RegisterResponse}
    → decode_certificate reader payload n remaining ≡ ok r
    → (reader.unmarshal remaining ≡ some r.signature)
      × (r.attestation_certificate ≡ take (length remaining - length r.signature) remaining)
      × (0 < length remaining - length r.signature)
      × (reader.parse_certificate r.attestation_certificate ≡ true)
      × (0 < length r.signature)
      × (r.reserved ≡ byte_at payload 0)
      × (r.public_key ≡ slice payload 1 66)
      × (r.key_handle ≡ slice payload 67 (67 + n))
unfolding decode_certificate
decode_certificate-eq-ok reader payload n remaining h = ground arith

decode_payload-eq-ok :
    (reader : CertificateReader) (payload : Bytes) {r : RegisterResponse}
    → decode_payload reader payload ≡ ok r
    → (67 + byte_at payload 66 ≤ length payload)
      × (byte_at payload 0 ≡ 0x05)
      × (decode_certificate reader payload
            (byte_at payload 66)
            (drop (67 + byte_at payload 66) payload)
          ≡ ok r)
unfolding decode_payload
decode_payload-eq-ok reader payload h = ground arith

-- A payload cut at the fields of the message.
payload_cuts :
    (payload : Bytes) (n : ℕ)
    → 67 + n ≤ length payload
    → payload
      ≡ byte_at payload 0
        ∷ (slice payload 1 66
            ++ (byte_at payload 66 ∷ (slice payload 67 (67 + n) ++ drop (67 + n) payload)))
payload_cuts payload n fits =
    drop-eq-cons 0 payload (omega arith)
    ∙ ap (λ t. byte_at payload 0 ∷ t)
        (sym (slice-append-drop 1 66 payload (omega arith))
          ∙ ap (λ t. slice payload 1 66 ++ t)
              (drop-eq-cons 66 payload (omega arith)
                ∙ ap (λ t. byte_at payload 66 ∷ t)
                    (sym (slice-append-drop 67 (67 + n) payload (omega arith)))))

-- The certificate is what stands before the rest that `asn1.Unmarshal` returns.
take-unmarshal :
    (reader : CertificateReader) (remaining rest : Bytes)
    → reader.unmarshal remaining ≡ some rest
    → take (length remaining - length rest) remaining ++ rest ≡ remaining
take-unmarshal reader remaining rest h =
    let (element, e) = reader.unmarshal_rest remaining rest h in
    let size : length remaining - length rest ≡ length element =
      omega (arith, ap length e, length-append element rest) in
    rw (size, e) (rw (take-append (length element) element rest refl))

-- Whatever payload is decoded is the message of the registration that is returned.
pub decode_payload-IsRegistration :
    (reader : CertificateReader) (payload : Bytes) (r : RegisterResponse)
    → decode_payload reader payload ≡ ok r
    → (payload ≡ message r) × IsRegistration reader r
decode_payload-IsRegistration reader payload r h =
    let (fits, five, cert) = decode_payload-eq-ok reader payload h in
    let n = byte_at payload 66 in
    let remaining = drop (67 + n) payload in
    let (read, certificate, pos, parses, signed, reserved, point, key) =
      decode_certificate-eq-ok reader payload n remaining cert in
    let whole : r.attestation_certificate ++ r.signature ≡ remaining =
      rw certificate (take-unmarshal reader remaining r.signature read) in
    let size : length r.key_handle ≡ n =
      omega (arith, ap length key, length-slice 67 (67 + n) payload (omega arith) fits) in
    let cuts = payload_cuts payload n fits in
    let regroup =
      append_assoc r.public_key (length r.key_handle ∷ [])
        (r.key_handle ++ (r.attestation_certificate ++ r.signature)) in
    (
      cc (cuts, reserved, point, key, whole, size, regroup),
      record {
        reserved_is = omega (arith, reserved, five);
        public_key_size =
            omega (
              arith,
              ap length point,
              length-slice 1 66 payload (omega arith) (omega (arith, fits)),
            );
        certificate_pos = omega (
          arith,
          ap length certificate,
          length-take (length remaining - length r.signature) remaining,
        );
        certificate_read = rw whole read;
        certificate_parses = parses;
        signature_pos = signed;
      },
    )
