-- ===== src/ClientCtap2/Authenticator/NewPin.antt =====
-- The PIN that the client sets is the PIN that the authenticator takes.
use fido_go.Base.{
  ℕ, zero, suc, ◌-◌, ◌%◌, ◌≤◌, ◌<◌, ◌≡◌, refl, some, [], ◌∷◌, ◌++◌, arith, length, length-append,
  length-replicate, Bytes, zeros, equal_bytes_refl, ok,
}
use fido_go.Ctap2.ClientPin.{
  ClientPinCommand, ClientPinResponse, new_client_pin_command, client_pin_set_pin,
}
use fido_go.ClientCtap2.Platform.{Platform}
use fido_go.ClientCtap2.Protocol.{select_pin_uv_auth_protocol}
use fido_go.ClientCtap2.Protocol.Laws.{CipherLaws}
use fido_go.ClientCtap2.Session.{exchange_client_pin}
use fido_go.ClientCtap2.Pins.{Info, set_pin, pad_client_pin}
use fido_go.ClientCtap2.Authenticator.{cose_of, unpad, code_points, seal, mac, new_pin_of}
use fido_go.ClientCtap2.Authenticator.Ciphers.{unseal-seal, authenticate-mac}
use fido_go.ClientCtap2.Authenticator.Agreement.{
  ExchangeLaws, Opening, get_session-Opening, secret_of-Opening, IsKey-Opening, encrypt-seal,
  after_encrypt,
}

-- The PIN with its trailing zeros.
abbrev pub padded : Bytes → Bytes
padded pin = pin ++ zeros (64 - length pin)

pad_client_pin-padded :
    {X : Type 0} (pin : Bytes)
    → 0 < length pin
    → length pin < 64
    → pad_client_pin {X = X} pin ≡ ok (padded pin)
unfolding pad_client_pin
pad_client_pin-padded pin some_pin short = ground (arith, some_pin, short)

length-padded : (pin : Bytes) → length pin < 64 → length (padded pin) ≡ 64
length-padded pin short = omega (
  arith,
  length-append pin (zeros (64 - length pin)),
  length-replicate {A = ℕ} (64 - length pin) 0,
)

unpad-zeros : (n : ℕ) → unpad (zeros n) ≡ []
unfolding unpad
unpad-zeros zero = refl
unpad-zeros (suc n) = rw (unpad-zeros n) refl

unpad-append : (pin : Bytes) (n : ℕ) → unpad (pin ++ zeros n) ≡ unpad pin
unfolding unpad
unpad-append [] n = unpad-zeros n
unpad-append (b ∷ bs) n = rw (unpad-append bs n) refl

code_points-length : (pin : Bytes) → code_points pin ≤ length pin
unfolding code_points
code_points-length [] = omega arith
code_points-length (b ∷ bs) = ground (arith, code_points-length bs)

-- The command of setPIN.
abbrev pub pin_command :
    {World X Priv Pub : Type 0}
    → Platform World X Priv Pub
    → ℕ
    → Priv
    → Bytes
    → Bytes
    → Bytes
    → ClientPinCommand
pin_command p version a secret iv pin =
    let sealed = seal p.crypto version secret iv (padded pin) in
    record (new_client_pin_command version client_pin_set_pin) {
      key_agreement = some (cose_of (p.crypto.public_bytes a));
      new_pin_enc = sealed;
      pin_uv_auth_param = mac p.crypto version secret sealed;
    }

module _ {World X Priv Pub : Type 0} (p : Platform World X Priv Pub) (laws : CipherLaws p.crypto)
    (ex : ExchangeLaws p.crypto) (version : ℕ) (a b : Priv) (secret : Bytes)
    (w opened drawn : World) (o : Opening p ex version a b secret w opened) (iv : Bytes) where
  -- The authenticator takes the PIN of the command.
  new_pin_of-command :
      (pin : Bytes)
      → 4 ≤ code_points pin
      → length pin < 64
      → unpad pin ≡ pin
      → length iv ≡ 16
      → new_pin_of p.crypto b (pin_command p version a secret iv pin) ≡ ok pin
  unfolding new_pin_of
  new_pin_of-command pin long short ends v =
      let key = IsKey-Opening p ex version a b secret w opened o laws in
      let size = length-padded pin short in
      let opens =
        unseal-seal p.crypto laws version secret iv (padded pin) key v (omega (arith, size)) in
      let same : unpad (padded pin) ≡ pin =
        ground (arith, unpad-append pin (64 - length pin), ends) in
      ground (
        arith,
        o.known,
        secret_of-Opening p ex version a b secret w opened o,
        opens,
        size,
        same,
        equal_bytes_refl
            (mac p.crypto version secret (seal p.crypto version secret iv (padded pin))),
      )

  -- For a PIN of at most 63 bytes with at least 4 code points that does not end in a zero byte, the
  -- command that the client sends makes an authenticator that follows the specification and has no PIN
  -- take exactly that PIN; the client succeeds when the command does.
  pub set_pin-agrees :
      (info : Info) (pin : Bytes) (response : ClientPinResponse) (last : World)
      → select_pin_uv_auth_protocol {X = X} info.pin_uv_auth_protocols ≡ ok version
      → 4 ≤ code_points pin
      → length pin < 64
      → unpad pin ≡ pin
      → length iv ≡ 16
      → p.random 16 opened ≡ (ok iv, drawn)
      → exchange_client_pin p
          (pin_command p version a secret iv pin)
          (after_encrypt version opened drawn)
        ≡ (ok response, last)
      → (set_pin p info pin w ≡ (ok tt, last))
        × (new_pin_of p.crypto b (pin_command p version a secret iv pin) ≡ ok pin)
  unfolding set_pin
  set_pin-agrees info pin response last s long short ends v r e =
      let key = IsKey-Opening p ex version a b secret w opened o laws in
      let blocks : length (padded pin) % 16 ≡ 0 = omega (arith, length-padded pin short) in
      let sealed = encrypt-seal p laws version secret iv (padded pin) opened drawn key v blocks r in
      let session = get_session-Opening p ex version a b secret w opened o in
      let some_pin : 0 < length pin = omega (arith, code_points-length pin) in
      let pad = pad_client_pin-padded {X = X} pin some_pin short in
      let text = seal p.crypto version secret iv (padded pin) in
      let signed = authenticate-mac p.crypto version secret text key in
      (ground (arith, s, session, pad, sealed, signed, e), new_pin_of-command pin long short ends v)
