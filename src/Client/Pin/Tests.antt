-- ===== src/Client/Pin/Tests.antt =====
-- A selection that requires user verification, with an authenticator that has its own.
use fido_go.Base.{ℕ, ◌≡◌, refl, ◌⊎◌, true, false, none, [], ◌∷◌, zeros, equal_bytes, err, ok}
use fido_go.Ctap2.GetInfo.{GetInfoResponse}
use fido_go.Ctap2.ClientPin.{zero_response}
use fido_go.Ctap2.CredentialManagement
use fido_go.ClientCtap2.Pins.{lookup_option}
use fido_go.Client.Types.{
  session, required, preferred, AuthenticatorSelection, normalized_user_verification,
  authenticating, Client,
}
use fido_go.Client.Capabilities.{Codec, option_enabled, option_uv}
use fido_go.Client.Pin.{no_verification, UserVerification, resolve_user_verification}
use fido_go.Client.Pin.Required.{IsByPin, resolve_user_verification-required}

-- A session that only fails.
abbrev silent : Client ℕ ℕ ℕ ℕ
silent = record {
  exchange = λ request w. (err 0, w);
  ctap1_invoker = none;
  ctap2_invoker = none;
  is_nfc = false;
  interaction = none;
  crypto = record {
    sha256 = λ message. message;
    hmac_sha256 = λ key message. message;
    hkdf_sha256 = λ secret salt info n. ok secret;
    aes_key = λ key. ok tt;
    cbc_encrypt = λ key iv text. text;
    cbc_decrypt = λ key iv text. text;
    new_public_key = λ content. ok 0;
    ecdh = λ private_key public_key. ok [];
    public_bytes = λ private_key. [];
  };
  cbor = record {
    marshal_client_pin = λ command. ok [];
    unmarshal_client_pin = λ content. ok zero_response;
    marshal_params = λ params. ok [];
    marshal_request = λ request. ok [];
    unmarshal_response = λ content. ok CredentialManagement.zero_response;
  };
  random = λ n w. (ok (zeros n), w);
  generate_key = λ w. (ok 0, w);
  status_code = λ e. none;
}

abbrev info_with_uv : GetInfoResponse (Unit {0})
info_with_uv = record {
  versions = [];
  aaguid = zeros 16;
  options = (option_uv, true) ∷ [];
  pin_uv_auth_protocols = 2 ∷ [];
  transports = [];
  algorithms = [];
  wire = tt;
  raw = [];
}

abbrev silent_codec : Codec (Unit {0}) (Unit {0}) ℕ
silent_codec = record {
  fresh_info = info_with_uv;
  unmarshal_get_info = λ content. ok info_with_uv;
  marshal_get_assertion = λ command. ok [];
  unmarshal_get_assertion = λ content. err (session 0);
  marshal_make_credential = λ command. ok [];
  unmarshal_make_credential = λ content. err (session 0);
}

abbrev strict : AuthenticatorSelection
strict = record { user_presence = preferred; user_verification = required }

abbrev verified : UserVerification
verified = record no_verification { use_built_in_uv = true }

resolve_user_verification-required_example :
    ((option_enabled info_with_uv option_uv ≡ true) × (verified.use_built_in_uv ≡ true))
    ⊎ IsByPin silent silent_codec info_with_uv authenticating (zeros 32) 2 [] 0 0 verified
unfolding resolve_user_verification normalized_user_verification lookup_option equal_bytes
resolve_user_verification-required_example =
    resolve_user_verification-required silent silent_codec info_with_uv authenticating (zeros 32) 2
      [] 0 0 verified strict refl refl
