-- ===== src/ClientCtap2/Tests.antt =====
-- Runs of internal/client/ctap2 against a toy authenticator: its answers are a list, AES-CBC leaves the
-- text as it is, and the secret is made from the sum of the private keys.
use fido_go.Base.{
  ℕ, suc, ◌+◌, ◌-◌, ◌<◌, ◌≡◌, refl, ap, ◌⊎◌, inr, true, some, List, [], ◌∷◌, ◌++◌, arith, ◌==◌,
  if◌then◌else◌, length, replicate, length-replicate, All, Bytes, byte_at, equal_bytes, Result, err,
  ok, equal_int,
}
use fido_go.Ctap2.Types.{RelyingPartyEntity, UserEntity}
use fido_go.Ctap2.Cose.{validate_ec2}
use fido_go.Ctap2.Cbor.{encode_command, decode_command_response}
use fido_go.Ctap2.ClientPin.{ClientPinCommand, ClientPinResponse, zero_response}
use fido_go.Ctap2.ClientPin
use fido_go.Ctap2.CredentialManagement.{Params, Request, Response}
use fido_go.Ctap2.CredentialManagement
use fido_go.ClientCtap2.Platform.{Crypto, CborCodec, Platform, Action}
use fido_go.ClientCtap2.Protocol.{cose_of_public_bytes, select_pin_uv_auth_protocol, contains}
use fido_go.ClientCtap2.Pins.Attempts.{Refused, IsFinal, change_pin-Refused}
use fido_go.ClientCtap2.Credentials.{
  RelyingPartySet, DiscoverableCredential, CredentialListResult, discoverable_credential,
  credential_of, invoke_credential_management, authorized, invoke_authorized, next_credentials,
  enumerate_credentials, get_credential_metadata,
}
use fido_go.ClientCtap2.Credentials.Counts.{IsOf, begin_command, enumerate_credentials-IsOf}
use fido_go.ClientCtap2.Management.{option_cred_mgmt, option_credential_mgmt_preview, with_retries}
use fido_go.ClientCtap2.Management.Retries.{Ends, with_retries-Ends}
use fido_go.ClientCtap2.Protocol.Laws.{CipherLaws, uncompressed}
use fido_go.ClientCtap2.Session.{get_pin_token, exchange_client_pin}
use fido_go.ClientCtap2.Pins.{Info, option_client_pin, set_pin, change_pin, change_pin_once}
use fido_go.ClientCtap2.Authenticator.{
  Authenticator, is_agreement_key, unpad, code_points, derive, seal, unseal, secret_of,
  token_answer, new_pin_of,
}
use fido_go.ClientCtap2.Authenticator.Agreement.{ExchangeLaws, Opening}
use fido_go.ClientCtap2.Authenticator.Tokens.{get_pin_token-agrees}
use fido_go.ClientCtap2.Authenticator.NewPin.{pin_command, set_pin-agrees}

abbrev toy_point : ℕ → Bytes
toy_point a = 4 ∷ (replicate 32 a ++ replicate 32 0)

abbrev toy_crypto : Crypto ℕ ℕ Bytes
toy_crypto = record {
  sha256 = λ message. replicate 32 (length message);
  hmac_sha256 = λ key message. replicate 32 (length message);
  hkdf_sha256 = λ secret salt info n. ok (replicate n (byte_at info 8));
  aes_key = λ key. ok tt;
  cbc_encrypt = λ key iv text. text;
  cbc_decrypt = λ key iv text. text;
  new_public_key = λ content. ok content;
  ecdh = λ a content. ok (replicate 32 (a + byte_at content 1));
  public_bytes = toy_point;
}

toy_crypto-laws : CipherLaws toy_crypto
toy_crypto-laws = record {
  length-sha256 = λ message. length-replicate {A = ℕ} 32 (length message);
  length-hkdf_sha256 =
      λ secret salt info key n h. ground (arith, h, length-replicate {A = ℕ} n (byte_at info 8));
  aes_key_accepts = λ key h. refl;
  length-cbc_encrypt = λ key iv text h v t. refl;
  cbc_decrypt-cbc_encrypt = λ key iv text h v t. refl;
}

abbrev toy_exchange : ExchangeLaws toy_crypto
toy_exchange = record {
  public = toy_point;
  public_bytes-IsPoint = λ a. uncompressed (replicate 32 a) (replicate 32 0) refl refl;
  new_public_key-public_bytes = λ a. refl;
  ecdh_comm = λ a b. ap (λ n. ok (replicate 32 n)) (omega arith);
}

-- 1: the key agreement key 3; any other number: the token that follows.
abbrev toy_unmarshal_client_pin : Bytes → Result ℕ ClientPinResponse
toy_unmarshal_client_pin [] = err 9
toy_unmarshal_client_pin (n ∷ rest) =
    if n == 1
    then ok (record zero_response { key_agreement = some (cose_of_public_bytes (toy_point 3)) })
    else ok (record zero_response { pin_uv_auth_token = rest })

abbrev toy_party : ℕ → RelyingPartyEntity
toy_party n = record { id = n ∷ []; name = [] }

abbrev toy_user : UserEntity
toy_user = record { id = 1 ∷ []; name = []; display_name = [] }

-- The number of relying parties and credentials that are counted, and the name of the relying party.
abbrev toy_unmarshal_response : Bytes → Result ℕ Response
toy_unmarshal_response (count ∷ name ∷ []) = ok (record CredentialManagement.zero_response {
  rp = some (toy_party name);
  total_rps = count;
  user = some toy_user;
  credential_id = some (record { type = []; id = name ∷ []; transports = [] });
  total_credentials = count;
})
toy_unmarshal_response other = err 9

abbrev toy_cbor : CborCodec ℕ
toy_cbor = record {
  marshal_client_pin = λ command. ok (command.subcommand ∷ []);
  unmarshal_client_pin = toy_unmarshal_client_pin;
  marshal_params = λ params. ok params.rp_id_hash;
  marshal_request = λ request. ok (request.subcommand ∷ []);
  unmarshal_response = toy_unmarshal_response;
}

abbrev next_answer : List Bytes → Result ℕ Bytes × List Bytes
next_answer [] = (err 9, [])
next_answer (answer ∷ answers) = (ok answer, answers)

abbrev toy : Platform (List Bytes) ℕ ℕ Bytes
toy = record {
  crypto = toy_crypto;
  cbor = toy_cbor;
  random = λ n w. (ok (replicate n 7), w);
  generate_key = λ w. (ok 5, w);
  invoke = λ command payload w. next_answer w;
  status_code = λ code. some code;
}

abbrev toy_token : Bytes
toy_token = replicate 16 42

abbrev toy_pin : Bytes
toy_pin = 49 ∷ 50 ∷ 51 ∷ 52 ∷ []

abbrev toy_authenticator : Authenticator ℕ
toy_authenticator = record { private_key = 3; pin_hash = replicate 16 4; token = toy_token }

abbrev toy_iv : Bytes
toy_iv = replicate 16 7

abbrev toy_secret : Bytes
toy_secret = replicate 32 65 ++ replicate 32 83

toy-Opening :
    (answers : List Bytes)
    → Opening toy toy_exchange 2 5 3 toy_secret ((0 ∷ 1 ∷ []) ∷ answers) answers
unfolding exchange_client_pin ClientPin.encode ClientPin.decode ClientPin.validate_key
    encode_command decode_command_response validate_ec2 derive equal_int cose_of_public_bytes
toy-Opening answers = record {
  known = inr refl;
  response = record zero_response { key_agreement = some (cose_of_public_bytes (toy_point 3)) };
  asked = answers;
  exchanged = refl;
  offered = refl;
  generated = refl;
  point = replicate 32 8;
  derived = refl;
  secret_is = refl;
}

-- What the authenticator answers with its token, sealed.
abbrev token_answers : List Bytes
token_answers = (0 ∷ 1 ∷ []) ∷ (0 ∷ 2 ∷ (toy_iv ++ toy_token)) ∷ []

get_pin_token-agrees_example : get_pin_token toy 2 toy_pin token_answers ≡ (ok toy_token, [])
unfolding exchange_client_pin ClientPin.encode ClientPin.decode ClientPin.validate_key
    encode_command decode_command_response validate_ec2 equal_int cose_of_public_bytes token_answer
    secret_of is_agreement_key derive unseal seal equal_bytes
get_pin_token-agrees_example =
    get_pin_token-agrees toy toy_crypto-laws toy_exchange 2 toy_authenticator 5 toy_secret
      token_answers ((0 ∷ 2 ∷ (toy_iv ++ toy_token)) ∷ []) ((0 ∷ 2 ∷ (toy_iv ++ toy_token)) ∷ [])
      (toy-Opening ((0 ∷ 2 ∷ (toy_iv ++ toy_token)) ∷ [])) toy_iv toy_pin toy_iv [] refl refl refl
      refl (omega arith) refl refl

abbrev pin_answers : List Bytes
pin_answers = (0 ∷ []) ∷ []

abbrev toy_info : Info
toy_info = record {
  options =
      (option_client_pin, true)
      ∷ (option_cred_mgmt, true)
      ∷ (option_credential_mgmt_preview, true)
      ∷ [];
  pin_uv_auth_protocols = 2 ∷ 1 ∷ [];
}

set_pin-agrees_example :
    (set_pin toy toy_info toy_pin ((0 ∷ 1 ∷ []) ∷ pin_answers) ≡ (ok tt, []))
    × (new_pin_of toy_crypto 3 (pin_command toy 2 5 toy_secret toy_iv toy_pin) ≡ ok toy_pin)
unfolding exchange_client_pin ClientPin.encode ClientPin.decode ClientPin.validate_key
    encode_command decode_command_response validate_ec2 equal_int cose_of_public_bytes
    select_pin_uv_auth_protocol contains unpad code_points
set_pin-agrees_example =
    set_pin-agrees toy toy_crypto-laws toy_exchange 2 5 3 toy_secret ((0 ∷ 1 ∷ []) ∷ pin_answers)
      pin_answers pin_answers (toy-Opening pin_answers) toy_iv toy_info toy_pin zero_response []
      refl (omega arith) (omega arith) refl refl refl refl

abbrev other_pin : Bytes
other_pin = 53 ∷ 54 ∷ 55 ∷ 56 ∷ []

-- The first change is refused with the status 0x12, and the second with another.
abbrev change_answers : List Bytes
change_answers = (0 ∷ 1 ∷ []) ∷ (0x12 ∷ []) ∷ (0 ∷ 1 ∷ []) ∷ (0x31 ∷ []) ∷ (0 ∷ []) ∷ []

change_pin-Refused_example :
    (k : ℕ) × (w' : List Bytes) × ((k < 3)
      × (Refused toy (some toy_info) toy_pin other_pin k change_answers w'
          × ((change_pin toy (some toy_info) toy_pin other_pin change_answers
                ≡ change_pin_once toy (some toy_info) toy_pin other_pin w')
              × ((k ≡ 2)
                  ⊎ IsFinal toy
                      (some toy_info)
                      toy_pin
                      other_pin
                      (change_pin_once toy (some toy_info) toy_pin other_pin w')))))
change_pin-Refused_example = change_pin-Refused toy (some toy_info) toy_pin other_pin change_answers

-- Three relying parties.
abbrev party_answers : List Bytes
party_answers = (0 ∷ 3 ∷ 7 ∷ []) ∷ (0 ∷ 0 ∷ 8 ∷ []) ∷ (0 ∷ 0 ∷ 9 ∷ []) ∷ []

abbrev toy_set : ℕ → RelyingPartySet
toy_set n = record { rp = toy_party n; rp_id_hash = [] }

abbrev toy_credential : ℕ → DiscoverableCredential
toy_credential n = record {
  rp = toy_party 7;
  rp_id_hash = [];
  user = toy_user;
  credential = record { type = []; id = n ∷ []; transports = [] };
  cred_protect = 0;
  large_blob_key = [];
}

enumerate_credentials-IsOf_example :
    (response : Response) × (((invoke_authorized toy 2 toy_token
          (begin_command 0x0a (toy_set 7))
          party_answers).0
        ≡ ok response)
      × ((3 ≡ suc (response.total_credentials - 1))
          × All (IsOf (toy_set 7)) (toy_credential 7 ∷ toy_credential 8 ∷ toy_credential 9 ∷ [])))
unfolding enumerate_credentials next_credentials credential_of discoverable_credential
    invoke_authorized authorized invoke_credential_management
    CredentialManagement.authentication_message CredentialManagement.encoded_subcommand_params
    CredentialManagement.encode CredentialManagement.decode encode_command decode_command_response
enumerate_credentials-IsOf_example =
    enumerate_credentials-IsOf toy 0x0a 2 toy_token (toy_set 7) party_answers
      (toy_credential 7 ∷ toy_credential 8 ∷ toy_credential 9 ∷ []) refl

-- The standard command is refused twice, and the preview command is answered.
abbrev metadata_answers : List Bytes
metadata_answers = (0x12 ∷ []) ∷ (0x01 ∷ []) ∷ (0 ∷ 0 ∷ 7 ∷ []) ∷ []

abbrev metadata : ℕ → Action (List Bytes) ℕ CredentialListResult
metadata code = get_credential_metadata toy code 2 toy_token

with_retries-Ends_example :
    Ends toy
      (some toy_info)
      true
      0x0a
      metadata
      metadata_answers
      (with_retries toy (some toy_info) true 0x0a metadata metadata_answers)
with_retries-Ends_example =
    with_retries-Ends toy (some toy_info) true 0x0a metadata metadata_answers
