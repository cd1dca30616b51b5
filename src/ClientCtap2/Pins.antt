-- ===== src/ClientCtap2/Pins.antt =====
-- internal/client/ctap2/manager.go: the PIN operations.
pub mod Attempts
use fido_go.Base.{
  ℕ, zero, suc, ◌-◌, Bool, false, not, Option, none, some, List, [], ◌∷◌, ◌++◌, ltb, ◌==◌,
  if◌then◌else◌, length, Bytes, zeros, equal_bytes, Result, reject_if, err, ok,
}
use fido_go.Ctap2.ClientPin.{
  new_client_pin_command, client_pin_get_retries, client_pin_set_pin, client_pin_change_pin,
}
use fido_go.ClientCtap2.Platform.{
  ◌>>=◌, ◌>>◌, Platform, Error, pin_required, pin_too_long, pin_not_configured, Action, lift,
  status_of,
}
use fido_go.ClientCtap2.Protocol.{select_pin_uv_auth_protocol, authenticate}
use fido_go.ClientCtap2.Session.{
  encrypt, get_session, encrypt_pin_hash, exchange_client_pin, get_pin_token,
  get_pin_token_with_permissions,
}

abbrev pub client_pin_padded_length : ℕ
client_pin_padded_length = 64

abbrev pub client_pin_change_attempts : ℕ
client_pin_change_attempts = 3

-- "clientPin"
abbrev pub option_client_pin : Bytes
option_client_pin = 99 ∷ 108 ∷ 105 ∷ 101 ∷ 110 ∷ 116 ∷ 80 ∷ 105 ∷ 110 ∷ []

-- "pinUvAuthToken"
abbrev pub option_pin_uv_auth_token : Bytes
option_pin_uv_auth_token =
    112 ∷ 105 ∷ 110 ∷ 85 ∷ 118 ∷ 65 ∷ 117 ∷ 116 ∷ 104 ∷ 84 ∷ 111 ∷ 107 ∷ 101 ∷ 110 ∷ []

-- What the manager reads of ctap2.GetInfoResponse.
pub record Info : Type 0 where
  pub options : List (Bytes × Bool)
  pub pin_uv_auth_protocols : List ℕ

-- `info.Options[key]`
unfoldable pub lookup_option : Bytes → List (Bytes × Bool) → Bool
lookup_option key [] = false
lookup_option key ((k, value) ∷ entries) =
    if equal_bytes k key then value else lookup_option key entries

-- `none` is a nil info.
unfoldable pub option_enabled : Option Info → Bytes → Bool
option_enabled none key = false
option_enabled (some info) key = lookup_option key info.options

pub record PinRetries : Type 0 where
  pub pin_retries : ℕ
  pub uv_retries : ℕ
  pub power_cycle_state : Bool

unfoldable pub pad_client_pin : {X : Type 0} → Bytes → Result (Error X) Bytes
pad_client_pin pin =
    if length pin == 0
    then err pin_required
    else if ltb (client_pin_padded_length - 1) (length pin)
    then err (pin_too_long (length pin))
    else ok (pin ++ zeros (client_pin_padded_length - length pin))

module _ {World X Priv Pub : Type 0} (p : Platform World X Priv Pub) where
  -- The token with the protocol's version.
  pub pin_token_for_permission : Info → Bytes → ℕ → Bytes → Action World X (Bytes × ℕ)
  pin_token_for_permission info pin permission permissions_rp_id = do
    version ← lift (select_pin_uv_auth_protocol info.pin_uv_auth_protocols)
    token ←
        (if option_enabled (some info) option_pin_uv_auth_token
          then get_pin_token_with_permissions p version pin permission permissions_rp_id
          else get_pin_token p version pin)
    lift (ok (token, version))

  unfoldable pub set_pin : Info → Bytes → Action World X (Unit {0})
  set_pin info new_pin = do
    version ← lift (select_pin_uv_auth_protocol info.pin_uv_auth_protocols)
    session ← get_session p version
    padded ← lift (pad_client_pin new_pin)
    new_pin_enc ← encrypt p session.version session.shared_secret padded
    response ← exchange_client_pin p (record (new_client_pin_command version client_pin_set_pin) {
      key_agreement = some session.key_agreement;
      new_pin_enc = new_pin_enc;
      pin_uv_auth_param = authenticate p.crypto session.version session.shared_secret new_pin_enc;
    })
    lift (ok tt)

  pub get_pin_retries : Option Info → Action World X PinRetries
  get_pin_retries none = lift (err pin_not_configured)
  get_pin_retries (some info) = do
    lift (reject_if (not (option_enabled (some info) option_client_pin)) pin_not_configured)
    version ← lift (select_pin_uv_auth_protocol info.pin_uv_auth_protocols)
    response ← exchange_client_pin p (new_client_pin_command version client_pin_get_retries)
    lift (
        ok (record {
          pin_retries = response.pin_retries;
          uv_retries = response.uv_retries;
          power_cycle_state = response.power_cycle_state;
        }))

  unfoldable pub change_pin_once : Option Info → Bytes → Bytes → Action World X (Unit {0})
  change_pin_once none current_pin new_pin = lift (err pin_not_configured)
  change_pin_once (some info) current_pin new_pin = do
    lift (reject_if (not (option_enabled (some info) option_client_pin)) pin_not_configured)
    version ← lift (select_pin_uv_auth_protocol info.pin_uv_auth_protocols)
    session ← get_session p version
    pin_hash_enc ← encrypt_pin_hash p session current_pin
    padded ← lift (pad_client_pin new_pin)
    new_pin_enc ← encrypt p session.version session.shared_secret padded
    response ←
        exchange_client_pin p (record (new_client_pin_command version client_pin_change_pin) {
          key_agreement = some session.key_agreement;
          pin_hash_enc = pin_hash_enc;
          new_pin_enc = new_pin_enc;
          pin_uv_auth_param =
              authenticate p.crypto session.version session.shared_secret
                (new_pin_enc ++ pin_hash_enc);
        })
    lift (ok tt)

  -- `shouldRetryClientPINChange` and `shouldRetryCredentialManagement`: the status 0x12.
  unfoldable pub should_retry : Error X → Bool
  should_retry e = elim (status_of p e) [ none ↦ false | some code ↦ code == 0x12 ]

  -- The loop of `ChangePIN` with the number of attempts that are left after this one.
  unfoldable pub change_pin_attempts : ℕ → Option Info → Bytes → Bytes → Action World X (Unit {0})
  change_pin_attempts zero info current_pin new_pin w = change_pin_once info current_pin new_pin w
  change_pin_attempts (suc n) info current_pin new_pin w =
      let (result, w') = change_pin_once info current_pin new_pin w in
      let again = change_pin_attempts n info current_pin new_pin w' in
      elim result [ ok _ ↦ (ok tt, w') | err e ↦ if should_retry e then again else (err e, w') ]

  pub change_pin : Option Info → Bytes → Bytes → Action World X (Unit {0})
  change_pin = change_pin_attempts (client_pin_change_attempts - 1)
