-- ===== src/Client/Types.antt =====
-- pkg/client: the client with its session, invokers and interaction handler (client.go, interaction.go,
-- default_invokers.go, operations.go), and pkg/protocol/family.go.
use fido_go.Base.{
  ℕ, Bool, true, false, not, Option, none, some, ◌∷◌, if◌then◌else◌, Bytes, Result, err, ok,
}
use fido_go.Ctap1.Apdu.{encode_raw}
use fido_go.Ctap1.Errors
use fido_go.Ctap2.Cbor
use fido_go.ClientCtap2.Platform.{Crypto, CborCodec, Platform}
use fido_go.ClientCtap2.Platform

-- A family is a Go string; `other` is an unknown one.
pub data Family : Type 0 where
  family_ctap1 family_ctap2 : Family
  other : Bytes → Family

unfoldable pub is_known : Family → Bool
is_known family_ctap1 = true
is_known family_ctap2 = true
is_known (other name) = false

-- The errors of a raw command; X is the type of the errors of the session.
pub data RawError (X : Type 0) : Type 0 where
  unknown_family unsupported_protocol : Family → RawError X
  encoding : Errors.Error → RawError X
  session : X → RawError X

pub data Error (X : Type 0) : Type 0 where
  raw : RawError X → Error X
  ctap1_error : Errors.Error → Error X
  ctap2_error : Cbor.Error (RawError X) → Error X
  manager : Platform.Error (RawError X) → Error X
  prompt : X → Error X
  no_capable_protocol pin_required new_pin_required ctap1_only : Error X
  ctap1_options_required challenge_hash_size app_id_hash_size key_handle_empty : Error X
  user_verification_unsupported ctap2_unavailable client_pin_unsupported : Error X
  unsupported_method method_unavailable credential_management_unsupported : Error X
  bio_unsupported bio_not_implemented : Error X
  auth_data_too_short attested_data_missing credential_id_too_long missing_credential_id : Error X

pub data Requirement : Type 0 where
  discouraged preferred required unset : Requirement

-- `== RequirementRequired`
abbrev pub is_required : Requirement → Bool
is_required required = true
is_required preferred = false
is_required discouraged = false
is_required unset = false

-- `unset` is any other string. UserVerificationPolicy has the same values.
pub record AuthenticatorSelection : Type 0 where
  pub user_presence : Requirement
  pub user_verification : Requirement

unfoldable pub normalized_user_presence : AuthenticatorSelection → Requirement
normalized_user_presence selection = elim selection.user_presence [
  | discouraged ↦ discouraged
  | required ↦ required
  | preferred ↦ preferred
  | unset ↦ preferred
]

unfoldable pub normalized_user_verification : AuthenticatorSelection → Requirement
normalized_user_verification selection = elim selection.user_verification [
  | preferred ↦ preferred
  | required ↦ required
  | discouraged ↦ discouraged
  | unset ↦ discouraged
]

-- Kind, operation and family of an event; its texts are left out.
pub data InteractionKind : Type 0 where
  awaiting_user_presence awaiting_pin : InteractionKind

pub data Operation : Type 0 where
  registering authenticating resetting managing : Operation

pub record Event : Type 0 where
  pub kind : InteractionKind
  pub operation : Operation
  pub family : Family

-- InteractionHandler; its error may be ErrPINRequired or its own, `prompt`.
pub record InteractionHandler (World X : Type 0) : Type 0 where
  pub on_interaction : Event → World → World
  pub request_pin : Operation → World → Result (Error X) Bytes × World

abbrev pub Exchange : Type 0 → Type 0 → Type 0
Exchange World X = Bytes → World → Result X Bytes × World

-- RawInvoker's InvokeRaw
abbrev pub RawInvoker : Type 0 → Type 0 → Type 0
RawInvoker World X = Exchange World X → ℕ → Bytes → World → Result (RawError X) Bytes × World

-- `client` without its cache: the exchange of the session behind its middlewares, the invokers, and
-- what internal/client/ctap2 uses of other code.
pub record Client (World X Priv Pub : Type 0) : Type 0 where
  pub exchange : Exchange World X
  pub ctap1_invoker : Option (RawInvoker World X)
  pub ctap2_invoker : Option (RawInvoker World X)
  pub is_nfc : Bool
  pub interaction : Option (InteractionHandler World X)
  pub crypto : Crypto (RawError X) Priv Pub
  pub cbor : CborCodec (RawError X)
  pub random : ℕ → World → Result (RawError X) Bytes × World
  pub generate_key : World → Result (RawError X) Priv × World
  pub status_code : RawError X → Option ℕ

abbrev pub Action : Type 0 → Type 0 → Type 0 → Type 0
Action World X A = World → Result (Error X) A × World

infixl 5 ◌>>=◌ ◌>>◌
abbrev pub ◌>>=◌ :
    {World X A B : Type 0} → Action World X A → (A → Action World X B) → Action World X B
(first >>= after) w = elim (first w).0 [ err e ↦ (err e, (first w).1) | ok a ↦ after a (first w).1 ]

abbrev pub ◌>>◌ :
    {World X B : Type 0} → Action World X (Unit {0}) → Action World X B → Action World X B
first >> after = first >>= (λ _. after)

abbrev pub lift : {World X A : Type 0} → Result (Error X) A → Action World X A
lift result w = (result, w)

abbrev pub with_error : {E X A : Type 0} → (E → Error X) → Result E A → Result (Error X) A
with_error f (ok a) = ok a
with_error f (err e) = err (f e)

-- `ctap1RawInvoker` and `ctap2RawInvoker`
module _ {World X : Type 0} where
  abbrev from_session : Result X Bytes × World → Result (RawError X) Bytes × World
  from_session (result, w) = (elim result [ ok content ↦ ok content | err e ↦ err (session e) ], w)

  unfoldable pub ctap1_raw : RawInvoker World X
  ctap1_raw exchange command payload w = elim (encode_raw command payload) [
    | err e ↦ (err (encoding e), w)
    | ok request ↦ from_session (exchange request w)
  ]

  unfoldable pub ctap2_raw : RawInvoker World X
  ctap2_raw exchange command payload w = from_session (exchange (command ∷ payload) w)

module _ {World X Priv Pub : Type 0} (client : Client World X Priv Pub) where
  unfoldable pub invoker_of : Family → Option (RawInvoker World X)
  invoker_of family_ctap1 = client.ctap1_invoker
  invoker_of family_ctap2 = client.ctap2_invoker
  invoker_of (other name) = none

  unfoldable pub invoke_raw : Family → ℕ → Bytes → World → Result (RawError X) Bytes × World
  invoke_raw family command payload w =
      if not (is_known family) then (err (unknown_family family), w) else elim (invoker_of family) [
        | none ↦ (err (unsupported_protocol family), w)
        | some invoker ↦ invoker client.exchange command payload w
      ]

  abbrev pub invoke : Family → ℕ → Bytes → Action World X Bytes
  invoke family command payload w =
      let answer = invoke_raw family command payload w in (with_error raw answer.0, answer.1)

  -- `ctap2Manager`
  abbrev pub manager_platform : Platform World (RawError X) Priv Pub
  manager_platform = record {
    crypto = client.crypto;
    cbor = client.cbor;
    random = client.random;
    generate_key = client.generate_key;
    invoke = invoke_raw family_ctap2;
    status_code = client.status_code;
  }

  abbrev pub managed :
      {A : Type 0} → (World → Result (Platform.Error (RawError X)) A × World) → Action World X A
  managed action w = (with_error manager (action w).0, (action w).1)

  unfoldable pub emit_interaction : Event → Action World X (Unit {0})
  emit_interaction event w = elim client.interaction [
    | none ↦ (ok tt, w)
    | some handler ↦ (ok tt, handler.on_interaction event w)
  ]

  -- Without a handler, ErrPINRequired.
  unfoldable pub request_pin : Operation → Action World X Bytes
  request_pin operation w = elim client.interaction [
    | none ↦ (err pin_required, w)
    | some handler ↦
        let asked =
          handler.on_interaction
            (record { kind = awaiting_pin; operation = operation; family = family_ctap2 }) w in
        handler.request_pin operation asked
  ]
