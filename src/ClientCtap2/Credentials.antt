-- ===== src/ClientCtap2/Credentials.antt =====
-- internal/client/ctap2/manager.go: the commands of credential management.
pub mod Counts
use fido_go.Base.{
  ℕ, zero, suc, ◌-◌, Option, none, some, List, [], ◌∷◌, ◌++◌, ◌==◌, if◌then◌else◌, length, drop,
  Bytes, Result, err, ok,
}
use fido_go.Ctap2.Types.{RelyingPartyEntity, UserEntity, CredentialDescriptor}
use fido_go.Ctap2.CredentialManagement.{
  Command, Response, new_command, command_byte, credential_management_get_metadata,
  credential_management_enumerate_rps_begin, credential_management_enumerate_rps_get_next,
  credential_management_enumerate_credentials_begin,
  credential_management_enumerate_credentials_get_next,
}
use fido_go.Ctap2.CredentialManagement
use fido_go.ClientCtap2.Platform.{
  ◌>>=◌, Platform, Error, incomplete_response, missing_relying_party, credential_id_required,
  Action, lift, from_ctap2, call,
}
use fido_go.ClientCtap2.Protocol.{authenticate}

-- "public-key"
abbrev pub public_key_type : Bytes
public_key_type = 112 ∷ 117 ∷ 98 ∷ 108 ∷ 105 ∷ 99 ∷ 45 ∷ 107 ∷ 101 ∷ 121 ∷ []

pub record DiscoverableCredential : Type 0 where
  pub rp : RelyingPartyEntity
  pub rp_id_hash : Bytes
  pub user : UserEntity
  pub credential : CredentialDescriptor
  pub cred_protect : ℕ
  pub large_blob_key : Bytes

pub record CredentialListResult : Type 0 where
  pub existing_resident_credentials_count : ℕ
  pub max_possible_remaining_resident_credentials_count : ℕ
  pub credentials : List DiscoverableCredential

-- relyingPartyCredentialSet
pub record RelyingPartySet : Type 0 where
  pub rp : RelyingPartyEntity
  pub rp_id_hash : Bytes

-- `discoverableCredentialFromResponse`
unfoldable pub discoverable_credential :
    {X : Type 0}
    → RelyingPartySet
    → Option UserEntity
    → Option CredentialDescriptor
    → Response
    → Result (Error X) DiscoverableCredential
discoverable_credential party none id response = err incomplete_response
discoverable_credential party (some user) none response = err incomplete_response
discoverable_credential party (some user) (some credential) response = ok (record {
  rp = party.rp;
  rp_id_hash = party.rp_id_hash;
  user = user;
  credential = credential;
  cred_protect = response.cred_protect;
  large_blob_key = response.large_blob_key;
})

unfoldable pub credential_of :
    {X : Type 0} → RelyingPartySet → Response → Result (Error X) DiscoverableCredential
credential_of party response =
    discoverable_credential party response.user response.credential_id response

unfoldable pub normalize_credential_descriptor :
    {X : Type 0} → CredentialDescriptor → Result (Error X) CredentialDescriptor
normalize_credential_descriptor credential =
    if length credential.id == 0
    then err credential_id_required
    else ok (record credential {
      type = if length credential.type == 0 then public_key_type else credential.type;
    })

-- `if totalRPs == 0 { totalRPs = 1 }`, less the first.
abbrev pub remaining : ℕ → ℕ
remaining total = total - 1

module _ {World X Priv Pub : Type 0} (p : Platform World X Priv Pub) where
  unfoldable pub invoke_credential_management : Command → Action World X Response
  invoke_credential_management command = do
    encoded ← lift (from_ctap2 (CredentialManagement.encode p.cbor.marshal_request command))
    content ← call (p.invoke (command_byte command.command_code) (drop 1 encoded))
    lift (from_ctap2 (CredentialManagement.decode p.cbor.unmarshal_response content))

  -- A command with its pinUvAuthParam, `PinProtocolAuthParam`.
  unfoldable pub authorized : ℕ → Bytes → Command → Action World X Command
  authorized version token command = do
    message ←
        lift
          (from_ctap2 (CredentialManagement.authentication_message p.cbor.marshal_params command))
    lift (
        ok (record command {
          pin_uv_auth_protocol = version;
          pin_uv_auth_param = authenticate p.crypto version token message;
        }))

  unfoldable pub invoke_authorized : ℕ → Bytes → Command → Action World X Response
  invoke_authorized version token command = do
    with_param ← authorized version token command
    invoke_credential_management with_param

  unfoldable pub get_credential_metadata : ℕ → ℕ → Bytes → Action World X CredentialListResult
  get_credential_metadata code version token = do
    response ← invoke_authorized version token (new_command code credential_management_get_metadata)
    lift (
        ok (record {
          existing_resident_credentials_count = response.existing_resident_credentials_count;
          max_possible_remaining_resident_credentials_count =
              response.max_possible_remaining_resident_credentials_count;
          credentials = [];
        }))

  -- The loop over the relying parties after the first.
  unfoldable pub next_relying_parties : ℕ → ℕ → Action World X (List RelyingPartySet)
  next_relying_parties zero code = lift (ok [])
  next_relying_parties (suc n) code =
      let later = next_relying_parties n code in
      do
        response ←
            invoke_credential_management
              (new_command code credential_management_enumerate_rps_get_next)
        elim response.rp [
          | none ↦ lift (err missing_relying_party)
          | some rp ↦ do
            rest ← later
            lift (ok (record { rp = rp; rp_id_hash = response.rp_id_hash } ∷ rest))
        ]

  unfoldable pub enumerate_relying_parties : ℕ → ℕ → Bytes → Action World X (List RelyingPartySet)
  enumerate_relying_parties code version token = do
    response ←
        invoke_authorized version token (new_command code credential_management_enumerate_rps_begin)
    elim response.rp [
      | none ↦ lift (ok [])
      | some rp ↦ do
        rest ← next_relying_parties (remaining response.total_rps) code
        lift (ok (record { rp = rp; rp_id_hash = response.rp_id_hash } ∷ rest))
    ]

  -- The loop over the credentials of a relying party after the first.
  unfoldable pub next_credentials :
      ℕ → ℕ → RelyingPartySet → Action World X (List DiscoverableCredential)
  next_credentials zero code party = lift (ok [])
  next_credentials (suc n) code party =
      let later = next_credentials n code party in
      do
        response ←
            invoke_credential_management
              (new_command code credential_management_enumerate_credentials_get_next)
        credential ← lift (credential_of party response)
        rest ← later
        lift (ok (credential ∷ rest))

  unfoldable pub enumerate_credentials :
      ℕ → ℕ → Bytes → RelyingPartySet → Action World X (List DiscoverableCredential)
  enumerate_credentials code version token party = do
    response ←
        invoke_authorized version token
          (record (new_command code credential_management_enumerate_credentials_begin) {
            subcommand_params =
                some (record { rp_id_hash = party.rp_id_hash; credential_id = none; user = none });
          })
    credential ← lift (credential_of party response)
    rest ← next_credentials (remaining response.total_credentials) code party
    lift (ok (credential ∷ rest))

  -- The loop over the relying parties.
  unfoldable pub enumerate_each :
      ℕ → ℕ → Bytes → List RelyingPartySet → Action World X (List DiscoverableCredential)
  enumerate_each code version token [] = lift (ok [])
  enumerate_each code version token (party ∷ parties) =
      let later = enumerate_each code version token parties in
      do
        credentials ← enumerate_credentials code version token party
        rest ← later
        lift (ok (credentials ++ rest))
