-- ===== src/ClientCtap2/Credentials/Counts.antt =====
-- How many credentials an enumeration returns, and whose they are.
use fido_go.Base.{
  ℕ, zero, suc, ◌-◌, ◌≡◌, refl, ap, inl, inr, none, some, List, [], ◌∷◌, arith, Option-cases,
  length, All, Bytes, Result-cases, ok,
}
use fido_go.Ctap2.CredentialManagement.{
  Command, Response, new_command, credential_management_enumerate_credentials_get_next,
  credential_management_enumerate_credentials_begin,
}
use fido_go.ClientCtap2.Platform.{Platform}
use fido_go.ClientCtap2.Credentials.{
  RelyingPartySet, DiscoverableCredential, discoverable_credential, credential_of,
  invoke_credential_management, invoke_authorized, next_credentials, enumerate_credentials,
}

-- A credential under a relying party.
abbrev pub IsOf : RelyingPartySet → DiscoverableCredential → Type 0
IsOf party credential = (credential.rp ≡ party.rp) × (credential.rp_id_hash ≡ party.rp_id_hash)

credential_of-IsOf :
    {X : Type 0} (party : RelyingPartySet) (response : Response)
    (credential : DiscoverableCredential)
    → credential_of {X = X} party response ≡ ok credential
    → IsOf party credential
unfolding credential_of discoverable_credential
credential_of-IsOf party response credential h = elim (Option-cases response.user) [
  | inl u ↦ ground (arith, h, u)
  | inr (user, u) ↦ elim (Option-cases response.credential_id) [
    | inl c ↦ ground (arith, h, u, c)
    | inr (id, c) ↦ ground (arith, h, u, c)
  ]
]

-- The first command for the credentials of a relying party.
abbrev pub begin_command : ℕ → RelyingPartySet → Command
begin_command code party =
    record (new_command code credential_management_enumerate_credentials_begin) {
      subcommand_params =
          some (record { rp_id_hash = party.rp_id_hash; credential_id = none; user = none });
    }

module _ {World X Priv Pub : Type 0} (p : Platform World X Priv Pub) (code : ℕ) where
  next_credentials-IsOf :
      (party : RelyingPartySet) (n : ℕ) (w : World) (credentials : List DiscoverableCredential)
      → (next_credentials p n code party w).0 ≡ ok credentials
      → (length credentials ≡ n) × All (IsOf party) credentials
  unfolding next_credentials
  next_credentials-IsOf party zero w credentials h =
      let same : credentials ≡ [] = ground (arith, h) in rw (same) (refl, tt)
  next_credentials-IsOf party (suc n) w credentials h =
      let answer =
        invoke_credential_management p
          (new_command code credential_management_enumerate_credentials_get_next) w in
      elim (Result-cases answer.0) [
        | inl (e, i) ↦ ground (arith, h, i)
        | inr (response, i) ↦ elim (Result-cases (credential_of {X = X} party response)) [
          | inl (e, o) ↦ ground (arith, h, i, o)
          | inr (credential, o) ↦ elim (Result-cases (next_credentials p n code party answer.1).0) [
            | inl (e, j) ↦ ground (arith, h, i, o, j)
            | inr (rest, j) ↦
                let same : credentials ≡ credential ∷ rest = ground (arith, h, i, o, j) in
                let (count, all) = next_credentials-IsOf party n answer.1 rest j in
                rw (same) (ap suc count, (credential_of-IsOf party response credential o, all))
          ]
        ]
      ]

  -- The credentials of a relying party are as many as the first answer says, and one at least, and all
  -- are under that relying party.
  pub enumerate_credentials-IsOf :
      (version : ℕ) (token : Bytes) (party : RelyingPartySet) (w : World)
      (credentials : List DiscoverableCredential)
      → (enumerate_credentials p code version token party w).0 ≡ ok credentials
      → (response : Response) × (((invoke_authorized p version token (begin_command code party) w).0
            ≡ ok response)
          × ((length credentials ≡ suc (response.total_credentials - 1))
              × All (IsOf party) credentials))
  unfolding enumerate_credentials
  enumerate_credentials-IsOf version token party w credentials h =
      let answer = invoke_authorized p version token (begin_command code party) w in
      elim (Result-cases answer.0) [
        | inl (e, i) ↦ ground (arith, h, i)
        | inr (response, i) ↦ elim (Result-cases (credential_of {X = X} party response)) [
          | inl (e, o) ↦ ground (arith, h, i, o)
          | inr (credential, o) ↦
              elim (Result-cases
                (next_credentials p (response.total_credentials - 1) code party answer.1).0) [
                  | inl (e, j) ↦ ground (arith, h, i, o, j)
                  | inr (rest, j) ↦
                      let same : credentials ≡ credential ∷ rest = ground (arith, h, i, o, j) in
                      let (count, all) =
                        next_credentials-IsOf party (response.total_credentials - 1) answer.1 rest
                          j in
                      (
                        response,
                        (
                          i,
                          rw (same)
                              (ap suc count, (credential_of-IsOf party response credential o, all)),
                        ),
                      )
                ]
        ]
      ]
