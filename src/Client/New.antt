-- ===== src/Client/New.antt =====
-- pkg/client/client.go (New), options.go, default_invokers.go and pkg/middleware/middleware.go: a client
-- from its options. The HID exchange and its middlewares are left out.
use fido_go.Base.{
  not, Option, none, some, List, [], ◌∷◌, ◌++◌, if◌then◌else◌, Result, ◌>>=◌, err, ok,
}
use fido_go.Client.Types.{
  Family, family_ctap1, family_ctap2, other, is_known, InteractionHandler, Exchange, RawInvoker,
  Client, ctap1_raw, ctap2_raw,
}

pub data NewError : Type 0 where
  session_required middleware_required raw_invoker_required interaction_handler_required : NewError
  unknown_family duplicate_raw_invoker : Family → NewError

-- A RawInvoker with its Protocol.
pub record Invoker (World X : Type 0) : Type 0 where
  pub protocol : Family
  pub run : RawInvoker World X

-- WrapExchange
abbrev pub Middleware : Type 0 → Type 0 → Type 0
Middleware World X = Exchange World X → Exchange World X

-- `Chain`: the first middleware is the outermost.
unfoldable pub chain :
    {World X : Type 0} → Exchange World X → List (Middleware World X) → Exchange World X
chain base [] = base
chain base (middleware ∷ middlewares) = middleware (chain base middlewares)

-- `config`
pub record Config (World X : Type 0) : Type 0 where
  pub middlewares : List (Middleware World X)
  pub ctap1_invoker : Option (Invoker World X)
  pub ctap2_invoker : Option (Invoker World X)
  pub interaction : Option (InteractionHandler World X)

-- An Option of New; nil arguments are `none`.
pub data Setting (World X : Type 0) : Type 0 where
  nil_option : Setting World X
  with_middleware : Option (Middleware World X) → Setting World X
  with_raw_invoker : Option (Invoker World X) → Setting World X
  with_interaction : Option (InteractionHandler World X) → Setting World X

module _ {World X : Type 0} where
  abbrev empty_config : Config World X
  empty_config = record {
    middlewares = [];
    ctap1_invoker = none;
    ctap2_invoker = none;
    interaction = none;
  }

  unfoldable pub registered : Family → Config World X → Option (Invoker World X)
  registered family_ctap1 config = config.ctap1_invoker
  registered family_ctap2 config = config.ctap2_invoker
  registered (other name) config = none

  unfoldable pub register_invoker : Invoker World X → Config World X → Config World X
  register_invoker invoker config = elim invoker.protocol [
    | family_ctap1 ↦ record config { ctap1_invoker = some invoker }
    | family_ctap2 ↦ record config { ctap2_invoker = some invoker }
    | other name ↦ config
  ]

  unfoldable pub apply_option : Setting World X → Config World X → Result NewError (Config World X)
  apply_option nil_option config = ok config
  apply_option (with_middleware none) config = err middleware_required
  apply_option (with_middleware (some middleware)) config =
      ok (record config { middlewares = config.middlewares ++ (middleware ∷ []) })
  apply_option (with_raw_invoker none) config = err raw_invoker_required
  apply_option (with_raw_invoker (some invoker)) config =
      if not (is_known invoker.protocol)
      then err (unknown_family invoker.protocol)
      else elim (registered invoker.protocol config) [
        | some present ↦ err (duplicate_raw_invoker invoker.protocol)
        | none ↦ ok (register_invoker invoker config)
      ]
  apply_option (with_interaction none) config = err interaction_handler_required
  apply_option (with_interaction (some handler)) config =
      ok (record config { interaction = some handler })

  unfoldable pub apply_options :
      List (Setting World X) → Config World X → Result NewError (Config World X)
  apply_options [] config = ok config
  apply_options (setting ∷ settings) config = do
    changed ← apply_option setting config
    apply_options settings changed

  -- `WithDefaultRawInvokers`
  pub default_raw_invokers : List (Setting World X)
  default_raw_invokers =
      with_raw_invoker (some (record { protocol = family_ctap1; run = ctap1_raw }))
      ∷ with_raw_invoker (some (record { protocol = family_ctap2; run = ctap2_raw }))
      ∷ []

  abbrev run_of : Option (Invoker World X) → Option (RawInvoker World X)
  run_of none = none
  run_of (some invoker) = some invoker.run

-- `New`: the exchange of the session, if it is not nil, and the options; `parts` has what the client
-- takes as parameters.
pub new_client :
    {World X Priv Pub : Type 0}
    → Client World X Priv Pub
    → Option (Exchange World X)
    → List (Setting World X)
    → Result NewError (Client World X Priv Pub)
new_client parts none settings = err session_required
new_client parts (some exchange) settings = do
  config ← apply_options settings empty_config
  ok (record parts {
    exchange = chain exchange config.middlewares;
    ctap1_invoker = run_of config.ctap1_invoker;
    ctap2_invoker = run_of config.ctap2_invoker;
    interaction = config.interaction;
  })
