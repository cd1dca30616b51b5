-- ===== src/HidDevice/Resources.antt =====
-- pkg/hid/resources.go: the connections and the memory that the package reserves, under its mutex.
pub mod Accounts
mod Tests
use fido_go.Base.{
  ℕ, ◌+◌, ◌-◌, ◌*◌, ◌≡◌, Bool, true, false, ◌||◌, List, [], ◌∷◌, ltb, leb, if◌then◌else◌, length,
  Bytes, equal_bytes, Result, err, ok,
}

abbrev pub max_connections : ℕ
max_connections = 64

abbrev pub max_native_bytes : ℕ
max_native_bytes = 64 * 1024 * 1024

abbrev pub connection_bytes : ℕ
connection_bytes = 768 * 1024

abbrev pub enumeration_bytes : ℕ
enumeration_bytes = 16 * 1024 * 1024

pub data Refusal : Type 0 where
  busy resource_limit : Refusal

-- The one-slot semaphore, and whether its holder has reserved its memory.
pub data Slot : Type 0 where
  free taken charged : Slot

-- The map's keys are a list.
pub record Resources : Type 0 where
  pub endpoints : List Bytes
  pub bytes : ℕ
  pub slot : Slot

-- `shared`
abbrev pub no_resources : Resources
no_resources = record { endpoints = []; bytes = 0; slot = free }

unfoldable pub is_reserved : Bytes → List Bytes → Bool
is_reserved id [] = false
is_reserved id (other ∷ ids) = equal_bytes other id || is_reserved id ids

-- `delete(r.endpoints, id)`
unfoldable pub delete : Bytes → List Bytes → List Bytes
delete id [] = []
delete id (other ∷ ids) =
    let rest = delete id ids in if equal_bytes other id then ids else other ∷ rest

unfoldable pub reserve_endpoint : Bytes → Resources → Result Refusal (Unit {0}) × Resources
reserve_endpoint id r =
    if is_reserved id r.endpoints
    then (err busy, r)
    else if leb max_connections (length r.endpoints)
        || ltb (max_native_bytes - connection_bytes) r.bytes
    then (err resource_limit, r)
    else (ok tt, record r { endpoints = id ∷ r.endpoints; bytes = r.bytes + connection_bytes })

unfoldable pub release_endpoint : Bytes → Resources → Resources
release_endpoint id r = record r {
  endpoints = delete id r.endpoints;
  bytes = r.bytes - connection_bytes;
}

-- `reserveEnumeration` once it has the slot.
unfoldable pub reserve_enumeration : Resources → Result Refusal (Unit {0}) × Resources
reserve_enumeration r =
    if ltb (max_native_bytes - enumeration_bytes) r.bytes
    then (err resource_limit, record r { slot = free })
    else (ok tt, record r { bytes = r.bytes + enumeration_bytes; slot = charged })

unfoldable pub release_enumeration : Resources → Resources
release_enumeration r = record r { bytes = r.bytes - enumeration_bytes; slot = free }

-- A reservation, or the release of what is reserved.
pub data Step (r : Resources) : Resources → Type 0 where
  reserves : (id : Bytes) → Step r (reserve_endpoint id r).1
  releases : (id : Bytes) → is_reserved id r.endpoints ≡ true → Step r (release_endpoint id r)
  takes_slot : r.slot ≡ free → Step r (record r { slot = taken })
  reserves_enumeration : r.slot ≡ taken → Step r (reserve_enumeration r).1
  releases_enumeration : r.slot ≡ charged → Step r (release_enumeration r)

pub data Reach (r : Resources) : Resources → Type 0 where
  here : Reach r r
  next : {t u : Resources} → Reach r t → Step t u → Reach r u
