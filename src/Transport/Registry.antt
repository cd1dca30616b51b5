-- ===== src/Transport/Registry.antt =====
-- pkg/transport/registry.go: the backends of a client, by transport kind. A kind is a Go string, as
-- its bytes, and a nil backend is `none`.
mod Tests
pub mod Lookup
use fido_go.Base.{
  ℕ, Bool, true, false, not, ◌&&◌, ◌||◌, Option, none, some, List, [], ◌∷◌, ◌++◌, ◌==◌,
  if◌then◌else◌, length, Bytes, equal_bytes, Result, ◌>>=◌, ◌>>◌, reject_if, err, ok,
}

abbrev pub Kind : Type 0
Kind = Bytes

-- "unknown"
abbrev pub kind_unknown : Kind
kind_unknown = 117 ∷ 110 ∷ 107 ∷ 110 ∷ 111 ∷ 119 ∷ 110 ∷ []

pub record DeviceDescriptor : Type 0 where
  pub id : Bytes
  pub transport : Kind
  pub path : Bytes
  pub manufacturer : Bytes
  pub product : Bytes
  pub serial_number : Bytes
  pub vendor_id : ℕ
  pub product_id : ℕ

-- The serial number stands after the product in " (" and ")".
pub display_name : DeviceDescriptor → Bytes
display_name device =
    if not (length device.product == 0) && not (length device.serial_number == 0)
    then device.product ++ (32 ∷ 40 ∷ (device.serial_number ++ 41 ∷ []))
    else if not (length device.product == 0)
    then device.product
    else if not (length device.id == 0)
    then device.id
    else device.transport

-- The Backend interface, whose calls give a result at the time of the call.
pub record Backend (Device Session E : Type 0) : Type 0 where
  pub kind : Kind
  pub discover : Result E (List Device)
  pub connect : Device → Result E Session

pub data Error (E : Type 0) : Type 0 where
  backend_required duplicate_backend backend_not_found unsupported_kind : Error E
  backend_failed : E → Error E

-- The registered backends in order: the map and the slice of its keys.
abbrev pub Registry : Type 0 → Type 0 → Type 0 → Type 0
Registry Device Session E = List (Backend Device Session E)

module _ {Device Session E : Type 0} where
  -- `registry.backends[kind]`
  unfoldable pub find : Kind → Registry Device Session E → Option (Backend Device Session E)
  find kind [] = none
  find kind (b ∷ bs) = if equal_bytes b.kind kind then some b else find kind bs

  unfoldable pub is_registered : Kind → Registry Device Session E → Bool
  is_registered kind registry = elim (find kind registry) [ some b ↦ true | none ↦ false ]

  -- The loop of `NewRegistry` over the backends that are left.
  unfoldable pub register :
      Registry Device Session E
      → List (Option (Backend Device Session E))
      → Result (Error E) (Registry Device Session E)
  register registry [] = ok registry
  register registry (none ∷ rest) = err backend_required
  register registry (some b ∷ rest) =
      let more = register (registry ++ b ∷ []) rest in
      do
        reject_if (length b.kind == 0 || equal_bytes b.kind kind_unknown) unsupported_kind
        reject_if (is_registered b.kind registry) duplicate_backend
        more

  unfoldable pub new_registry :
      List (Option (Backend Device Session E)) → Result (Error E) (Registry Device Session E)
  new_registry backends = register [] backends

  -- The devices found, and the errors of the backends that failed.
  unfoldable pub discover_all : Registry Device Session E → List Device × List E
  discover_all [] = ([], [])
  discover_all (b ∷ bs) =
      let rest = discover_all bs in
      elim b.discover [ err e ↦ (rest.0, e ∷ rest.1) | ok found ↦ (found ++ rest.0, rest.1) ]

  unfoldable pub start_session :
      Registry Device Session E → Kind → Device → Result (Error E) Session
  start_session registry kind device = elim (find kind registry) [
    | none ↦ err backend_not_found
    | some b ↦ elim (b.connect device) [ err e ↦ err (backend_failed e) | ok session ↦ ok session ]
  ]
