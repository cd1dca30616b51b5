-- ===== src/Transport/Registry/Tests.antt =====
-- A registry of two backends.
use fido_go.Base.{ℕ, ◌≡◌, refl, some, [], ◌∷◌, equal_bytes, err, ok}
use fido_go.Transport.Registry.{Backend, find, is_registered, register, new_registry}
use fido_go.Transport.Registry.Lookup.{Found, new_registry-Found}

-- "usb"
abbrev usb : Backend ℕ ℕ ℕ
usb = record { kind = 117 ∷ 115 ∷ 98 ∷ []; discover = ok (1 ∷ []); connect = λ device. ok device }

-- "nfc"
abbrev nfc : Backend ℕ ℕ ℕ
nfc = record { kind = 110 ∷ 102 ∷ 99 ∷ []; discover = err 5; connect = λ device. err 5 }

new_registry-two : new_registry (some usb ∷ some nfc ∷ []) ≡ ok (usb ∷ nfc ∷ [])
unfolding new_registry register is_registered find equal_bytes
new_registry-two = refl

new_registry-Found_example : Found (usb ∷ nfc ∷ []) (usb ∷ nfc ∷ [])
new_registry-Found_example =
    new_registry-Found (some usb ∷ some nfc ∷ []) (usb ∷ nfc ∷ []) new_registry-two
