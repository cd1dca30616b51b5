-- ===== src/HidDevice/Resources/Tests.antt =====
-- A connection and an enumeration.
use fido_go.Base.{refl, [], ◌∷◌, equal_bytes}
use fido_go.HidDevice.Resources.{
  Resources, no_resources, charged, is_reserved, delete, reserve_endpoint, release_endpoint,
  reserve_enumeration, Reach, here, next, reserves, releases, takes_slot, reserves_enumeration,
}
use fido_go.HidDevice.Resources.Accounts.{IsAccounted, Reach-IsAccounted}

abbrev busy_resources : Resources
busy_resources = record { endpoints = (2 ∷ []) ∷ []; bytes = 17563648; slot = charged }

busy-Reach : Reach no_resources busy_resources
unfolding reserve_endpoint release_endpoint reserve_enumeration is_reserved delete equal_bytes
busy-Reach =
    next
      (next (next (next (next here (reserves (1 ∷ []))) (reserves (2 ∷ []))) (takes_slot refl))
        (releases (1 ∷ []) refl))
      (reserves_enumeration refl)

Reach-IsAccounted_example : IsAccounted busy_resources
Reach-IsAccounted_example = Reach-IsAccounted busy_resources busy-Reach
