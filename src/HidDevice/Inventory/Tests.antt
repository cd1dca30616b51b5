-- ===== src/HidDevice/Inventory/Tests.antt =====
-- A descriptor of two collections with a long item in each; the strict parser refuses the first usage
-- page.
use fido_go.Base.{[], ◌∷◌}
use fido_go.HidDevice.Inventory.Blocks.{Block, usages, range}

abbrev vendor : Block
vendor = record { page = 0x1ff00; locals = range 2 9; tag = 1; long = 7 ∷ 8 ∷ [] }

abbrev fido : Block
fido = record { page = 0xf1d0; locals = usages 1 (0x20 ∷ []); tag = 1; long = [] }
