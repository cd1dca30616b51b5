-- ===== src/HidDevice/Inventory/Listing.antt =====
-- What the usage scan finds in descriptors that are made of collections with long items in them.
use fido_go.Base.{ℕ, ◌+◌, ◌≡◌, true, false, [], ◌∷◌, ◌++◌, length}
use fido_go.HidDevice.Inventory.{Scan}
use fido_go.HidDevice.Inventory.Passes.{Passes}
use fido_go.HidDevice.Inventory.Blocks.{Locals, usages, range, Block, listed}

abbrev more_usages : ℕ → Scan → Scan
more_usages n s = record s { usages = s.usages + n }

-- The state after local items, and after a whole block.
abbrev named : Locals → Scan → Scan
named (usages u us) s = record s { first = u; usages = 1 + length us }
named (range low high) s = record s { minimum = low; has_min = true }

-- Between two blocks.
record Between (s : Scan) : Type 0 where
  no_usages : s.usages ≡ 0
  no_minimum : s.has_min ≡ false
  outside : s.depth ≡ 0

-- The state after a block.
abbrev listed_in : Block → Scan → Scan
listed_in b s = record (named b.locals (record s { page = b.page })) {
  result = s.result ++ listed (length s.result) b ∷ [];
  depth = 0;
  usages = 0;
  has_min = false;
}
