-- ===== src/HidDevice/Inventory/Blocks.antt =====
-- Report descriptors that are made of collections with long items in them, and what is to be listed for
-- them.
use fido_go.Base.{
  ℕ, ◌+◌, ◌/◌, ◌%◌, bit_and, false, List, [], ◌∷◌, ◌++◌, ltb, if◌then◌else◌, length, Bytes,
}
use fido_go.HidDevice.Descriptor.{Collection}
use fido_go.HidDevice.Inventory.Passes.{bytes_4}

-- Local items that name the usage of the next collection: usages, the first of which counts, or a range,
-- whose minimum does.
pub data Locals : Type 0 where
  usages : ℕ → List ℕ → Locals
  range : ℕ → ℕ → Locals

abbrev pub usage_item : ℕ → Bytes
usage_item u = 0x0b ∷ bytes_4 u

abbrev pub usage_items : List ℕ → Bytes
usage_items [] = []
usage_items (u ∷ us) = usage_item u ++ usage_items us

abbrev pub local_items : Locals → Bytes
local_items (usages u us) = usage_item u ++ usage_items us
local_items (range low high) = (0x1b ∷ bytes_4 low) ++ (0x2b ∷ bytes_4 high)

abbrev pub usage_named : Locals → ℕ
usage_named (usages u us) = u
usage_named (range low high) = low

-- A usage page, local items, an Application collection with a long item in it.
pub record Block : Type 0 where
  pub page : ℕ
  pub locals : Locals
  pub tag : ℕ
  pub long : Bytes

abbrev pub block_bytes : Block → Bytes
block_bytes b =
    (0x07 ∷ bytes_4 b.page)
    ++ (local_items b.locals
        ++ ((0xa1 ∷ 0x01 ∷ []) ++ ((0xfe ∷ length b.long ∷ b.tag ∷ b.long) ++ (0xc0 ∷ []))))

abbrev pub blocks_bytes : List Block → Bytes
blocks_bytes [] = []
blocks_bytes (b ∷ bs) = block_bytes b ++ blocks_bytes bs

-- The collection of a block: a usage above 0xffff has its page with it.
abbrev pub listed : ℕ → Block → Collection
listed index b =
    let usage = usage_named b.locals in
    record {
      index = index;
      usage_page = (if ltb 0xffff usage then usage / 65536 else bit_and b.page 0xffff) % 65536;
      usage_id = usage % 65536;
      input = record { id = 0; size = 0 };
      output = record { id = 0; size = 0 };
      supported = false;
    }

abbrev pub listing : ℕ → List Block → List Collection
listing index [] = []
listing index (b ∷ bs) = listed index b ∷ listing (index + 1) bs
