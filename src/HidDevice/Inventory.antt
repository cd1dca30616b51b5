-- ===== src/HidDevice/Inventory.antt =====
-- pkg/hid/internal/reportdesc/inventory.go: the usages of a device whose layout is refused.
mod Tests
pub mod Passes
pub mod Blocks
pub mod Listing
use fido_go.Base.{
  ℕ, zero, suc, ◌+◌, ◌-◌, ◌/◌, ◌%◌, ◌^◌, bit_and, Bool, true, false, not, ◌&&◌, ◌||◌, Option, none,
  some, List, [], ◌∷◌, ◌++◌, ltb, ◌==◌, if◌then◌else◌, length, take, drop, Bytes, u16, byte_at,
  Result, ◌>>=◌, ◌>>◌, reject_if, err, ok,
}
use fido_go.HidDevice.Descriptor.{
  Invalid, descriptor_size, truncated_item, too_many_collections, truncated_long_item, Collection,
  little_endian, item_size, max_descriptor_size,
}
use fido_go.HidDevice.Descriptor.Layout.{parse}

-- The variables of `scanUsages`; the stack has its top first.
pub record Scan : Type 0 where
  pub result : List Collection
  pub page : ℕ
  pub stack : List ℕ
  pub usages : ℕ
  pub first : ℕ
  pub minimum : ℕ
  pub has_min : Bool
  pub depth : ℕ

abbrev pub new_scan : Scan
new_scan = record {
  result = [];
  page = 0;
  stack = [];
  usages = 0;
  first = 0;
  minimum = 0;
  has_min = false;
  depth = 0;
}

found_collection : Scan → Collection
found_collection s =
    let usage = if not (s.usages == 0) || not s.has_min then s.first else s.minimum in
    record {
      index = length s.result;
      usage_page = u16 (if ltb 0xffff usage then usage / 2 ^ 16 else bit_and s.page 0xffff);
      usage_id = u16 usage;
      input = record { id = 0; size = 0 };
      output = record { id = 0; size = 0 };
      supported = false;
    }

-- `case 10` of the main items
scan_begin : ℕ → Scan → Result Invalid Scan
scan_begin value s =
    let top_level = s.depth == 0 && value == 1 in
    do
      reject_if (top_level && length s.result == 256) too_many_collections
      ok (record s {
        result = if top_level then s.result ++ found_collection s ∷ [] else s.result;
        depth = s.depth + 1;
      })

abbrev reset_locals : Scan → Scan
reset_locals s = record s { usages = 0; has_min = false }

scan_main_step : ℕ → ℕ → Scan → Result Invalid Scan
scan_main_step tag value s =
    if tag == 10
    then scan_begin value s
    else if tag == 12
    then ok (record s { depth = s.depth - 1 })
    else ok s

scan_main : ℕ → ℕ → Scan → Result Invalid Scan
scan_main tag value s = do t ← scan_main_step tag value s; ok (reset_locals t)

pop_page : List ℕ → Scan → Scan
pop_page [] s = s
pop_page (page ∷ stack) s = record s { page = page; stack = stack }

scan_global : ℕ → ℕ → Scan → Scan
scan_global tag value s =
    if tag == 0
    then record s { page = value }
    else if tag == 10
    then (if ltb (length s.stack) 32 then record s { stack = s.page ∷ s.stack } else s)
    else if tag == 11
    then pop_page s.stack s
    else s

scan_local : ℕ → ℕ → Scan → Scan
scan_local tag value s =
    if tag == 0
    then record s { first = (if s.usages == 0 then value else s.first); usages = s.usages + 1 }
    else if tag == 1
    then record s { minimum = value; has_min = true }
    else s

pub scan_item : ℕ → ℕ → Scan → Result Invalid Scan
scan_item prefix value s =
    let type = prefix / 4 % 4 in
    let tag = prefix / 16 in
    if type == 0
    then scan_main tag value s
    else if type == 1
    then ok (scan_global tag value s)
    else if type == 2
    then ok (scan_local tag value s)
    else ok s

-- The loop over the items, on a bound that the length of the data meets.
pub scan_items : ℕ → Bytes → Scan → Result Invalid Scan
scan_items rounds [] s = ok s
scan_items zero (prefix ∷ rest) s = ok s
scan_items (suc rounds) (prefix ∷ rest) s =
    let size = item_size prefix in
    let long_size = byte_at rest 0 in
    let later = scan_items rounds (drop size rest) in
    let after_long = scan_items rounds (drop (long_size + 2) rest) s in
    elim (prefix == 0xfe) [
      | true ↦ (do
        reject_if (ltb (length rest) 2 || ltb (length rest - 2) long_size) truncated_long_item
        after_long)
      | false ↦ (do
        reject_if (ltb (length rest) size) truncated_item
        t ← scan_item prefix (little_endian (take size rest)) s
        later t)
    ]

pub scan_usages : Bytes → Result Invalid (List Collection)
scan_usages content = do
  reject_if (length content == 0 || ltb max_descriptor_size (length content)) descriptor_size
  s ← scan_items (length content) content new_scan
  ok s.result

-- The collections with the error of the layout.
pub inventory : Bytes → List Collection × Option Invalid
inventory content = elim (parse content) [
  | ok cs ↦ (cs, none)
  | err e ↦ elim (scan_usages content) [ ok cs ↦ (cs, some e) | err scan_error ↦ ([], some e) ]
]
