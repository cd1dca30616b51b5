-- ===== src/HidDevice/Descriptor.antt =====
-- pkg/hid/internal/reportdesc/parser.go: the report descriptor of a HID device.
mod Tests
pub mod Items
pub mod Grammar
pub mod Layout
pub mod Bounds
use fido_go.Base.{
  ℕ, zero, suc, ◌+◌, ◌-◌, ◌*◌, ◌/◌, ◌%◌, ◌^◌, Bool, true, false, not, ◌&&◌, ◌||◌, Option, none,
  some, List, [], ◌∷◌, ◌++◌, ltb, leb, ◌==◌, if◌then◌else◌, length, take, drop, Bytes, u16, Result,
  ◌>>=◌, ◌>>◌, reject_if, err, ok,
}

abbrev pub max_descriptor_size : ℕ
max_descriptor_size = 64 * 1024

abbrev max_report_size : ℕ
max_report_size = 4096

-- The messages of `invalid`.
pub data Invalid : Type 0 where
  descriptor_size long_item truncated_long_item truncated_item reserved_item_type unbalanced :
      Invalid
  too_many_usages invalid_usage_range usage_delimiters : Invalid
  page_exceeds invalid_report_id stack_depth stack_underflow : Invalid
  collection_depth too_many_collections collection_underflow : Invalid
  report_exceeds report_outside : Invalid

-- driver.ReportSpec, with its size in bytes.
pub record ReportSpec : Type 0 where
  pub id : ℕ
  pub size : ℕ

pub record Collection : Type 0 where
  pub index : ℕ
  pub usage_page : ℕ
  pub usage_id : ℕ
  pub input : ReportSpec
  pub output : ReportSpec
  pub supported : Bool

pub record Globals : Type 0 where
  pub page : ℕ
  pub size : ℕ
  pub count : ℕ
  pub id : ℕ

-- A map from report IDs to bits: each ID stands in it once.
abbrev pub BitMap : Type 0
BitMap = List (ℕ × ℕ)

-- The bits of a collection's reports; the field `unsupported` is set by `finish` alone.
pub record Reports : Type 0 where
  pub input : BitMap
  pub output : BitMap

-- The stacks with their top first; -1 in `collections` is `none`.
pub record Parser : Type 0 where
  pub result : List Collection
  pub reports : List Reports
  pub global : Globals
  pub stack : List Globals
  pub collections : List (Option ℕ)
  pub usages : List ℕ
  pub minimum : ℕ
  pub has_minimum : Bool
  pub invalid_layout : Bool

abbrev pub new_parser : Parser
new_parser = record {
  result = [];
  reports = [];
  global = record { page = 0; size = 0; count = 0; id = 0 };
  stack = [];
  collections = [];
  usages = [];
  minimum = 0;
  has_minimum = false;
  invalid_layout = false;
}

-- `value |= uint32(data[pos+i]) << (8 * i)`
unfoldable pub little_endian : Bytes → ℕ
little_endian [] = 0
little_endian (b ∷ bs) = b + 2 ^ 8 * little_endian bs

pub bits_of : ℕ → BitMap → ℕ
bits_of id [] = 0
bits_of id ((i, bits) ∷ m) = if i == id then bits else bits_of id m

-- `target[id] += bits`
pub add_bits : ℕ → ℕ → BitMap → BitMap
add_bits id bits [] = (id, bits) ∷ []
add_bits id bits ((i, old) ∷ m) =
    let rest = add_bits id bits m in if i == id then (i, old + bits) ∷ m else (i, old) ∷ rest

-- `if bits > MaxReportSize*8 - target[id]`, and otherwise the map with the bits added.
grow : ℕ → ℕ → BitMap → Result Invalid BitMap
grow id bits m = do
  reject_if (ltb (max_report_size * 8 - bits) (bits_of id m)) report_exceeds
  ok (add_bits id bits m)

-- The reports of a direction in the collection with an index.
grow_input : ℕ → ℕ → ℕ → List Reports → Result Invalid (List Reports)
grow_input i id bits [] = ok []
grow_input zero id bits (r ∷ rs) = do
  input ← grow id bits r.input
  ok (record r { input = input } ∷ rs)
grow_input (suc i) id bits (r ∷ rs) = do rest ← grow_input i id bits rs; ok (r ∷ rest)

grow_output : ℕ → ℕ → ℕ → List Reports → Result Invalid (List Reports)
grow_output i id bits [] = ok []
grow_output zero id bits (r ∷ rs) = do
  output ← grow id bits r.output
  ok (record r { output = output } ∷ rs)
grow_output (suc i) id bits (r ∷ rs) = do rest ← grow_output i id bits rs; ok (r ∷ rest)

-- `p.global = p.stack[len(p.stack)-1]`, and the stack without it.
pub pop_global : List Globals → Parser → Result Invalid Parser
pop_global [] p = err stack_underflow
pop_global (g ∷ stack) p = ok (record p { global = g; stack = stack })

unfoldable pub global_item : ℕ → ℕ → Parser → Result Invalid Parser
global_item tag value p =
    if tag == 0
    then (do
      reject_if (ltb 0xffff value) page_exceeds
      ok (record p { global = record p.global { page = value } }))
    else if tag == 7
    then ok (record p { global = record p.global { size = value } })
    else if tag == 8
    then (do
      reject_if (ltb 255 value) invalid_report_id
      ok (record p {
        invalid_layout = p.invalid_layout || value == 0;
        global = record p.global { id = value };
      }))
    else if tag == 9
    then ok (record p { global = record p.global { count = value } })
    else if tag == 10
    then (do
      reject_if (length p.stack == 32) stack_depth
      ok (record p { stack = p.global ∷ p.stack }))
    else if tag == 11
    then pop_global p.stack p
    else ok p

unfoldable pub local_item : ℕ → ℕ → Parser → Result Invalid Parser
local_item tag value p =
    if tag == 0
    then (do
      reject_if (leb 1024 (length p.usages)) too_many_usages
      ok (record p { usages = p.usages ++ value ∷ [] }))
    else if tag == 1
    then ok (record p { minimum = value; has_minimum = true })
    else if tag == 2
    then (do reject_if (not p.has_minimum || ltb value p.minimum) invalid_usage_range; ok p)
    else if tag == 10
    then err usage_delimiters
    else ok p

-- The top of the stack of collections, -1 where it is empty.
current : List (Option ℕ) → Option ℕ
current [] = none
current (c ∷ cs) = c

-- The first local usage, or the minimum.
usage_of : Parser → List ℕ → ℕ
usage_of p [] = p.minimum
usage_of p (u ∷ us) = u

-- A top-level Application collection.
application : Parser → Collection
application p =
    let usage = usage_of p p.usages in
    record {
      index = length p.result;
      usage_page = u16 (if ltb 0xffff usage then usage / 2 ^ 16 else p.global.page);
      usage_id = u16 usage;
      input = record { id = 0; size = 0 };
      output = record { id = 0; size = 0 };
      supported = false;
    }

-- `case 10`
begin_collection : ℕ → Parser → Result Invalid Parser
begin_collection value p =
    let top_level = length p.collections == 0 && value == 1 in
    do
      reject_if (length p.collections == 32) collection_depth
      reject_if (top_level && length p.result == 256) too_many_collections
      ok (
          if top_level
          then record p {
            result = p.result ++ application p ∷ [];
            reports = p.reports ++ record { input = []; output = [] } ∷ [];
            collections = some (length p.result) ∷ p.collections;
          }
          else record p { collections = current p.collections ∷ p.collections })

-- `case 12`
end_collection : List (Option ℕ) → Parser → Result Invalid Parser
end_collection [] p = err collection_underflow
end_collection (c ∷ cs) p = ok (record p { collections = cs })

-- `case 8, 9, 11`: Input, Output and Feature.
report_item : ℕ → Option ℕ → Parser → Result Invalid Parser
report_item tag open_collection p =
    let bits = p.global.size * p.global.count in
    do
      reject_if (ltb (max_report_size * 8) bits) report_exceeds
      elim open_collection [
        | none ↦ err report_outside
        | some i ↦
            if tag == 11
            then ok p
            else if tag == 9
            then (do
              reports ← grow_output i p.global.id bits p.reports
              ok (record p { reports = reports }))
            else (do
              reports ← grow_input i p.global.id bits p.reports
              ok (record p { reports = reports }))
      ]

-- The deferred function of `main`; it leaves `minimum` as it is.
abbrev clear_locals : Parser → Parser
clear_locals p = record p { usages = []; has_minimum = false }

-- What `main` does before its deferred function.
main_step : ℕ → ℕ → Parser → Result Invalid Parser
main_step tag value p =
    if tag == 10
    then begin_collection value p
    else if tag == 12
    then end_collection p.collections p
    else if tag == 8 || (tag == 9 || tag == 11)
    then report_item tag (current p.collections) p
    else ok p

pub main_item : ℕ → ℕ → Parser → Result Invalid Parser
main_item tag value p = do q ← main_step tag value p; ok (clear_locals q)

unfoldable pub item : ℕ → ℕ → Parser → Result Invalid Parser
item prefix value p =
    let type = prefix / 4 % 4 in
    let tag = prefix / 16 in
    if type == 0
    then main_item tag value p
    else if type == 1
    then global_item tag value p
    else if type == 2
    then local_item tag value p
    else err reserved_item_type

-- The bytes of an item's value.
unfoldable pub item_size : ℕ → ℕ
item_size prefix = if prefix % 4 == 3 then 4 else prefix % 4

-- The loop over the items, on a bound that the length of the data meets.
unfoldable pub items : ℕ → Bytes → Parser → Result Invalid Parser
items rounds [] p = ok p
items zero (prefix ∷ rest) p = ok p
items (suc rounds) (prefix ∷ rest) p =
    let size = item_size prefix in
    let later = items rounds (drop size rest) in
    do
      reject_if (prefix == 0xfe) long_item
      reject_if (ltb (length rest) size) truncated_item
      q ← item prefix (little_endian (take size rest)) p
      later q
