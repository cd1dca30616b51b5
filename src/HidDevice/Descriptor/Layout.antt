-- ===== src/HidDevice/Descriptor/Layout.antt =====
-- `finish` and `Parse` of pkg/hid/internal/reportdesc/parser.go: which collections can be opened.
use fido_go.Base.{
  ℕ, ◌+◌, ◌/◌, Bool, false, not, ◌&&◌, ◌||◌, Option, none, some, List, [], ◌∷◌, ltb, ◌==◌,
  if◌then◌else◌, length, Bytes, Result, ◌>>=◌, ◌>>◌, reject_if, ok,
}
use fido_go.HidDevice.Descriptor.{
  Invalid, descriptor_size, unbalanced, ReportSpec, Collection, BitMap, Reports, Parser, new_parser,
  items, max_descriptor_size,
}

-- The owners of the report IDs of a direction, and the collections that share one.
pub record Owners : Type 0 where
  pub owners : List (ℕ × ℕ)
  pub shared : List ℕ

unfoldable pub owner_of : ℕ → List (ℕ × ℕ) → Option ℕ
owner_of id [] = none
owner_of id ((i, owner) ∷ owners) = if i == id then some owner else owner_of id owners

-- `if owner, exists := inOwners[id]; exists`
unfoldable pub claim : ℕ → ℕ → Owners → Owners
claim i id o = elim (owner_of id o.owners) [
  | some owner ↦ record o { shared = owner ∷ i ∷ o.shared }
  | none ↦ record o { owners = (id, i) ∷ o.owners }
]

unfoldable pub claim_each : ℕ → BitMap → Owners → Owners
claim_each i [] o = o
claim_each i ((id, bits) ∷ m) o = claim_each i m (claim i id o)

-- The claims of the collections from index `i` on.
unfoldable pub claims : ℕ → List BitMap → Owners → Owners
claims i [] o = o
claims i (m ∷ ms) o = claims (i + 1) ms (claim_each i m o)

unfoldable pub contains : ℕ → List ℕ → Bool
contains i [] = false
contains i (j ∷ js) = i == j || contains i js

-- The specification that the loop over a map leaves: of its last report.
unfoldable pub spec_of : BitMap → ReportSpec → ReportSpec
spec_of [] spec = spec
spec_of ((id, bits) ∷ m) spec = spec_of m (record { id = id; size = (bits + 7) / 8 })

unfoldable pub has_empty : BitMap → Bool
has_empty [] = false
has_empty ((id, bits) ∷ m) = bits == 0 || has_empty m

-- An unnumbered report beside numbered ones.
unfoldable pub mixes : Owners → Bool
mixes o = elim (owner_of 0 o.owners) [ none ↦ false | some owner ↦ ltb 1 (length o.owners) ]

-- `p.reports[i].unsupported`
unfoldable pub unsupported : Owners → Owners → ℕ → Reports → Bool
unsupported ins outs i r =
    contains i ins.shared
    || (contains i outs.shared
        || (mixes ins && ltb 0 (length r.input) || mixes outs && ltb 0 (length r.output)))

unfoldable pub finish_collection : Bool → Owners → Owners → ℕ → Reports → Collection → Collection
finish_collection invalid_layout ins outs i r c = record c {
  input = spec_of r.input c.input;
  output = spec_of r.output c.output;
  supported =
      not invalid_layout
      && (length r.input == 1
          && (length r.output == 1
              && (not (has_empty r.input)
                  && (not (has_empty r.output) && not (unsupported ins outs i r)))));
}

-- A collection and its reports have the same index.
unfoldable pub finish_each :
    Bool → Owners → Owners → ℕ → List Reports → List Collection → List Collection
finish_each invalid_layout ins outs i [] cs = cs
finish_each invalid_layout ins outs i (r ∷ rs) [] = []
finish_each invalid_layout ins outs i (r ∷ rs) (c ∷ cs) =
    finish_collection invalid_layout ins outs i r c
    ∷ finish_each invalid_layout ins outs (i + 1) rs cs

unfoldable pub inputs : List Reports → List BitMap
inputs [] = []
inputs (r ∷ rs) = r.input ∷ inputs rs

unfoldable pub outputs : List Reports → List BitMap
outputs [] = []
outputs (r ∷ rs) = r.output ∷ outputs rs

abbrev no_owners : Owners
no_owners = record { owners = []; shared = [] }

unfoldable pub finish : Parser → List Collection
finish p =
    let ins = claims 0 (inputs p.reports) no_owners in
    let outs = claims 0 (outputs p.reports) no_owners in
    finish_each p.invalid_layout ins outs 0 p.reports p.result

unfoldable pub parse : Bytes → Result Invalid (List Collection)
parse data_bytes = do
  reject_if (length data_bytes == 0 || ltb max_descriptor_size (length data_bytes)) descriptor_size
  p ← items (length data_bytes) data_bytes new_parser
  reject_if (not (length p.collections == 0) || not (length p.stack == 0)) unbalanced
  ok (finish p)
