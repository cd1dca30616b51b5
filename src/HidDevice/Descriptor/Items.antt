-- ===== src/HidDevice/Descriptor/Items.antt =====
-- The loop over a descriptor's items, and `Parse` as a whole.
use fido_go.Base.{
  ℕ, zero, suc, ◌+◌, ◌≤◌, ◌≡◌, refl, sym, ap, inl, inr, Bool, List, [], ◌∷◌, arith, length, take,
  drop, Bytes, Result-cases, ok,
}
use fido_go.HidDevice.Descriptor.{
  Reports, Collection, Parser, new_parser, item, item_size, items, little_endian,
}
use fido_go.HidDevice.Descriptor.Layout.{Owners, parse, finish, finish_each}
use fido_go.HidDevice.Descriptor.Bounds.{Bounded, item-Bounded}

items-Bounded :
    (n : ℕ) (content : Bytes) (p q : Parser) → Bounded p → items n content p ≡ ok q → Bounded q
unfolding items
items-Bounded zero [] p q b h = let same : p ≡ q = ground (arith, h) in rw (sym same) b
items-Bounded (suc n) [] p q b h = let same : p ≡ q = ground (arith, h) in rw (sym same) b
items-Bounded zero (prefix ∷ rest) p q b h = let same : p ≡ q = ground (arith, h) in rw (sym same) b
items-Bounded (suc n) (prefix ∷ rest) p q b h =
    let size = item_size prefix in
    let value = little_endian (take size rest) in
    elim (Result-cases (item prefix value p)) [
      | inl (_, refused) ↦ absurd (ground (arith, h, refused))
      | inr (m, taken) ↦
          items-Bounded n (drop size rest) m q (item-Bounded prefix value p m b taken)
            (ground (arith, h, taken))
    ]

length-finish_each :
    (invalid : Bool) (ins outs : Owners) (i : ℕ) (rs : List Reports) (cs : List Collection)
    → length rs ≡ length cs
    → length (finish_each invalid ins outs i rs cs) ≡ length cs
unfolding finish_each
length-finish_each invalid ins outs i [] cs e = refl
length-finish_each invalid ins outs i (r ∷ rs) [] e = absurd (omega arith)
length-finish_each invalid ins outs i (r ∷ rs) (c ∷ cs) e =
    ap suc (length-finish_each invalid ins outs (i + 1) rs cs (omega arith))

length-finish : (p : Parser) → Bounded p → length (finish p) ≡ length p.result
unfolding finish
length-finish p b = length-finish_each _ _ _ 0 p.reports p.result b.reports_match

new_parser-Bounded : Bounded new_parser
new_parser-Bounded = record {
  collections_fit = omega arith;
  reports_match = refl;
  depth_fits = omega arith;
  stack_fits = omega arith;
}

-- A descriptor that is accepted has at most 256 top-level Application collections, whatever its bytes.
pub length-parse :
    (content : Bytes) (cs : List Collection) → parse content ≡ ok cs → length cs ≤ 256
unfolding parse
length-parse content cs h = elim (Result-cases (items (length content) content new_parser)) [
  | inl (_, refused) ↦ absurd (ground (arith, h, refused))
  | inr (p, read) ↦
      let b = items-Bounded (length content) content new_parser p new_parser-Bounded read in
      let done : finish p ≡ cs = ground (arith, h, read) in
      rw (sym done) (omega (arith, b.collections_fit, length-finish p b))
]
