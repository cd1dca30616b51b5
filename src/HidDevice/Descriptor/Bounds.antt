-- ===== src/HidDevice/Descriptor/Bounds.antt =====
-- What the parser's limits bound.
use fido_go.Base.{
  ℕ, zero, suc, ◌*◌, ◌/◌, ◌%◌, ◌≤◌, ◌≡◌, refl, sym, ap, ◌∙◌, inl, inr, ◌||◌, Option, none, some,
  List, [], ◌∷◌, arith, ◌==◌, Bool-cases, length, length-append, Result-cases, >>=-eq-ok, ok,
}
use fido_go.HidDevice.Descriptor.{
  Reports, Parser, grow, grow_input, grow_output, global_item, pop_global, local_item,
  begin_collection, end_collection, application, report_item, main_step, main_item, item, current,
  clear_locals,
}

-- At most 256 collections, each with its reports, and stacks of at most 32.
pub record Bounded (p : Parser) : Type 0 where
  pub collections_fit : length p.result ≤ 256
  pub reports_match : length p.reports ≡ length p.result
  pub depth_fits : length p.collections ≤ 32
  pub stack_fits : length p.stack ≤ 32

length-grow_input :
    (i id bits : ℕ) (rs ss : List Reports) → grow_input i id bits rs ≡ ok ss → length ss ≡ length rs
unfolding grow_input
length-grow_input i id bits [] ss h = ground (arith, h)
length-grow_input zero id bits (r ∷ rs) ss h =
    let (m, _, e) = >>=-eq-ok (grow id bits r.input) (λ m. ok (record r { input = m } ∷ rs)) h in
    ground (arith, e)
length-grow_input (suc i) id bits (r ∷ rs) ss h =
    let (m, g, e) = >>=-eq-ok (grow_input i id bits rs) (λ m. ok (r ∷ m)) h in
    ground (arith, e, length-grow_input i id bits rs m g)

length-grow_output :
    (i id bits : ℕ) (rs ss : List Reports)
    → grow_output i id bits rs ≡ ok ss
    → length ss ≡ length rs
unfolding grow_output
length-grow_output i id bits [] ss h = ground (arith, h)
length-grow_output zero id bits (r ∷ rs) ss h =
    let (m, _, e) = >>=-eq-ok (grow id bits r.output) (λ m. ok (record r { output = m } ∷ rs)) h in
    ground (arith, e)
length-grow_output (suc i) id bits (r ∷ rs) ss h =
    let (m, g, e) = >>=-eq-ok (grow_output i id bits rs) (λ m. ok (r ∷ m)) h in
    ground (arith, e, length-grow_output i id bits rs m g)

global_item-Bounded :
    (tag value : ℕ) (p q : Parser) → Bounded p → global_item tag value p ≡ ok q → Bounded q
unfolding global_item pop_global
global_item-Bounded tag value p q b h = record {
  collections_fit = ground (arith, h, b.collections_fit);
  reports_match = ground (arith, h, b.reports_match);
  depth_fits = ground (arith, h, b.depth_fits);
  stack_fits = ground (arith, h, b.stack_fits);
}

local_item-Bounded :
    (tag value : ℕ) (p q : Parser) → Bounded p → local_item tag value p ≡ ok q → Bounded q
unfolding local_item
local_item-Bounded tag value p q b h = record {
  collections_fit = ground (arith, h, b.collections_fit);
  reports_match = ground (arith, h, b.reports_match);
  depth_fits = ground (arith, h, b.depth_fits);
  stack_fits = ground (arith, h, b.stack_fits);
}

begin_collection-Bounded :
    (value : ℕ) (p q : Parser) → Bounded p → begin_collection value p ≡ ok q → Bounded q
unfolding begin_collection
begin_collection-Bounded value p q b h = record {
  collections_fit =
      ground (arith, h, b.collections_fit, length-append p.result (application p ∷ []));
  reports_match = ground (
    arith,
    h,
    b.reports_match,
    length-append p.result (application p ∷ []),
    length-append p.reports (record { input = []; output = [] } ∷ []),
  );
  depth_fits = ground (arith, h, b.depth_fits);
  stack_fits = ground (arith, h, b.stack_fits);
}

end_collection-Bounded :
    (cs : List (Option ℕ)) (p q : Parser)
    → Bounded p
    → cs ≡ p.collections
    → end_collection cs p ≡ ok q
    → Bounded q
unfolding end_collection
end_collection-Bounded [] p q b e h = absurd (ground (arith, h))
end_collection-Bounded (c ∷ cs) p q b e h = record {
  collections_fit = ground (arith, h, b.collections_fit);
  reports_match = ground (arith, h, b.reports_match);
  depth_fits = ground (arith, h, ap (length {A = Option ℕ}) e, b.depth_fits);
  stack_fits = ground (arith, h, b.stack_fits);
}

with_reports-Bounded :
    (p : Parser) (reports : List Reports)
    → Bounded p
    → length reports ≡ length p.reports
    → Bounded (record p { reports = reports })
with_reports-Bounded p reports b e = record {
  collections_fit = b.collections_fit;
  reports_match = e ∙ b.reports_match;
  depth_fits = b.depth_fits;
  stack_fits = b.stack_fits;
}

report_item-Bounded :
    (tag : ℕ) (c : Option ℕ) (p q : Parser) → Bounded p → report_item tag c p ≡ ok q → Bounded q
unfolding report_item
report_item-Bounded tag none p q b h = absurd (ground (arith, h))
report_item-Bounded tag (some i) p q b h =
    let bits = p.global.size * p.global.count in
    elim (Bool-cases (tag == 11)) [
      | inl feature ↦ let same : p ≡ q = ground (arith, h, feature) in rw (sym same) b
      | inr plain ↦ elim (Bool-cases (tag == 9)) [
        | inl is_output ↦ elim (Result-cases (grow_output i p.global.id bits p.reports)) [
          | inl (_, refused) ↦ absurd (ground (arith, h, plain, refused, is_output))
          | inr (rs, grown) ↦
              let same : record p { reports = rs } ≡ q =
                ground (arith, h, plain, grown, is_output) in
              rw (sym same) (
                with_reports-Bounded p rs b
                  (length-grow_output i p.global.id bits p.reports rs grown))
        ]
        | inr is_input ↦ elim (Result-cases (grow_input i p.global.id bits p.reports)) [
          | inl (_, refused) ↦ absurd (ground (arith, h, plain, refused, is_input))
          | inr (rs, grown) ↦
              let same : record p { reports = rs } ≡ q =
                ground (arith, h, plain, grown, is_input) in
              rw (sym same) (
                with_reports-Bounded p rs b
                  (length-grow_input i p.global.id bits p.reports rs grown))
        ]
      ]
    ]

clear_locals-Bounded : (p : Parser) → Bounded p → Bounded (clear_locals p)
clear_locals-Bounded p b = record {
  collections_fit = b.collections_fit;
  reports_match = b.reports_match;
  depth_fits = b.depth_fits;
  stack_fits = b.stack_fits;
}

main_step-Bounded :
    (tag value : ℕ) (p q : Parser) → Bounded p → main_step tag value p ≡ ok q → Bounded q
unfolding main_step
main_step-Bounded tag value p q b h = elim (Bool-cases (tag == 10)) [
  | inl opens ↦ begin_collection-Bounded value p q b (ground (arith, h, opens))
  | inr not_open ↦ elim (Bool-cases (tag == 12)) [
    | inl closes ↦
        end_collection-Bounded p.collections p q b refl (ground (arith, h, not_open, closes))
    | inr not_close ↦ elim (Bool-cases (tag == 8 || (tag == 9 || tag == 11))) [
      | inl reports ↦
          report_item-Bounded tag (current p.collections) p q b
            (ground (arith, h, not_open, not_close, reports))
      | inr other ↦
          let same : p ≡ q = ground (arith, h, not_open, not_close, other) in rw (sym same) b
    ]
  ]
]

-- A main item keeps the parser within its limits.
main_item-Bounded :
    (tag value : ℕ) (p q : Parser) → Bounded p → main_item tag value p ≡ ok q → Bounded q
unfolding main_item main_step
main_item-Bounded tag value p q b h =
    let (m, step, e) = >>=-eq-ok (main_step tag value p) (λ m. ok (clear_locals m)) h in
    let same : clear_locals m ≡ q = ground (arith, e) in
    rw (sym same) (clear_locals-Bounded m (main_step-Bounded tag value p m b step))

-- Any item that is accepted keeps the parser within its limits.
pub item-Bounded :
    (prefix value : ℕ) (p q : Parser) → Bounded p → item prefix value p ≡ ok q → Bounded q
unfolding item
item-Bounded prefix value p q b h = elim (Bool-cases (prefix / 4 % 4 == 0)) [
  | inl main ↦ main_item-Bounded (prefix / 16) value p q b (ground (arith, h, main))
  | inr a ↦ elim (Bool-cases (prefix / 4 % 4 == 1)) [
    | inl global ↦ global_item-Bounded (prefix / 16) value p q b (ground (arith, h, a, global))
    | inr c ↦ elim (Bool-cases (prefix / 4 % 4 == 2)) [
      | inl local ↦ local_item-Bounded (prefix / 16) value p q b (ground (arith, h, a, c, local))
      | inr d ↦ absurd (ground (arith, h, a, c, d))
    ]
  ]
]
