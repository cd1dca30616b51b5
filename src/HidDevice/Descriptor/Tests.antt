-- ===== src/HidDevice/Descriptor/Tests.antt =====
-- The report descriptor of a FIDO device: usage page 0xf1d0, usage 1, reports of 64 bytes.
use fido_go.Base.{◌≤◌, ◌≡◌, refl, ◌↔◌, true, [], ◌∷◌, length, Bytes, ok}
use fido_go.HidDevice.Descriptor.{
  Collection, item, items, item_size, little_endian, local_item, global_item, pop_global, main_item,
  main_step, begin_collection, end_collection, report_item, grow, grow_input, grow_output, bits_of,
  add_bits, application, usage_of, current,
}
use fido_go.HidDevice.Descriptor.Layout.{
  parse, finish, finish_each, finish_collection, claims, claim, claim_each, owner_of, contains,
  spec_of, has_empty, mixes, unsupported, inputs, outputs,
}
use fido_go.HidDevice.Descriptor.Items.{length-parse}
use fido_go.HidDevice.Descriptor.Grammar.{Accepted, parse-Accepted_iff}

abbrev fido_descriptor : Bytes
fido_descriptor =
    0x06 ∷ 0xd0 ∷ 0xf1 ∷ 0x09 ∷ 0x01 ∷ 0xa1 ∷ 0x01 ∷ 0x09 ∷ 0x20 ∷ 0x15 ∷ 0x00 ∷ 0x26 ∷ 0xff ∷ 0x00
    ∷ 0x75 ∷ 0x08 ∷ 0x95 ∷ 0x40 ∷ 0x81 ∷ 0x02 ∷ 0x09 ∷ 0x21 ∷ 0x15 ∷ 0x00 ∷ 0x26 ∷ 0xff ∷ 0x00
    ∷ 0x75 ∷ 0x08 ∷ 0x95 ∷ 0x40 ∷ 0x91 ∷ 0x02 ∷ 0xc0 ∷ []

abbrev fido_collection : Collection
fido_collection = record {
  index = 0;
  usage_page = 0xf1d0;
  usage_id = 1;
  input = record { id = 0; size = 64 };
  output = record { id = 0; size = 64 };
  supported = true;
}

parse-fido : parse fido_descriptor ≡ ok (fido_collection ∷ [])
unfolding parse finish finish_each finish_collection claims claim claim_each owner_of contains
    spec_of has_empty mixes unsupported inputs outputs items item item_size little_endian local_item
    global_item pop_global main_item main_step begin_collection end_collection report_item grow
    grow_input grow_output bits_of add_bits application usage_of current
parse-fido = refl

length-parse_example : length (fido_collection ∷ []) ≤ 256
length-parse_example = length-parse fido_descriptor (fido_collection ∷ []) parse-fido

parse-Accepted_iff_example :
    (parse fido_descriptor ≡ ok (fido_collection ∷ []))
    ↔ Accepted fido_descriptor (fido_collection ∷ [])
parse-Accepted_iff_example = parse-Accepted_iff fido_descriptor (fido_collection ∷ [])
