-- ===== src/Transport/Usb/Handshake/Tests.antt =====
-- A handshake over reports of 64 bytes: a response for another client, then the channel 0x01020304.
use fido_go.Base.{ℕ, ◌≡◌, refl, false, none, some, [], ◌∷◌, ◌++◌, replicate, Bytes, equal_bytes, ok}
use fido_go.Wire.Hid.{
  new_codec, fragment, max_payload_size, initial_packet, continuation_packet, continuations, add,
  add_first, payload, new_assembler,
}
use fido_go.Transport.Usb.Reader.{
  read_hid_message, read_first, is_foreign, is_hid_command_packet, start, finish_message,
}
use fido_go.Transport.Usb.State.{State, written, completed, new_progress, stage_init, stage_ping}
use fido_go.Transport.Usb.Packets.{
  packets_for, write_packets, exchange_hid_message, record_outcome, write_message, read_message,
  calls_back, write_result, is_completed, is_unknown,
}
use fido_go.Transport.Usb.Handshake.{await_init, await_init_response, exchange_init, handshake}
use fido_go.Transport.Usb.Handshake.Allocated.{Allocated, handshake-Allocated}

abbrev nonce : Bytes
nonce = 1 ∷ 2 ∷ 3 ∷ 4 ∷ 5 ∷ 6 ∷ 7 ∷ 8 ∷ []

abbrev init_packet : Bytes → Bytes
init_packet of_nonce =
    0xff
    ∷ 0xff
    ∷ 0xff
    ∷ 0xff
    ∷ 0x86
    ∷ 0
    ∷ 17
    ∷ (of_nonce ++ (1 ∷ 2 ∷ 3 ∷ 4 ∷ 2 ∷ 5 ∷ 0 ∷ 0 ∷ 5 ∷ replicate 40 0))

abbrev echo_packet : Bytes
echo_packet = 1 ∷ 2 ∷ 3 ∷ 4 ∷ 0x81 ∷ replicate 59 0

abbrev before : State ℕ
before = record {
  report_size = 64;
  channel_id = 0;
  closing = false;
  progress = new_progress stage_init;
  sent = [];
  writes = written completed none ∷ written completed none ∷ [];
  reads = ok (init_packet (replicate 8 9)) ∷ ok (init_packet nonce) ∷ ok echo_packet ∷ [];
}

abbrev after : State ℕ
after = record before {
  progress = record (new_progress stage_ping) { packets = 1; outcome = completed };
  sent = (0xff ∷ 0xff ∷ 0xff ∷ 0xff ∷ 0x86 ∷ 0 ∷ 8 ∷ (nonce ++ replicate 49 0)) ∷ echo_packet ∷ [];
  writes = [];
  reads = [];
}

handshake-before :
    handshake (ok nonce) before ≡ some (record { result = ok 0x01020304; state = after })
unfolding read_message calls_back read_hid_message read_first exchange_hid_message write_message
    write_packets write_result record_outcome is_completed is_unknown packets_for fragment
    max_payload_size initial_packet continuation_packet continuations new_codec handshake
    exchange_init await_init_response await_init equal_bytes is_foreign is_hid_command_packet start
    finish_message add add_first payload new_assembler
handshake-before = refl

handshake-Allocated_example : Allocated nonce 0x01020304 before after
handshake-Allocated_example = handshake-Allocated nonce before after 0x01020304 handshake-before
