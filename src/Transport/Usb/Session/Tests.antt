-- ===== src/Transport/Usb/Session/Tests.antt =====
-- Exchanges of one session: a request in one packet, a keepalive and a response in two packets; a
-- read that fails; and a session that is closing.
use fido_go.Base.{
  ℕ, ◌<◌, ◌≡◌, refl, true, false, none, some, List, [], ◌∷◌, arith, take, replicate, Bytes, err, ok,
}
use fido_go.Wire.Hid.{
  new_codec, fragment, max_payload_size, initial_packet, continuation_packet, continuations,
}
use fido_go.Transport.Usb.Reader.{read_failed, read_hid_message, read_first, Answer, is_foreign}
use fido_go.Transport.Usb.Reader.Quiet.{quiet, keepalive}
use fido_go.Transport.Usb.Reader.Stream.{arrived, packet}
use fido_go.Transport.Usb.State.{
  Fault, State, CallError, native, WriteRound, written, completed, new_progress, stage_init,
  stage_request, stage_response, reading,
}
use fido_go.Transport.Usb.Packets.{
  packets_for, write_packets, exchange_hid_message, record_outcome, write_message, read_message,
  calls_back, write_result, is_completed, is_unknown,
}
use fido_go.Transport.Usb.Packets.Once.{Sent}
use fido_go.Transport.Usb.Packets.Delivery.{after_writes, all_completed}
use fido_go.Transport.Usb.Commands.{hid_command_for_request, is_ctap1_apdu}
use fido_go.Transport.Usb.Handshake.{Round, ensure_channel, initialize_channel}
use fido_go.Transport.Usb.Handshake.Retries.{initialize_channel-take}
use fido_go.Transport.Usb.Session.{
  Admission, Exchanged, transact, conclude, hid_call_error, retire, wrap, is_device_error, exchange,
  exchange_request, exchange_failed, rejected, responding,
}
use fido_go.Transport.Usb.Session.Delivery.{request_codec, Ready, exchange_request-delivers}
use fido_go.Transport.Usb.Session.Retirement.{exchange-retires, exchange-closing, exchange-Sent}

abbrev status : Bytes
status = 1 ∷ 2 ∷ 3 ∷ 4 ∷ 0xbb ∷ 0 ∷ 1 ∷ 2 ∷ 0 ∷ []

abbrev request : Bytes
request = 1 ∷ 2 ∷ 3 ∷ 4 ∷ 0x90 ∷ 0 ∷ 1 ∷ 4 ∷ 0 ∷ []

abbrev first : Bytes
first = 1 ∷ 2 ∷ 3 ∷ 4 ∷ 0x90 ∷ 0 ∷ 4 ∷ 10 ∷ 11 ∷ []

abbrev second : Bytes
second = 1 ∷ 2 ∷ 3 ∷ 4 ∷ 0 ∷ 12 ∷ 13 ∷ 0 ∷ 0 ∷ []

abbrev session : List (WriteRound ℕ) → List (Answer (CallError ℕ)) → State ℕ
session writes reads = record {
  report_size = 9;
  channel_id = 0x01020304;
  closing = false;
  progress = new_progress stage_init;
  sent = [];
  writes = writes;
  reads = reads;
}

abbrev healthy : State ℕ
healthy = session (written completed none ∷ []) (ok status ∷ ok first ∷ ok second ∷ [])

abbrev stuck : State ℕ
stuck = session (written completed none ∷ []) (err (native 7) ∷ [])

abbrev admitted : Admission ℕ
admitted = record { lock = none; context = none; late = false; rounds = [] }

healthy-Ready : Ready admitted healthy
healthy-Ready = record {
  report_size_fits = omega arith;
  channel_fits = omega arith;
  has_channel = λ e. omega arith;
  not_closing = refl;
  locked = refl;
  in_time = refl;
}

exchange_request-delivers_example :
    exchange_request admitted (4 ∷ []) healthy
    ≡ some (record {
      result = ok (10 ∷ 11 ∷ 12 ∷ 13 ∷ []);
      state = record healthy {
        progress = responding (after_writes (new_progress stage_request) 1);
        sent = request ∷ [];
        writes = [];
        reads = [];
      };
    })
unfolding fragment max_payload_size initial_packet continuation_packet continuations is_foreign
    request_codec hid_command_for_request is_ctap1_apdu all_completed
exchange_request-delivers_example =
    exchange_request-delivers admitted healthy (4 ∷ []) healthy-Ready (10 ∷ 11 ∷ 12 ∷ 13 ∷ [])
      (request ∷ []) (first ∷ second ∷ []) [] refl refl (omega arith) (omega arith) refl
      (keepalive (2 ∷ []) (status ∷ []) (omega arith) (omega arith) refl (packet refl arrived)
        quiet)
      (packet refl (packet refl arrived))

abbrev stuck_end : Exchanged ℕ
stuck_end = record {
  result = err (
      exchange_failed (record {
        stage = stage_response;
        packets_submitted = 1;
        outcome = completed;
        ambiguous = true;
        cause = reading (read_failed (native 7));
      }));
  state = record stuck {
    closing = true;
    progress = record (new_progress stage_response) { packets = 1; outcome = completed };
    sent = request ∷ [];
    writes = [];
    reads = [];
  };
}

packets_for-request : packets_for 9 0x01020304 0x90 (4 ∷ []) ≡ ok (request ∷ [])
unfolding packets_for fragment max_payload_size initial_packet continuation_packet continuations
    new_codec
packets_for-request = refl

exchange-stuck : exchange admitted 0x90 (4 ∷ []) stuck ≡ some stuck_end
unfolding read_message calls_back read_hid_message read_first exchange transact conclude
    hid_call_error ensure_channel retire wrap is_device_error exchange_hid_message write_message
    write_packets write_result record_outcome is_completed is_unknown packets_for fragment
    max_payload_size initial_packet continuation_packet continuations new_codec
exchange-stuck = refl

exchange-retires_example : (stuck_end.state.closing ≡ true) × (0 < 1 → true ≡ true)
unfolding is_device_error
exchange-retires_example =
    exchange-retires admitted 0x90 (4 ∷ []) stuck stuck_end _ exchange-stuck refl refl

exchange-Sent_example : Sent (request ∷ []) stuck stuck_end.state
exchange-Sent_example =
    exchange-Sent admitted 0x90 (4 ∷ []) (request ∷ []) stuck stuck_end (λ e. omega arith)
      packets_for-request exchange-stuck

exchange-closing_example :
    (e : Fault ℕ) × (exchange admitted 0x90 (4 ∷ []) stuck_end.state
      ≡ some (record { result = err (rejected e); state = stuck_end.state }))
exchange-closing_example = exchange-closing admitted 0x90 (4 ∷ []) stuck_end.state refl

-- An attempt before which the context is done.
abbrev late_round : Round ℕ
late_round = record { before = some 5; nonce = ok []; after = none }

abbrev late_rounds : List (Round ℕ)
late_rounds = replicate 25 late_round

initialize_channel-take_example :
    initialize_channel (take 21 late_rounds) healthy ≡ initialize_channel late_rounds healthy
initialize_channel-take_example = initialize_channel-take late_rounds healthy
