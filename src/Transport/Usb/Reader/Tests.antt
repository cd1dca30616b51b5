-- ===== src/Transport/Usb/Reader/Tests.antt =====
-- A stream with reports of another channel, a keepalive and a response in two packets.
use fido_go.Base.{ℕ, ◌≡◌, refl, List, [], ◌∷◌, arith, Bytes, ok, err}
use fido_go.Wire.Hid.RoundTrip.{IsValid}
use fido_go.Wire.Hid.{
  Codec, fragment, max_payload_size, initial_packet, continuation_packet, continuations,
}
use fido_go.Transport.Usb.Reader.Quiet.{Quiet, quiet, keepalive}
use fido_go.Transport.Usb.Reader.Response.{read_hid_message-delivers, read_hid_message-device_error}
use fido_go.Transport.Usb.Reader.Stream.{Arrives, arrived, packet, foreign}
use fido_go.Transport.Usb.Reader.{Answer, message, failed, device, is_foreign, read_hid_message}

abbrev codec : Codec
codec = record { channel = 0x01020304; command = 0x90; report_size = 9 }

codec-IsValid : IsValid codec
codec-IsValid = record {
  report_size_fits = omega arith;
  command_bit = λ e. cc;
  channel_fits = omega arith;
  command_fits = omega arith;
}

abbrev other : Bytes
other = 9 ∷ 9 ∷ 9 ∷ 9 ∷ 0x90 ∷ 0 ∷ 1 ∷ 5 ∷ 0 ∷ []

abbrev status : Bytes
status = 1 ∷ 2 ∷ 3 ∷ 4 ∷ 0xbb ∷ 0 ∷ 1 ∷ 2 ∷ 0 ∷ []

abbrev first : Bytes
first = 1 ∷ 2 ∷ 3 ∷ 4 ∷ 0x90 ∷ 0 ∷ 4 ∷ 10 ∷ 11 ∷ []

abbrev second : Bytes
second = 1 ∷ 2 ∷ 3 ∷ 4 ∷ 0 ∷ 12 ∷ 13 ∷ 0 ∷ 0 ∷ []

abbrev failure : Bytes
failure = 1 ∷ 2 ∷ 3 ∷ 4 ∷ 0xbf ∷ 0 ∷ 1 ∷ 6 ∷ 0 ∷ []

abbrev later : List (Answer ℕ)
later = err 7 ∷ []

abbrev response_stream : List (Answer ℕ)
response_stream = ok first ∷ ok other ∷ ok second ∷ later

abbrev failure_stream : List (Answer ℕ)
failure_stream = ok failure ∷ later

after_keepalive : (tail : List (Answer ℕ)) → Quiet codec tail (ok other ∷ ok status ∷ tail)
unfolding fragment max_payload_size initial_packet continuation_packet continuations is_foreign
after_keepalive tail =
    keepalive (2 ∷ []) (status ∷ []) (omega arith) (omega arith) refl
      (foreign refl (packet refl arrived)) quiet

response-Arrives : Arrives codec later (first ∷ second ∷ []) response_stream
unfolding is_foreign
response-Arrives = packet refl (foreign refl (packet refl arrived))

failure-Arrives : Arrives codec later (failure ∷ []) failure_stream
unfolding is_foreign
failure-Arrives = packet refl arrived

read_hid_message-delivers_example :
    read_hid_message 9 0x01020304 0x90 (ok other ∷ ok status ∷ response_stream)
    ≡ message (10 ∷ 11 ∷ 12 ∷ 13 ∷ []) later
unfolding fragment max_payload_size initial_packet continuation_packet continuations
read_hid_message-delivers_example =
    read_hid_message-delivers codec codec-IsValid (10 ∷ 11 ∷ 12 ∷ 13 ∷ []) (first ∷ second ∷ [])
      (omega arith) (omega arith) (omega arith) (omega arith) refl (after_keepalive response_stream)
      response-Arrives

read_hid_message-device_error_example :
    read_hid_message 9 0x01020304 0x90 (ok other ∷ ok status ∷ failure_stream)
    ≡ failed (device 6) later
unfolding fragment max_payload_size initial_packet continuation_packet continuations
read_hid_message-device_error_example =
    read_hid_message-device_error codec codec-IsValid 6 (failure ∷ []) refl
      (after_keepalive failure_stream) failure-Arrives
