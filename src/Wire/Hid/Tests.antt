-- ===== src/Wire/Hid/Tests.antt =====
-- Runs of the codec on a report size of 9, and its theorems at such inputs.
use fido_go.Base.{
  ◌≤◌, ◌≡◌, refl, true, some, List, [], ◌∷◌, arith, length, take, replicate, Bytes, ◌>>=◌, ok, err,
}
use fido_go.Wire.Hid.Accept.{add_all-payload, declared, packet_data}
use fido_go.Wire.Hid.Order.{IsMessage, fragment-IsMessage}
use fido_go.Wire.Hid.RoundTrip.{IsValid, reassemble-fragment}
use fido_go.Wire.Hid.{
  Codec, Assembler, payload_too_large, invalid_command, invalid_report_size, unexpected_seq,
  mismatched_channel, fragment, new_assembler, add, add_all, payload, max_payload_size,
  initial_packet, continuation_packet, continuations, new_codec,
}

abbrev codec : Codec
codec = record { channel = 0x01020304; command = 0x90; report_size = 9 }

codec-IsValid : IsValid codec
codec-IsValid = record {
  report_size_fits = omega arith;
  command_bit = λ e. cc;
  channel_fits = omega arith;
  command_fits = omega arith;
}

abbrev message : Bytes
message = 10 ∷ 11 ∷ 12 ∷ 13 ∷ 14 ∷ 15 ∷ 16 ∷ []

abbrev packets : List Bytes
packets =
    (1 ∷ 2 ∷ 3 ∷ 4 ∷ 0x90 ∷ 0 ∷ 7 ∷ 10 ∷ 11 ∷ [])
    ∷ (1 ∷ 2 ∷ 3 ∷ 4 ∷ 0 ∷ 12 ∷ 13 ∷ 14 ∷ 15 ∷ [])
    ∷ (1 ∷ 2 ∷ 3 ∷ 4 ∷ 1 ∷ 16 ∷ 0 ∷ 0 ∷ 0 ∷ [])
    ∷ []

fragment-message : fragment codec message ≡ ok packets
unfolding fragment max_payload_size initial_packet continuation_packet continuations
fragment-message = refl

abbrev finished : Assembler
finished = record {
  codec = codec;
  started = true;
  done = true;
  total = some 7;
  next_seq = 2;
  buffer = message;
}

add_all-packets : add_all (new_assembler codec) packets ≡ ok finished
unfolding add_all add new_assembler
add_all-packets = refl

rejections :
    (new_codec 1 0x90 7 ≡ err invalid_report_size)
    × (new_codec 1 0x10 64 ≡ err invalid_command)
    × (fragment codec (replicate 515 0) ≡ err payload_too_large)
    × (add_all (new_assembler codec) ((1 ∷ 2 ∷ 3 ∷ 5 ∷ 0x90 ∷ 0 ∷ 7 ∷ 10 ∷ 11 ∷ []) ∷ [])
        ≡ err mismatched_channel)
    × (add_all (new_assembler codec) (
          (1 ∷ 2 ∷ 3 ∷ 4 ∷ 0x90 ∷ 0 ∷ 7 ∷ 10 ∷ 11 ∷ [])
          ∷ (1 ∷ 2 ∷ 3 ∷ 4 ∷ 1 ∷ 12 ∷ 13 ∷ 14 ∷ 15 ∷ [])
          ∷ [])
        ≡ err unexpected_seq)
unfolding new_codec fragment max_payload_size add_all add new_assembler
rejections = (refl, refl, refl, refl, refl)

reassemble-fragment_example :
    (do ps ← fragment codec message; a ← add_all (new_assembler codec) ps; payload a) ≡ ok message
unfolding max_payload_size
reassemble-fragment_example =
    reassemble-fragment codec message codec-IsValid (omega arith) (omega arith)

fragment-IsMessage_example : IsMessage codec packets × (length packets ≤ 129)
fragment-IsMessage_example = fragment-IsMessage codec message packets codec-IsValid fragment-message

add_all-payload_example :
    IsMessage codec packets
    × (message ≡ take (declared packets) (packet_data packets))
    × (length message ≡ declared packets)
unfolding payload
add_all-payload_example = add_all-payload codec packets finished message add_all-packets refl
