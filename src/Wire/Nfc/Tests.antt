-- ===== src/Wire/Nfc/Tests.antt =====
-- Runs of the codec with chunks of 3 bytes, and its theorems at such inputs.
use fido_go.Base.{◌≡◌, refl, false, List, [], ◌∷◌, arith, Bytes, ok, err}
use fido_go.Wire.Nfc.Chain.{IsValid, IsChain, chain_data, fragment-IsChain}
use fido_go.Wire.Nfc.Response.{add-response}
use fido_go.Wire.Nfc.{
  Codec, invalid_response, status_error, fragment, chain, command_packet, new_assembler, add,
  validate_interim_response,
}

abbrev codec : Codec
codec = record {
  class = 0x80;
  instruction = 0x10;
  parameter1 = 0;
  parameter2 = 0;
  max_chunk_size = 3;
}

codec-IsValid : IsValid codec
codec-IsValid = record { chunk_pos = omega arith; chunk_fits = omega arith }

abbrev message : Bytes
message = 10 ∷ 11 ∷ 12 ∷ 13 ∷ 14 ∷ []

fragment-message :
    fragment codec message
    ≡ ok (
        (0x90 ∷ 0x10 ∷ 0 ∷ 0 ∷ 3 ∷ 10 ∷ 11 ∷ 12 ∷ [])
        ∷ (0x80 ∷ 0x10 ∷ 0 ∷ 0 ∷ 2 ∷ 13 ∷ 14 ∷ [])
        ∷ [])
unfolding fragment chain command_packet
fragment-message = refl

interim :
    (validate_interim_response (0x90 ∷ 0 ∷ []) ≡ ok tt)
    × (validate_interim_response (0x6a ∷ 0x80 ∷ []) ≡ err (status_error 0x6a 0x80))
    × (validate_interim_response (1 ∷ 0x90 ∷ 0 ∷ []) ≡ err invalid_response)
unfolding validate_interim_response
interim = (refl, refl, refl)

fragment-IsChain_example :
    (packets : List Bytes) × (fragment codec message ≡ ok packets)
    × IsChain codec packets
    × (chain_data packets ≡ message)
fragment-IsChain_example = fragment-IsChain codec message codec-IsValid

add-response_example :
    add new_assembler (5 ∷ 6 ∷ 0x61 ∷ 9 ∷ [])
    ≡ (record { done = false; buffer = 5 ∷ 6 ∷ []; more_data_hint = 9 }, ok tt)
unfolding new_assembler
add-response_example = add-response new_assembler (5 ∷ 6 ∷ []) 0x61 9
