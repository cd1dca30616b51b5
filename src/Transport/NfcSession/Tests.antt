-- ===== src/Transport/NfcSession/Tests.antt =====
-- Runs of an exchange with chunks of 3 bytes.
use fido_go.Base.{ℕ, ◌≡◌, refl, List, [], ◌∷◌, ◌++◌, arith, Bytes, ok}
use fido_go.Wire.Nfc.Chain.{IsChain, chain_data}
use fido_go.Wire.Nfc.{
  Codec, fragment, chain, command_packet, validate_interim_response, status_error,
}
use fido_go.Transport.NfcSession.Delivery.{exchange-delivers, interim, parts, requests}
use fido_go.Transport.NfcSession.{finished, failed, validate_chain, exchange, send}

abbrev codec : Codec
codec = record {
  class = 0x80;
  instruction = 0x10;
  parameter1 = 0;
  parameter2 = 0;
  max_chunk_size = 3;
}

-- A refused packet of the chain ends the exchange before the next one is sent.
refused : exchange {E = ℕ} codec (1 ∷ 2 ∷ 3 ∷ 4 ∷ []) (ok (0x6a ∷ 0x80 ∷ []) ∷ []) ≡ (
  (0x90 ∷ 0x10 ∷ 0 ∷ 0 ∷ 3 ∷ 1 ∷ 2 ∷ 3 ∷ []) ∷ [],
  failed (validate_chain (status_error 0x6a 0x80)),
)
unfolding exchange send fragment chain command_packet validate_interim_response
refused = refl

exchange-delivers_example :
    (packets : List Bytes) × IsChain codec packets
    × (chain_data packets ≡ 1 ∷ 2 ∷ 3 ∷ 4 ∷ [])
    × (exchange {E = ℕ} codec
          (1 ∷ 2 ∷ 3 ∷ 4 ∷ [])
          (interim packets (parts ((7 ∷ [], 2) ∷ []) (8 ∷ 9 ∷ [])))
        ≡ (packets ++ requests codec ((7 ∷ [], 2) ∷ []), finished (7 ∷ 8 ∷ 9 ∷ [])))
exchange-delivers_example =
    exchange-delivers codec (1 ∷ 2 ∷ 3 ∷ 4 ∷ []) ((7 ∷ [], 2) ∷ []) (8 ∷ 9 ∷ [])
      (record { chunk_pos = omega arith; chunk_fits = omega arith })
