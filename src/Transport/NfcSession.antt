-- ===== src/Transport/NfcSession.antt =====
-- `Session.Exchange` of pkg/transport/nfc/backend.go. The transceiver enters as the list of its
-- answers, in order; where the list ends the call still waits. The session's mutex makes an
-- exchange one uninterrupted run.
mod Tests
pub mod Delivery
use fido_go.Base.{true, false, List, [], ◌∷◌, ◌++◌, Bytes, Result, err, ok}
use fido_go.Wire.Nfc.{
  Codec, Assembler, fragment, new_assembler, validate_interim_response, get_response_packet, add,
  payload,
}
use fido_go.Wire.Nfc

-- The operation named by `transport.Wrap`, with the cause; `E` is the transceiver's error.
pub data Failure (E : Type 0) : Type 0 where
  fragment_request : Nfc.Error → Failure E
  transceive : E → Failure E
  validate_chain : Nfc.Error → Failure E
  continue_response : E → Failure E
  reassemble : Nfc.Error → Failure E

pub data Outcome (E : Type 0) : Type 0 where
  finished : Bytes → Outcome E
  failed : Failure E → Outcome E
  waiting : Outcome E

-- The packets sent, and how the call ended.
abbrev Trace : Type 0 → Type 0
Trace E = List Bytes × Outcome E

abbrev pub Answer : Type 0 → Type 0
Answer E = Result E Bytes

module _ {E : Type 0} where
  pub finish : Assembler → Outcome E
  finish a = elim (payload a) [ ok body ↦ finished body | err e ↦ failed (reassemble e) ]

  -- `for !assembler.Done()`
  pub receive : Codec → Assembler → List Bytes → List (Answer E) → Trace E
  receive codec a sent [] =
      let asked = get_response_packet codec a.more_data_hint in
      elim a.done [ true ↦ (sent, finish a) | false ↦ (sent ++ asked ∷ [], waiting) ]
  receive codec a sent (err e ∷ answers) =
      let asked = get_response_packet codec a.more_data_hint in
      elim a.done [
        | true ↦ (sent, finish a)
        | false ↦ (sent ++ asked ∷ [], failed (continue_response e))
      ]
  receive codec a sent (ok response ∷ answers) =
      let asked = get_response_packet codec a.more_data_hint in
      let rest = receive codec (add a response).0 (sent ++ asked ∷ []) answers in
      elim a.done [
        | true ↦ (sent, finish a)
        | false ↦ elim (add a response).1 [
          | ok _ ↦ rest
          | err e ↦ (sent ++ asked ∷ [], failed (reassemble e))
        ]
      ]

  -- `for index, packet := range packets`; the last packet's answer goes to the assembler.
  pub send : Codec → Assembler → List Bytes → List Bytes → List (Answer E) → Trace E
  send codec a sent [] answers = receive codec a sent answers
  send codec a sent (p ∷ ps) [] = (sent ++ p ∷ [], waiting)
  send codec a sent (p ∷ ps) (err e ∷ answers) = (sent ++ p ∷ [], failed (transceive e))
  send codec a sent (p ∷ []) (ok response ∷ answers) = elim (add a response).1 [
    | ok _ ↦ receive codec (add a response).0 (sent ++ p ∷ []) answers
    | err e ↦ (sent ++ p ∷ [], failed (reassemble e))
  ]
  send codec a sent (p ∷ q ∷ ps) (ok response ∷ answers) =
      let rest = send codec a (sent ++ p ∷ []) (q ∷ ps) answers in
      elim (validate_interim_response response) [
        | ok _ ↦ rest
        | err e ↦ (sent ++ p ∷ [], failed (validate_chain e))
      ]

  pub exchange : Codec → Bytes → List (Answer E) → Trace E
  exchange codec req answers = elim (fragment codec req) [
    | ok packets ↦ send codec new_assembler [] packets answers
    | err e ↦ ([], failed (fragment_request e))
  ]
