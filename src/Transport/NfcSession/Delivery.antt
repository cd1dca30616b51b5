-- ===== src/Transport/NfcSession/Delivery.antt =====
-- An exchange sends the whole command chain and returns the whole response.
use fido_go.Base.{ℕ, ◌≡◌, ◌∙◌, false, List, [], ◌∷◌, ◌++◌, append_assoc, arith, Bytes, ok}
use fido_go.Wire.Nfc.Chain.{IsValid, IsChain, chain_data, fragment-IsChain}
use fido_go.Wire.Nfc.Response.{response, add-response}
use fido_go.Wire.Nfc.{
  Codec, Assembler, fragment, new_assembler, validate_interim_response, get_response_packet,
  payload,
}
use fido_go.Transport.NfcSession.{Answer, finished, finish, receive, send, exchange}

module _ {E : Type 0} where
  -- The authenticator's answers: parts with the hint of what is left, and the last part.
  abbrev pub parts : List (Bytes × ℕ) → Bytes → List (Answer E)
  parts [] last = ok (response last 0x90 0) ∷ []
  parts ((body, hint) ∷ more) last = ok (response body 0x61 hint) ∷ parts more last

  -- 0x9000 to each packet of a chain but its last.
  abbrev pub interim : List Bytes → List (Answer E) → List (Answer E)
  interim [] rest = rest
  interim (p ∷ []) rest = rest
  interim (p ∷ q ∷ ps) rest = ok (0x90 ∷ 0 ∷ []) ∷ interim (q ∷ ps) rest

abbrev bodies : List (Bytes × ℕ) → Bytes → Bytes
bodies [] last = last
bodies ((body, hint) ∷ more) last = body ++ bodies more last

-- One GET RESPONSE for each hint.
abbrev pub requests : Codec → List (Bytes × ℕ) → List Bytes
requests c [] = []
requests c ((body, hint) ∷ more) = get_response_packet c hint ∷ requests c more

-- The assembler that waits for more, with `hint` bytes announced.
abbrev open_at : Bytes → ℕ → Assembler
open_at buffer hint = record { done = false; buffer = buffer; more_data_hint = hint }

receive-parts :
    {E : Type 0} (c : Codec) (buffer : Bytes) (hint : ℕ) (sent : List Bytes)
    (more : List (Bytes × ℕ)) (last : Bytes)
    → receive {E = E} c (open_at buffer hint) sent (parts more last) ≡ (
      sent ++ (get_response_packet c hint ∷ requests c more),
      finished (buffer ++ bodies more last),
    )
unfolding receive finish payload
receive-parts c buffer hint sent [] last =
    ground (arith, add-response (open_at buffer hint) last 0x90 0)
receive-parts {E} c buffer hint sent ((body, next) ∷ more) last =
    let asked : List Bytes = get_response_packet c hint ∷ [] in
    ground (
      arith,
      add-response (open_at buffer hint) body 0x61 next,
      receive-parts {E = E} c (buffer ++ body) next (sent ++ asked) more last,
      append_assoc buffer body (bodies more last),
      append_assoc sent asked (get_response_packet c next ∷ requests c more),
    )

-- All packets of the chain but the last are only to be acknowledged.
send-parts :
    {E : Type 0} (c : Codec) (sent : List Bytes) (p : Bytes) (ps : List Bytes)
    (more : List (Bytes × ℕ)) (last : Bytes)
    → send {E = E} c new_assembler sent (p ∷ ps) (interim (p ∷ ps) (parts more last))
      ≡ (sent ++ ((p ∷ ps) ++ requests c more), finished (bodies more last))
unfolding send receive finish payload new_assembler validate_interim_response
send-parts c sent p [] [] last = ground (arith, add-response (open_at [] 0) last 0x90 0)
send-parts {E} c sent p [] ((body, hint) ∷ more) last = ground (
  arith,
  add-response (open_at [] 0) body 0x61 hint,
  receive-parts {E = E} c body hint (sent ++ p ∷ []) more last,
  append_assoc sent (p ∷ []) (get_response_packet c hint ∷ requests c more),
)
send-parts c sent p (q ∷ ps) more last =
    send-parts c (sent ++ p ∷ []) q ps more last ∙ simp append_assoc

-- When the authenticator acknowledges the chain and answers in parts, the exchange sends a command
-- chain that carries the request, then one GET RESPONSE for each announcement with its byte count,
-- and returns the parts' bodies in order.
pub exchange-delivers :
    {E : Type 0} (c : Codec) (request : Bytes) (more : List (Bytes × ℕ)) (last : Bytes)
    → IsValid c
    → (packets : List Bytes) × IsChain c packets
      × (chain_data packets ≡ request)
      × (exchange {E = E} c request (interim packets (parts more last))
          ≡ (packets ++ requests c more, finished (bodies more last)))
unfolding exchange
exchange-delivers {E} c request more last v = go (fragment-IsChain c request v)
  where
    go :
        (packets : List Bytes) × (fragment c request ≡ ok packets)
          × IsChain c packets
          × (chain_data packets ≡ request)
        → (packets : List Bytes) × IsChain c packets
          × (chain_data packets ≡ request)
          × (exchange {E = E} c request (interim packets (parts more last))
              ≡ (packets ++ requests c more, finished (bodies more last)))
    go ([], e, chained, carries) = absurd chained
    go (p ∷ ps, e, chained, carries) =
        (p ∷ ps, chained, carries, rw (e, exchange) (send-parts c [] p ps more last))
