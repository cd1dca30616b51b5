-- ===== src/Wire/Nfc/Response.antt =====
-- Reassembly of a response that arrives in parts.
use fido_go.Base.{
  ℕ, ◌-◌, ◌≡◌, refl, true, false, ◌&&◌, [], ◌∷◌, ◌++◌, arith, ◌==◌, if◌then◌else◌, le→not_ltb,
  length, length-append, take-append, Bytes, byte_at-append, byte_at_end, ok, err,
}
use fido_go.Wire.Nfc.{Assembler, status_error, add}

-- A body with its status word.
abbrev pub response : Bytes → ℕ → ℕ → Bytes
response body sw1 sw2 = body ++ (sw1 ∷ sw2 ∷ [])

-- The body of every response of two bytes or more is kept, also where the status word is refused.
-- 0x9000 ends the message, 0x61xx announces xx more bytes, and any other status is an error that
-- carries it.
pub add-response :
    (a : Assembler) (body : Bytes) (sw1 sw2 : ℕ)
    → add a (response body sw1 sw2) ≡ (
        if sw1 == 0x90 && sw2 == 0
        then (record { done = true; buffer = a.buffer ++ body; more_data_hint = 0 }, ok tt)
        else if sw1 == 0x61
        then (record { done = false; buffer = a.buffer ++ body; more_data_hint = sw2 }, ok tt)
        else (record a { buffer = a.buffer ++ body }, err (status_error sw1 sw2)))
unfolding add
add-response a body sw1 sw2 =
    let status : Bytes = sw1 ∷ sw2 ∷ [] in
    let size : length (body ++ status) - 2 ≡ length body =
      omega (arith, length-append body status) in
    rw (
      size,
      byte_at-append body status 1,
      byte_at_end body status,
      take-append (length body) body status refl,
      le→not_ltb (length (body ++ status)) 2 (omega (arith, length-append body status)),
    )
