-- ===== src/Transport/Usb/Packets/Shorter.antt =====
-- A message that is read leaves fewer answers.
use fido_go.Base.{ℕ, ◌<◌, ◌≡◌, refl, ◌⊎◌, inl, inr, some, List, arith, length, Bytes, ok}
use fido_go.Transport.Usb.Reader.{
  ReadError, Answer, Outcome, message, failed, waiting, read_hid_message,
}
use fido_go.Transport.Usb.Reader.Shorter.{read_hid_message-shorter}
use fido_go.Transport.Usb.State.{Progress, State, Step}
use fido_go.Transport.Usb.Packets.{read_message}

Outcome-cases :
    {E : Type 0} (o : Outcome E)
    → ((body : Bytes) × (rest : List (Answer E)) × (o ≡ message body rest))
      ⊎ (((e : ReadError E) × (rest : List (Answer E)) × (o ≡ failed e rest)) ⊎ (o ≡ waiting))
Outcome-cases (message body rest) = inl (body, rest, refl)
Outcome-cases (failed e rest) = inr (inl (e, rest, refl))
Outcome-cases waiting = inr (inr refl)

pub read_message-shorter :
    {E : Type 0} (mark : Progress → Progress) (channel command : ℕ) (s : State E)
    (step : Step E Bytes) (response : Bytes)
    → read_message mark channel command s ≡ some step
    → step.result ≡ ok response
    → length step.state.reads < length s.reads
unfolding read_message
read_message-shorter mark channel command s step response h r =
    let o = read_hid_message s.report_size channel command s.reads in
    elim (Outcome-cases o) [
      | inl (body, rest, e) ↦
          let shorter =
            read_hid_message-shorter s.report_size channel command s.reads body rest e in
          let left : step.state.reads ≡ rest = ground (arith, h, e) in rw left shorter
      | inr (inl (_, _, e)) ↦ absurd (ground (arith, h, r, e))
      | inr (inr e) ↦ absurd (ground (arith, h, r, e))
    ]
