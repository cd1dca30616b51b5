-- ===== src/Transport/Usb/Packets.antt =====
-- The packet calls of a session in pkg/transport/usb: hid_exchange.go, and `writePacket` and
-- `readPacket` of hid_session.go.
pub mod Shorter
pub mod Delivery
pub mod Once
use fido_go.Base.{
  ℕ, ◌+◌, Bool, true, false, not, ◌||◌, Option, none, some, List, [], ◌∷◌, ◌++◌, ◌==◌,
  if◌then◌else◌, length, Bytes, Result, reject_if, err, ok,
}
use fido_go.Transport.Usb.State.{
  WriteOutcome, unknown, not_submitted, completed, Progress, CallError, between_calls, context_done,
  closed, timed_out, native, io, invalid_report, WriteRound, not_written, written, ReadRound,
  not_read, report, fragmenting, writing, reading, State, Action, ◌>>◌, return, fail,
}
use fido_go.Transport.Usb.Reader.{Answer, message, failed, waiting, read_hid_message}
use fido_go.Wire.Hid.{new_codec, fragment}
use fido_go.Wire.Hid

unfoldable pub is_completed : WriteOutcome → Bool
is_completed completed = true
is_completed unknown = false
is_completed not_submitted = false

unfoldable pub is_unknown : WriteOutcome → Bool
is_unknown unknown = true
is_unknown completed = false
is_unknown not_submitted = false

-- What `writePacket` records of a call of `conn.Write`; `session.progress` is set during an exchange.
unfoldable pub record_outcome : Progress → WriteOutcome → Progress
record_outcome p outcome = record p {
  outcome = outcome;
  packets = p.packets + (if is_completed outcome then 1 else 0);
  ambiguous = p.ambiguous || is_unknown outcome;
}

-- `codec.Fragment` of a codec for the channel and the command.
unfoldable pub packets_for : ℕ → ℕ → ℕ → Bytes → Result Hid.Error (List Bytes)
packets_for report_size channel command payload = elim (new_codec channel command report_size) [
  | err e ↦ err e
  | ok c ↦ fragment c payload
]

module _ {E : Type 0} where
  -- `if err == nil && result.Outcome != hid.OutcomeCompleted { err = hid.ErrIO }`
  unfoldable pub write_result : WriteOutcome → Option E → Result (CallError E) (Unit {0})
  write_result outcome (some e) = err (native e)
  write_result outcome none = reject_if (not (is_completed outcome)) io

  -- `readPacketWithTimeout`: a report of another report ID or size is an error.
  pub read_packet : ℕ → ℕ → ReadRound E → Answer (CallError E)
  read_packet input_id report_size (not_read e) = err e
  read_packet input_id report_size (report id packet) =
      if not (id == input_id) || not (length packet == report_size)
      then err invalid_report
      else ok packet

  -- The loop that writes a message's packets.
  unfoldable pub write_packets : List Bytes → List (WriteRound E) → Action E (Unit {0})
  write_packets [] rounds s = return tt (record s { writes = rounds })
  write_packets (p ∷ ps) [] s = none
  write_packets (p ∷ ps) (not_written e ∷ rounds) s =
      fail (writing e) (record s { writes = rounds })
  write_packets (p ∷ ps) (written outcome error ∷ rounds) s =
      let s' : State E = record s {
        sent = s.sent ++ p ∷ [];
        progress = record_outcome s.progress outcome;
      } in
      let rest = write_packets ps rounds s' in
      elim (write_result outcome error) [
        | ok _ ↦ rest
        | err e ↦ fail (writing e) (record s' { writes = rounds })
      ]

  -- The first answer comes from the callback unless the context was done before it.
  unfoldable pub calls_back : List (Answer (CallError E)) → Bool
  calls_back [] = false
  calls_back (err (between_calls e) ∷ answers) = false
  calls_back (err (context_done e) ∷ answers) = true
  calls_back (err closed ∷ answers) = true
  calls_back (err (timed_out late e) ∷ answers) = true
  calls_back (err (native e) ∷ answers) = true
  calls_back (err io ∷ answers) = true
  calls_back (err invalid_report ∷ answers) = true
  calls_back (ok packet ∷ answers) = true

  -- `readHIDMessage` with a callback that first makes the progress `p`.
  unfoldable pub read_message : (Progress → Progress) → ℕ → ℕ → Action E Bytes
  read_message mark channel command s =
      let s' : State E = record s {
        progress = if calls_back s.reads then mark s.progress else s.progress;
      } in
      elim (read_hid_message s.report_size channel command s.reads) [
        | message body rest ↦ return body (record s' { reads = rest })
        | failed e rest ↦ fail (reading e) (record s' { reads = rest })
        | waiting ↦ none
      ]

  unfoldable pub write_message : List Bytes → Action E (Unit {0})
  write_message packets s = write_packets packets s.writes s

  unfoldable pub exchange_hid_message : (Progress → Progress) → ℕ → ℕ → Bytes → Action E Bytes
  exchange_hid_message mark channel command payload s =
      elim (packets_for s.report_size channel command payload) [
        | err e ↦ fail (fragmenting e) s
        | ok packets ↦ (write_message packets >> read_message mark channel command) s
      ]
