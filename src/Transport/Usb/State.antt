-- ===== src/Transport/Usb/State.antt =====
-- The state of a session of pkg/transport/usb (hid_lifetime.go, hid_error.go) and the actions on it.
-- An action takes the session with what the native calls will answer and returns its result and the
-- state it leaves, or nothing where the answers end: the call still waits.
use fido_go.Base.{ℕ, Bool, false, Option, none, some, List, Bytes, Result, err, ok}
pub use fido_go.HidDevice.Reports.{WriteOutcome, unknown, not_submitted, completed}
use fido_go.Transport.Usb.Reader.{ReadError, Answer}
use fido_go.Wire.Hid

pub data Stage : Type 0 where
  stage_init stage_ping stage_request stage_response : Stage

-- The progress of an exchange, `exchangeProgress`.
pub record Progress : Type 0 where
  pub stage : Stage
  pub packets : ℕ
  pub outcome : WriteOutcome
  pub ambiguous : Bool

-- `&exchangeProgress{stage: stage, outcome: hid.OutcomeNotSubmitted}`
abbrev pub new_progress : Stage → Progress
new_progress stage = record {
  stage = stage;
  packets = 0;
  outcome = not_submitted;
  ambiguous = false;
}

-- Why a packet call fails: the context is done between two calls or within one, the session is
-- closing, a read's own wait ran out (with whether the context was done by then), the connection
-- failed, `hid.ErrIO` or `hid.ErrInvalidReport`.
pub data CallError (E : Type 0) : Type 0 where
  between_calls : E → CallError E
  context_done : E → CallError E
  closed : CallError E
  timed_out : Bool → E → CallError E
  native : E → CallError E
  io : CallError E
  invalid_report : CallError E

-- One round of the context check and `writePacket`: `conn.Write` is not reached, or its result.
pub data WriteRound (E : Type 0) : Type 0 where
  not_written : CallError E → WriteRound E
  written : WriteOutcome → Option E → WriteRound E

-- One round of the context check and `readPacket`: `conn.Read` gives no report, or gives one.
pub data ReadRound (E : Type 0) : Type 0 where
  not_read : CallError E → ReadRound E
  report : ℕ → Bytes → ReadRound E

pub data Fault (E : Type 0) : Type 0 where
  fragmenting : Hid.Error → Fault E
  writing : CallError E → Fault E
  reading : ReadError (CallError E) → Fault E
  random : E → Fault E
  retrying : E → Fault E
  init_too_short : Fault E
  invalid_channel : ℕ → Fault E
  invalid_ping_echo : Fault E

-- `hidSession`, the reports that `conn.Write` was called with, and the answers that are left.
pub record State (E : Type 0) : Type 0 where
  pub report_size : ℕ
  pub channel_id : ℕ
  pub closing : Bool
  pub progress : Progress
  pub sent : List Bytes
  pub writes : List (WriteRound E)
  pub reads : List (Answer (CallError E))

-- A result with the state it leaves.
pub record Step (E A : Type 0) : Type 0 where
  pub result : Result (Fault E) A
  pub state : State E

abbrev pub Action : Type 0 → Type 0 → Type 0
Action E A = State E → Option (Step E A)

infixl 5 ◌>>=◌ ◌>>◌
-- The rest of a function after a step that may fail.
abbrev pub ◌>>=◌ : {E A B : Type 0} → Action E A → (A → Action E B) → Action E B
(first >>= next) s = elim (first s) [
  | none ↦ none
  | some step ↦ elim step.result [
    | err e ↦ some (record { result = err e; state = step.state })
    | ok a ↦ next a step.state
  ]
]

abbrev pub ◌>>◌ : {E A B : Type 0} → Action E A → Action E B → Action E B
first >> next = first >>= (λ _. next)

abbrev pub return : {E A : Type 0} → A → Action E A
return a s = some (record { result = ok a; state = s })

abbrev pub fail : {E A : Type 0} → Fault E → Action E A
fail e s = some (record { result = err e; state = s })

-- Assigns `session.progress`.
abbrev pub begin : {E : Type 0} → Stage → Action E (Unit {0})
begin stage s = return tt (record s { progress = new_progress stage })
