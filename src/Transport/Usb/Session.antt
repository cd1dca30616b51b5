-- ===== src/Transport/Usb/Session.antt =====
-- pkg/transport/usb/hid_session.go and hid_lifetime.go: the exchanges of an open session. Another
-- goroutine's `Close` is a `closed` answer of a packet call, or `closing` before the exchange.

mod Tests
pub mod Delivery
pub mod Retirement
use fido_go.Base.{
  ℕ, bit_or, Bool, true, false, ◌||◌, Option, none, some, List, ltb, if◌then◌else◌, Bytes, Result,
  ◌>>=◌, reject_if, err, ok,
}
use fido_go.Transport.Usb.State.{
  Stage, stage_init, stage_request, stage_response, WriteOutcome, Progress, CallError, context_done,
  closed, Fault, fragmenting, writing, reading, State, Step, Action, ◌>>◌, begin,
}
use fido_go.Transport.Usb.Packets.{packets_for, exchange_hid_message}
use fido_go.Transport.Usb.Handshake.{Round, ensure_channel}
use fido_go.Transport.Usb.Commands.{
  InvalidHidCommand, validate_hid_command, hid_command_for_request,
}
use fido_go.Transport.Usb.Reader.{device}

-- What an exchange meets outside its packet calls: the context's error where it waits for the mutex
-- and in `hidCallError`, whether the context is done after that call, and the handshake's rounds.
pub record Admission (E : Type 0) : Type 0 where
  pub lock : Option E
  pub context : Option E
  pub late : Bool
  pub rounds : List (Round E)

-- *ExchangeError
pub record ExchangeError (E : Type 0) : Type 0 where
  pub stage : Stage
  pub packets_submitted : ℕ
  pub outcome : WriteOutcome
  pub ambiguous : Bool
  pub cause : Fault E

pub data CloseError (E : Type 0) : Type 0 where
  invalid_argument : CloseError E
  close_failed : E → CloseError E

pub data Failure (E : Type 0) : Type 0 where
  invalid_command : InvalidHidCommand → Failure E
  -- before the exchange has begun
  rejected : Fault E → Failure E
  exchange_failed : ExchangeError E → Failure E

-- A response or an error, and the session that is left.
pub record Exchanged (E : Type 0) : Type 0 where
  pub result : Result (Failure E) Bytes
  pub state : State E

-- `session.progress.stage = StageResponse`
abbrev pub responding : Progress → Progress
responding p = record p { stage = stage_response }

module _ {E : Type 0} where
  unfoldable pub is_device_error : Fault E → Bool
  is_device_error (reading (device code)) = true
  is_device_error e = false

  unfoldable pub retire : State E → State E
  retire s = record s { closing = true }

  -- `progress.wrap`
  unfoldable pub wrap : Progress → Fault E → ExchangeError E
  wrap p cause = record {
    stage = p.stage;
    packets_submitted = p.packets;
    outcome = p.outcome;
    ambiguous = p.ambiguous;
    cause = cause;
  }

  unfoldable pub hid_call_error : Admission E → State E → Result (CallError E) (Unit {0})
  hid_call_error ctx s = elim ctx.context [
    | some e ↦ err (context_done e)
    | none ↦ reject_if s.closing closed
  ]

  -- The deferred function: any error but the device's retires the session.
  unfoldable pub conclude : Option (Step E Bytes) → Option (Exchanged E)
  conclude none = none
  conclude (some step) =
      let p = step.state.progress in
      let marked = record p { ambiguous = p.ambiguous || ltb 0 p.packets } in
      elim step.result [
        | ok response ↦ some (record { result = ok response; state = step.state })
        | err e ↦ elim (is_device_error e) [
          | true ↦ some (record { result = err (exchange_failed (wrap p e)); state = step.state })
          | false ↦
              some (record {
                result = err (exchange_failed (wrap marked e));
                state = retire step.state;
              })
        ]
      ]

  -- What the exchange does between its admission and the deferred function.
  unfoldable pub transact : List (Round E) → ℕ → Bytes → Action E Bytes
  transact rounds command payload = do
    begin stage_init
    ensure_channel rounds
    begin stage_request
    λ s. exchange_hid_message responding s.channel_id command payload s

  unfoldable pub exchange : Admission E → ℕ → Bytes → State E → Option (Exchanged E)
  exchange ctx command payload s =
      let reject : Fault E → State E → Option (Exchanged E) =
        λ e s'. some (record { result = err (rejected e); state = s' }) in
      elim (packets_for s.report_size 1 command payload) [
        | err e ↦ reject (fragmenting e) s
        | ok packets ↦ elim ctx.lock [
          | some e ↦ reject (writing (context_done e)) s
          | none ↦ elim (hid_call_error ctx s) [
            | err e ↦ reject (writing e) (if ctx.late then retire s else s)
            | ok _ ↦ conclude (transact ctx.rounds command payload s)
          ]
        ]
      ]

  pub exchange_request : Admission E → Bytes → State E → Option (Exchanged E)
  exchange_request ctx req = exchange ctx (hid_command_for_request req) req

  pub exchange_hid : Admission E → ℕ → Bytes → State E → Option (Exchanged E)
  exchange_hid ctx command payload s = elim (validate_hid_command command) [
    | err e ↦ some (record { result = err (invalid_command e); state = s })
    | ok _ ↦ exchange ctx (bit_or command 0x80) payload s
  ]

  -- `CloseContext`: a nil context, and what `conn.Close` gives with another one.
  pub close_context :
      Bool → Result E (Unit {0}) → State E → Result (CloseError E) (Unit {0}) × State E
  close_context is_nil native_result s =
      let shown = elim native_result as (λ _. Result (CloseError E) (Unit {0})) [
        | ok _ ↦ ok tt
        | err e ↦ err (close_failed e)
      ] in
      (if is_nil then err invalid_argument else shown, retire s)

  -- `Close`, whose context is not nil.
  pub close : Result E (Unit {0}) → State E → Result (CloseError E) (Unit {0}) × State E
  close = close_context false
