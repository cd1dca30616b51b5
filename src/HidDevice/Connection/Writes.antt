-- ===== src/HidDevice/Connection/Writes.antt =====
-- pkg/hid/write.go: a write, by its caller and by the worker that makes the native call.
use fido_go.Base.{
  ℕ, Bool, true, false, not, Option, none, some, ltb, ◌==◌, if◌then◌else◌, Result, err, ok,
}
use fido_go.HidDevice.Reports.{Report, WriteOutcome, unknown, not_submitted, completed, fits}
use fido_go.HidDevice.Connection.{
  Error, busy, invalid_argument, invalid_report, io, context_done, native, native_and_io, joined,
  Context, nil_context, open_context, ended, Connection, retire_locked, closed_error_locked,
}

-- `pendingWrite`
pub record PendingWrite (X : Type 0) : Type 0 where
  pub submitted : Bool
  pub is_completed : Bool
  pub outcome : WriteOutcome
  pub error : Option (Error X)

-- A driver's outcome, a byte: 0, 1 and 2 are its constants.
unfoldable pub outcome_of : ℕ → WriteOutcome
outcome_of raw = if raw == 1 then not_submitted else if raw == 2 then completed else unknown

module _ {X : Type 0} where
  abbrev pub new_pending : PendingWrite X
  new_pending = record { submitted = false; is_completed = false; outcome = unknown; error = none }

  -- `Write` up to the start of its worker.
  unfoldable pub admit_write :
      Context X → Report → Connection X → Result (Error X) (PendingWrite X) × Connection X
  admit_write nil_context report c = (err invalid_argument, c)
  admit_write (ended e) report c = (err (context_done e), c)
  admit_write open_context report c =
      if not (fits c.layout.output report)
      then (err invalid_report, c)
      else if c.retiring
      then (err (closed_error_locked c), c)
      else if c.write_busy
      then (err busy, c)
      else (ok new_pending, record c { write_busy = true })

  -- The worker's check after a done context has retired the connection.
  unfoldable pub submit_write : PendingWrite X → Connection X → PendingWrite X × Connection X
  submit_write pending c =
      if c.retiring
      then (
        record pending {
          is_completed = true;
          outcome = not_submitted;
          error = some (closed_error_locked c);
        },
        c,
      )
      else (record pending { submitted = true }, c)

  -- `performWrite` before its native call.
  unfoldable pub start_write :
      Option X → PendingWrite X → Connection X → PendingWrite X × Connection X
  start_write none pending c = submit_write pending c
  start_write (some e) pending c = submit_write pending (retire_locked (some (context_done e)) c)

  -- The error of a native call: an outcome that is not completed is one.
  unfoldable pub native_error : ℕ → Option X → Option (Error X)
  native_error raw (some e) = if ltb 2 raw then some (native_and_io e) else some (native e)
  native_error raw none = if raw == 2 then none else some io

  abbrev retire_on : Option (Error X) → Connection X → Connection X
  retire_on none c = c
  retire_on (some e) c = retire_locked (some e) c

  -- `performWrite` after its native call.
  unfoldable pub complete_write :
      ℕ → Option X → PendingWrite X → Connection X → PendingWrite X × Connection X
  complete_write raw e pending c = (
    record pending { is_completed = true; outcome = outcome_of raw; error = native_error raw e },
    retire_on (native_error raw e) c,
  )

  -- `errors.Join(pending.err, err)`
  abbrev join : Option (Error X) → X → Error X
  join none e = context_done e
  join (some failure) e = joined failure e

  -- `Write` after its wait, with the error of its context.
  unfoldable pub conclude_write :
      Option X → PendingWrite X → Connection X → (WriteOutcome × Option (Error X)) × Connection X
  conclude_write (some e) pending c = (
    if pending.is_completed
        then (pending.outcome, some (join pending.error e))
        else (if pending.submitted then unknown else not_submitted, some (context_done e)),
    retire_locked (some (context_done e)) c,
  )
  conclude_write none pending c = (
    if pending.is_completed
        then (pending.outcome, pending.error)
        else (unknown, some (closed_error_locked c)),
    c,
  )
