-- ===== src/HidDevice/Connection/System.antt =====
-- pkg/hid: a connection with the goroutines that use it, the pump, the callers of Read, Write and Close,
-- the workers of writes and the cleanups that retireLocked starts, in any order of their sections.
pub mod Invariant
pub mod Calls
pub mod Steps
pub mod Liveness
mod Tests
use fido_go.Base.{
  ℕ, suc, ◌+◌, ◌<◌, ◌≡◌, ◌≢◌, ◌⊎◌, Bool, true, false, Option, none, List, [], ◌∷◌, ◌++◌,
  if◌then◌else◌, ok, ℤ,
}
use fido_go.HidDevice.Reports.{ReportLayout, Report}
use fido_go.HidDevice.Connection.{
  Error, Context, Connection, NativeRead, WakeError, new_connection, pump_report, admit_read,
  poll_read, begin_close,
}
use fido_go.HidDevice.Connection.Writes.{
  PendingWrite, admit_write, start_write, complete_write, conclude_write,
}

-- Where the caller of a Write is: in its wait, past it with `writeBusy` still set, or back.
pub data Phase : Type 0 where
  in_call leaving returned : Phase

pub record Call (X : Type 0) : Type 0 where
  pub pending : PendingWrite X
  pub phase : Phase

-- `pump` is whether the pump runs; `closing` has the results of device.Close that a cleanup has not
-- recorded yet.
pub record System (X : Type 0) : Type 0 where
  pub conn : Connection X
  pub pump : Bool
  pub calls : List (Call X)
  pub device_closes : ℕ
  pub closing : List (Option (Error X))

-- Whether the caller holds `writeBusy`.
abbrev pub holds : Phase → ℕ
holds in_call = 1
holds leaving = 1
holds returned = 0

-- `n` for a worker whose caller is not in its wait.
abbrev pub alone : Phase → ℕ → ℕ
alone in_call n = 0
alone leaving n = n
alone returned n = n

module _ {X : Type 0} where
  -- Whether the call's worker runs, which counts in `workers`.
  abbrev pub is_active : Call X → ℕ
  is_active call = if call.pending.is_completed then 0 else 1

  abbrev pub is_owner : Call X → ℕ
  is_owner call = holds call.phase

  abbrev pub is_orphan : Call X → ℕ
  is_orphan call = alone call.phase (is_active call)

  abbrev pub total : (Call X → ℕ) → List (Call X) → ℕ
  total f [] = 0
  total f (call ∷ calls) = f call + total f calls

  -- `newConnection`
  pub new_system : ReportLayout → System X
  new_system layout = record {
    conn = new_connection layout;
    pump = true;
    calls = [];
    device_closes = 0;
    closing = [];
  }

  -- `c.workers` is 0.
  abbrev pub NoWorkers : System X → Type 0
  NoWorkers s = (s.pump ≡ false) × (total is_active s.calls ≡ 0)

  -- A section of one goroutine.
  pub data Step (s : System X) : System X → Type 0 where
    -- pump
    pump_stops : s.pump ≡ true → s.conn.retiring ≡ true → Step s (record s { pump = false })
    pump_reads :
        (got : NativeRead X)
        → s.pump ≡ true
        → Step s (record s { pump = (pump_report got s.conn).0; conn = (pump_report got s.conn).1 })
    -- Read
    read_begins :
        (context : Context X) (wait : ℤ)
        → Step s (record s { conn = (admit_read context wait s.conn).1 })
    read_polls :
        (context_error : Option X) (wake : Option (WakeError X))
        → s.conn.read_busy ≡ true
        → Step s (record s { conn = (poll_read context_error wake s.conn).1 })
    read_wakes : s.conn.ready ≡ true → Step s (record s { conn = record s.conn { ready = false } })
    read_ends :
        s.conn.read_busy ≡ true → Step s (record s { conn = record s.conn { read_busy = false } })
    -- Write
    write_begins :
        (context : Context X) (report : Report) (pending : PendingWrite X)
        → (admit_write context report s.conn).0 ≡ ok pending
        → Step s (record s {
          conn = (admit_write context report s.conn).1;
          calls = record { pending = pending; phase = in_call } ∷ s.calls;
        })
    write_starts :
        (context_error : Option X) (before after : List (Call X)) (call : Call X)
        → s.calls ≡ before ++ (call ∷ after)
        → call.pending.submitted ≡ false
        → call.pending.is_completed ≡ false
        → Step s (record s {
          conn = (start_write context_error call.pending s.conn).1;
          calls =
              before
              ++ (record call { pending = (start_write context_error call.pending s.conn).0 }
                  ∷ after);
        })
    write_completes :
        (raw : ℕ) (e : Option X) (before after : List (Call X)) (call : Call X)
        → s.calls ≡ before ++ (call ∷ after)
        → call.pending.submitted ≡ true
        → call.pending.is_completed ≡ false
        → Step s (record s {
          conn = (complete_write raw e call.pending s.conn).1;
          calls =
              before
              ++ (record call { pending = (complete_write raw e call.pending s.conn).0 } ∷ after);
        })
    -- its wait is over: the write is completed or its context done
    write_concludes :
        (context_error : Option X) (before after : List (Call X)) (call : Call X)
        → s.calls ≡ before ++ (call ∷ after)
        → call.phase ≡ in_call
        → (call.pending.is_completed ≡ true) ⊎ (context_error ≢ none)
        → Step s (record s {
          conn = (conclude_write context_error call.pending s.conn).1;
          calls = before ++ (record call { phase = leaving } ∷ after);
        })
    write_ends :
        (before after : List (Call X)) (call : Call X)
        → s.calls ≡ before ++ (call ∷ after)
        → call.phase ≡ leaving
        → Step s (record s {
          conn = record s.conn { write_busy = false };
          calls = before ++ (record call { phase = returned } ∷ after);
        })
    -- Close
    close_begins :
        (context : Context X) → Step s (record s { conn = (begin_close context s.conn).1 })
    -- a cleanup that retireLocked has started, after its wait for the workers
    device_closes :
        (e : Option (Error X))
        → s.device_closes < s.conn.cleanups
        → NoWorkers s
        → Step s (record s { device_closes = suc s.device_closes; closing = e ∷ s.closing })
    cleanup_ends :
        (e : Option (Error X)) (rest : List (Option (Error X)))
        → s.closing ≡ e ∷ rest
        → Step s (record s { conn = record s.conn { close_err = e; done = true }; closing = rest })

  -- The states that a connection passes through.
  pub data Reach (s : System X) : System X → Type 0 where
    here : Reach s s
    next : {t u : System X} → Reach s t → Step t u → Reach s u
