-- ===== src/HidDevice/Connection.antt =====
-- pkg/hid/connection.go and read.go: an open device under its mutex. Each function is a section that
-- runs with the mutex held; what goroutines do between sections is in System.
pub mod Ring
pub mod Writes
pub mod Soundness
pub mod System
use fido_go.Base.{
  ℕ, zero, suc, ◌+◌, ◌-◌, ◌%◌, Bool, true, false, not, Option, none, some, List, [], ◌∷◌, ltb, ◌==◌,
  if◌then◌else◌, get_or, replicate, Result, err, ok, ℤ, pos, negsuc,
}
use fido_go.HidDevice.Reports.{ReportLayout, Report, empty_report, fits}

-- driver.InputQueueSize
abbrev pub input_queue_size : ℕ
input_queue_size = 64

-- `for i := range c.queue { c.queue[i] = Report{} }`
unfoldable pub empty_queue : List Report
empty_queue = replicate input_queue_size empty_report

-- An error of the package, with the cause that errors.Join adds.
pub data Error (X : Type 0) : Type 0 where
  closed busy invalid_argument invalid_report io timeout : Error X
  closed_because : Error X → Error X
  context_done native native_and_io : X → Error X
  joined : Error X → X → Error X

-- The context of a call: nil, not done, or done with an error.
pub data Context (X : Type 0) : Type 0 where
  nil_context open_context : Context X
  ended : X → Context X

-- `connection`; the reports that its 64 slots hold, and how many goroutines retireLocked has started.
pub record Connection (X : Type 0) : Type 0 where
  pub layout : ReportLayout
  pub retiring : Bool
  pub reason : Option (Error X)
  pub read_busy : Bool
  pub write_busy : Bool
  pub queue : List Report
  pub head : ℕ
  pub count : ℕ
  pub ready : Bool
  pub done : Bool
  pub close_err : Option (Error X)
  pub cleanups : ℕ

-- What a native read gives the pump.
pub data NativeRead (X : Type 0) : Type 0 where
  got_report : Report → NativeRead X
  got_timeout : NativeRead X
  got_error : X → NativeRead X

-- `wakeError`
pub data WakeError (X : Type 0) : Type 0 where
  timer_expired : WakeError X
  context_ended : X → WakeError X

unfoldable pub set_slot : {A : Type 0} → ℕ → A → List A → List A
set_slot n a [] = []
set_slot zero a (b ∷ bs) = a ∷ bs
set_slot (suc n) a (b ∷ bs) = b ∷ set_slot n a bs

abbrev pub is_negative : ℤ → Bool
is_negative (pos n) = false
is_negative (negsuc n) = true

module _ {X : Type 0} where
  pub new_connection : ReportLayout → Connection X
  new_connection layout = record {
    layout = layout;
    retiring = false;
    reason = none;
    read_busy = false;
    write_busy = false;
    queue = empty_queue;
    head = 0;
    count = 0;
    ready = false;
    done = false;
    close_err = none;
    cleanups = 0;
  }

  unfoldable pub retire_locked : Option (Error X) → Connection X → Connection X
  retire_locked reason c = if c.retiring then c else record c {
    retiring = true;
    reason = reason;
    queue = empty_queue;
    count = 0;
    cleanups = suc c.cleanups;
  }

  unfoldable pub closed_error_locked : Connection X → Error X
  closed_error_locked c = elim c.reason [ none ↦ closed | some e ↦ closed_because e ]

  -- The queue's next slot takes the report, and `ready` is signalled.
  unfoldable pub queue_report : Report → Connection X → Connection X
  queue_report report c = record c {
    queue = set_slot ((c.head + c.count) % input_queue_size) report c.queue;
    count = suc c.count;
    ready = true;
  }

  -- A round of `pump` after its native read, with whether the pump goes on.
  unfoldable pub pump_report : NativeRead X → Connection X → Bool × Connection X
  pump_report got_timeout c = (true, c)
  pump_report (got_error e) c = (false, retire_locked (some (native e)) c)
  pump_report (got_report report) c =
      if c.retiring
      then (false, c)
      else if not (fits c.layout.input report)
      then (false, retire_locked (some invalid_report) c)
      else if c.count == input_queue_size
      then (false, retire_locked (some io) c)
      else (true, queue_report report c)

  -- `Read` up to its admission.
  unfoldable pub admit_read :
      Context X → ℤ → Connection X → Result (Error X) (Unit {0}) × Connection X
  admit_read nil_context wait c = (err invalid_argument, c)
  admit_read (ended e) wait c =
      if is_negative wait then (err invalid_argument, c) else (err (context_done e), c)
  admit_read open_context wait c =
      if is_negative wait
      then (err invalid_argument, c)
      else if c.retiring
      then (err (closed_error_locked c), c)
      else if c.read_busy
      then (err busy, c)
      else (ok tt, record c { read_busy = true })

  -- The first report leaves the queue.
  unfoldable pub take_report : Connection X → Report × Connection X
  take_report c = (
    get_or c.queue c.head empty_report,
    record c {
      queue = set_slot c.head empty_report c.queue;
      head = (c.head + 1) % input_queue_size;
      count = c.count - 1;
    },
  )

  abbrev wake_error : WakeError X → Error X
  wake_error timer_expired = timeout
  wake_error (context_ended e) = context_done e

  -- Why a read ends with an empty queue: only the local wait leaves the connection open.
  unfoldable pub wake_locked :
      Option (WakeError X) → Connection X → Option (Result (Error X) Report) × Connection X
  wake_locked none c = (none, c)
  wake_locked (some timer_expired) c = (some (err timeout), c)
  wake_locked (some (context_ended e)) c =
      (some (err (context_done e)), retire_locked (some (context_done e)) c)

  -- A round of the loop of `Read`, with the error of its context; `none` waits on.
  unfoldable pub poll_read :
      Option X
      → Option (WakeError X)
      → Connection X
      → Option (Result (Error X) Report) × Connection X
  poll_read (some e) wake c = (some (err (context_done e)), retire_locked (some (context_done e)) c)
  poll_read none wake c =
      if c.retiring
      then (some (err (closed_error_locked c)), c)
      else if ltb 0 c.count
      then (some (ok (take_report c).0), (take_report c).1)
      else wake_locked wake c

  -- `Close` up to its wait, with what it returns at once, and after its wait.
  unfoldable pub begin_close : Context X → Connection X → Option (Option (Error X)) × Connection X
  begin_close nil_context c = (some (some invalid_argument), retire_locked none c)
  begin_close given c = (if c.done then some c.close_err else none, retire_locked none c)

  pub end_close : Option X → Connection X → Option (Error X)
  end_close context_error c =
      if c.done
      then c.close_err
      else elim context_error [ none ↦ none | some e ↦ some (context_done e) ]
