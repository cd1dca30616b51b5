-- ===== src/HidDevice/Connection/System/Tests.antt =====
-- A connection whose two reports arrive, with a write in flight when it is closed.
use fido_go.Base.{ℕ, ◌≡◌, refl, ◌⊎◌, true, none, some, List, [], ◌∷◌, ◌++◌, arith, ok}
use fido_go.HidDevice.Reports.{ReportLayout, Report, fits}
use fido_go.HidDevice.Connection.{
  Connection, got_report, open_context, new_connection, empty_queue, set_slot, retire_locked,
  queue_report, pump_report, poll_read, begin_close,
}
use fido_go.HidDevice.Connection.Ring.{waiting, queue-waiting}
use fido_go.HidDevice.Connection.Writes.{new_pending, admit_write, submit_write, start_write}
use fido_go.HidDevice.Connection.System.{
  System, in_call, new_system, Reach, here, next, pump_reads, write_begins, write_starts,
  close_begins,
}
use fido_go.HidDevice.Connection.System.Invariant.{IsSteady}
use fido_go.HidDevice.Connection.System.Steps.{Reach-IsSteady}
use fido_go.HidDevice.Connection.System.Liveness.{Reach-done}

abbrev two_bytes : ReportLayout
two_bytes = record { input = record { id = 0; size = 2 }; output = record { id = 0; size = 2 } }

abbrev first_report : Report
first_report = record { id = 0; content = 1 ∷ 2 ∷ [] }

abbrev second_report : Report
second_report = record { id = 0; content = 3 ∷ 4 ∷ [] }

abbrev one_queued : Connection ℕ
one_queued = queue_report first_report (new_connection two_bytes)

queue-waiting_example :
    (waiting (pump_report (got_report second_report) one_queued).1
      ≡ waiting one_queued ++ (second_report ∷ []))
    × (((waiting one_queued ≡ []) × (poll_read none none one_queued ≡ (none, one_queued)))
        ⊎ ((first : Report) × (rest : List Report) × ((waiting one_queued ≡ first ∷ rest)
              × (((poll_read none none one_queued).0 ≡ some (ok first))
                  × (waiting (poll_read none none one_queued).1 ≡ rest)))))
unfolding queue_report set_slot fits new_connection empty_queue
queue-waiting_example =
    queue-waiting one_queued
      (record { slots = refl; head_bound = omega arith; count_bound = omega arith }) second_report
      refl refl (omega arith)

-- A report arrives, a write is submitted, and the connection is closed.
abbrev queued : System ℕ
queued = record (new_system two_bytes) { conn = one_queued }

abbrev writing : System ℕ
writing = record queued {
  conn = record one_queued { write_busy = true };
  calls = record { pending = new_pending; phase = in_call } ∷ [];
}

abbrev submitted : System ℕ
submitted = record writing {
  calls = record { pending = record new_pending { submitted = true }; phase = in_call } ∷ [];
}

abbrev closing_down : System ℕ
closing_down = record submitted { conn = retire_locked none submitted.conn }

closing_down-Reach : Reach (new_system two_bytes) closing_down
unfolding pump_report queue_report set_slot fits admit_write start_write submit_write begin_close
    new_system new_connection empty_queue
closing_down-Reach =
    next
      (next
        (next (next here (pump_reads (got_report first_report) refl))
          (write_begins open_context first_report new_pending refl))
        (write_starts none [] [] (record { pending = new_pending; phase = in_call }) refl refl
          refl))
      (close_begins open_context)

Reach-IsSteady_example : IsSteady closing_down
Reach-IsSteady_example = Reach-IsSteady two_bytes closing_down closing_down-Reach

Reach-done_example :
    (t : System ℕ) × (Reach closing_down t × ((t.conn.done ≡ true) × (t.device_closes ≡ 1)))
unfolding retire_locked queue_report new_connection
Reach-done_example = Reach-done two_bytes closing_down closing_down-Reach refl
