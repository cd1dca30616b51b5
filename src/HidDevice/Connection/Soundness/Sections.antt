-- ===== src/HidDevice/Connection/Soundness/Sections.antt =====
-- The sections of the pump, of Read, Write and Close keep what holds of a connection.
use fido_go.Base.{
  ℕ, ◌<◌, ◌≡◌, ◌⊎◌, inl, inr, true, false, Option, none, some, arith, ltb, ◌==◌, Bool-cases,
  Option-cases, ℤ,
}
use fido_go.HidDevice.Reports.{fits}
use fido_go.HidDevice.Connection.{
  native, io, invalid_report, context_done, Context, nil_context, open_context, ended, Connection,
  NativeRead, got_timeout, got_error, got_report, WakeError, timer_expired, context_ended,
  is_negative, input_queue_size, retire_locked, queue_report, pump_report, admit_read, take_report,
  wake_locked, poll_read, begin_close,
}
use fido_go.HidDevice.Connection.Writes.{
  PendingWrite, native_error, submit_write, start_write, complete_write, conclude_write,
}
use fido_go.HidDevice.Connection.Soundness.{
  IsSound, Keeps, same-Keeps, retire_locked-Keeps, queue_report-Keeps, take_report-Keeps,
  read_state-Keeps,
}

module _ {X : Type 0} (c : Connection X) (s : IsSound c) where
  pub pump_report-Keeps : (got : NativeRead X) → Keeps c (pump_report got c).1
  unfolding pump_report
  pump_report-Keeps got_timeout = same-Keeps c s
  pump_report-Keeps (got_error e) = retire_locked-Keeps c s (some (native e))
  pump_report-Keeps (got_report report) = elim (Bool-cases c.retiring) [
    | inl e ↦
        let now : pump_report (got_report report) c ≡ (false, c) = ground (arith, e) in
        rw (now) (same-Keeps c s)
    | inr e ↦ elim (Bool-cases (fits c.layout.input report)) [
      | inr f ↦
          let now : pump_report (got_report report) c
              ≡ (false, retire_locked (some invalid_report) c) =
            ground (arith, e, f) in
          rw (now) (retire_locked-Keeps c s (some invalid_report))
      | inl f ↦ elim (Bool-cases (c.count == input_queue_size)) [
        | inl g ↦
            let now : pump_report (got_report report) c ≡ (false, retire_locked (some io) c) =
              ground (arith, e, f, g) in
            rw (now) (retire_locked-Keeps c s (some io))
        | inr g ↦
            let now : pump_report (got_report report) c ≡ (true, queue_report report c) =
              ground (arith, e, f, g) in
            let below : c.count < 64 = ground (arith, g, s.ring.count_bound) in
            rw (now) (queue_report-Keeps c s report e below)
      ]
    ]
  ]

  admit_read_open :
      (wait : ℤ)
      → ((admit_read open_context wait c).1 ≡ c)
        ⊎ ((admit_read open_context wait c).1 ≡ record c { read_busy = true })
  unfolding admit_read
  admit_read_open wait = elim (Bool-cases (is_negative wait)) [
    | inl n ↦ inl (ground (arith, n))
    | inr n ↦ elim (Bool-cases c.retiring) [
      | inl r ↦ inl (ground (arith, n, r))
      | inr r ↦ elim (Bool-cases c.read_busy) [
        | inl b ↦ inl (ground (arith, n, r, b))
        | inr b ↦ inr (ground (arith, n, r, b))
      ]
    ]
  ]

  pub admit_read-Keeps : (context : Context X) (wait : ℤ) → Keeps c (admit_read context wait c).1
  unfolding admit_read
  admit_read-Keeps nil_context wait = same-Keeps c s
  admit_read-Keeps (ended e) wait = elim (Bool-cases (is_negative wait)) [
    | inl n ↦
        let now : (admit_read (ended e) wait c).1 ≡ c = ground (arith, n) in
        rw (now) (same-Keeps c s)
    | inr n ↦
        let now : (admit_read (ended e) wait c).1 ≡ c = ground (arith, n) in
        rw (now) (same-Keeps c s)
  ]
  admit_read-Keeps open_context wait = elim (admit_read_open wait) [
    | inl now ↦ rw (now) (same-Keeps c s)
    | inr now ↦ rw (now) (read_state-Keeps c s true c.ready)
  ]

  wake_locked-Keeps : (wake : Option (WakeError X)) → Keeps c (wake_locked wake c).1
  unfolding wake_locked
  wake_locked-Keeps none = same-Keeps c s
  wake_locked-Keeps (some timer_expired) = same-Keeps c s
  wake_locked-Keeps (some (context_ended e)) = retire_locked-Keeps c s (some (context_done e))

  pub poll_read-Keeps :
      (context_error : Option X) (wake : Option (WakeError X))
      → Keeps c (poll_read context_error wake c).1
  unfolding poll_read wake_locked
  poll_read-Keeps (some e) wake = retire_locked-Keeps c s (some (context_done e))
  poll_read-Keeps none wake = elim (Bool-cases c.retiring) [
    | inl r ↦
        let now : (poll_read none wake c).1 ≡ c = ground (arith, r) in rw (now) (same-Keeps c s)
    | inr r ↦ elim (Bool-cases (ltb 0 c.count)) [
      | inl n ↦
          let now : (poll_read none wake c).1 ≡ (take_report c).1 = ground (arith, r, n) in
          rw (now) (take_report-Keeps c s)
      | inr n ↦
          let now : (poll_read none wake c).1 ≡ (wake_locked wake c).1 = ground (arith, r, n) in
          rw (now) (wake_locked-Keeps wake)
    ]
  ]

  pub begin_close-Keeps : (context : Context X) → Keeps c (begin_close context c).1
  unfolding begin_close
  begin_close-Keeps nil_context = retire_locked-Keeps c s none
  begin_close-Keeps open_context = retire_locked-Keeps c s none
  begin_close-Keeps (ended e) = retire_locked-Keeps c s none

  submit_write_same : (pending : PendingWrite X) → (submit_write pending c).1 ≡ c
  unfolding submit_write
  submit_write_same pending = elim (Bool-cases c.retiring) [
    | inl r ↦ ground (arith, r)
    | inr r ↦ ground (arith, r)
  ]

module _ {X : Type 0} (c : Connection X) (s : IsSound c) where
  pub start_write-Keeps :
      (context_error : Option X) (pending : PendingWrite X)
      → Keeps c (start_write context_error pending c).1
  unfolding start_write
  start_write-Keeps none pending =
      let same = submit_write_same c s pending in rw (same) (same-Keeps c s)
  start_write-Keeps (some e) pending =
      let keeps = retire_locked-Keeps c s (some (context_done e)) in
      let same = submit_write_same (retire_locked (some (context_done e)) c) keeps.sound pending in
      rw (same) keeps

  pub complete_write-Keeps :
      (raw : ℕ) (e : Option X) (pending : PendingWrite X)
      → Keeps c (complete_write raw e pending c).1
  unfolding complete_write
  complete_write-Keeps raw e pending = elim (Option-cases (native_error raw e)) [
    | inl h ↦
        let now : (complete_write raw e pending c).1 ≡ c = ground (arith, h) in
        rw (now) (same-Keeps c s)
    | inr (failure, h) ↦
        let now : (complete_write raw e pending c).1 ≡ retire_locked (some failure) c =
          ground (arith, h) in
        rw (now) (retire_locked-Keeps c s (some failure))
  ]

  pub conclude_write-Keeps :
      (context_error : Option X) (pending : PendingWrite X)
      → Keeps c (conclude_write context_error pending c).1
  unfolding conclude_write
  conclude_write-Keeps none pending = same-Keeps c s
  conclude_write-Keeps (some e) pending = retire_locked-Keeps c s (some (context_done e))
