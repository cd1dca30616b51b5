-- ===== src/HidDevice/Connection/System/Steps.antt =====
-- Every section of a goroutine keeps the invariant.
use fido_go.Base.{suc, ◌<◌, ◌≡◌, refl, ap, true, false, Option, List, ◌∷◌, arith, length}
use fido_go.HidDevice.Reports.{ReportLayout}
use fido_go.HidDevice.Connection.{
  Error, new_connection, pump_report, admit_read, poll_read, begin_close,
}
use fido_go.HidDevice.Connection.Soundness.{
  same-Keeps, untouched, read_state-Keeps, new_connection-IsSound,
}
use fido_go.HidDevice.Connection.Soundness.Sections.{
  pump_report-Keeps, admit_read-Keeps, poll_read-Keeps, begin_close-Keeps,
}
use fido_go.HidDevice.Connection.System.{
  System, NoWorkers, new_system, Step, Reach, here, next, pump_stops, pump_reads, read_begins,
  read_polls, read_wakes, read_ends, write_begins, write_starts, write_completes, write_concludes,
  write_ends, close_begins, device_closes, cleanup_ends,
}
use fido_go.HidDevice.Connection.System.Invariant.{IsSteady}
use fido_go.HidDevice.Connection.System.Calls.{
  flag_bound, keep-IsSteady, write_begins-IsSteady, write_starts-IsSteady, write_completes-IsSteady,
  write_concludes-IsSteady, write_ends-IsSteady,
}

module _ {X : Type 0} where
  module _ (s : System X) (i : IsSteady s) where
    pump_stops-IsSteady : IsSteady (record s { pump = false })
    pump_stops-IsSteady = keep-IsSteady s i s.conn false (same-Keeps s.conn i.sound) (λ _. refl)

    device_closes-IsSteady :
        (e : Option (Error X))
        → s.device_closes < s.conn.cleanups
        → NoWorkers s
        → IsSteady (record s { device_closes = suc s.device_closes; closing = e ∷ s.closing })
    device_closes-IsSteady e below still = record {
      sound = i.sound;
      owned = i.owned;
      orphaned = i.orphaned;
      one_write = i.one_write;
      closed_once = omega (arith, below);
      quiet = λ _. still;
      recorded = omega (arith, i.recorded);
    }

    cleanup_ends-IsSteady :
        (e : Option (Error X)) (rest : List (Option (Error X)))
        → s.closing ≡ e ∷ rest
        → IsSteady
            (record s { conn = record s.conn { close_err = e; done = true }; closing = rest })
    cleanup_ends-IsSteady e rest h = record {
      sound = untouched s.conn i.sound s.conn.read_busy s.conn.write_busy s.conn.ready true e;
      owned = i.owned;
      orphaned = i.orphaned;
      one_write = i.one_write;
      closed_once = i.closed_once;
      quiet = i.quiet;
      recorded = omega (
        arith,
        i.recorded,
        ap length h,
        i.closed_once,
        i.sound.one_cleanup,
        flag_bound s.conn.retiring,
      );
    }

  pub Step-IsSteady : {s t : System X} → IsSteady s → Step s t → IsSteady t
  Step-IsSteady {s = s} i (pump_stops on r) = pump_stops-IsSteady s i
  Step-IsSteady {s = s} i (pump_reads got on) =
      keep-IsSteady s i (pump_report got s.conn).1 (pump_report got s.conn).0
        (pump_report-Keeps s.conn i.sound got) (λ off. ground (arith, on, off))
  Step-IsSteady {s = s} i (read_begins context wait) =
      keep-IsSteady s i (admit_read context wait s.conn).1 s.pump
        (admit_read-Keeps s.conn i.sound context wait) (λ e. e)
  Step-IsSteady {s = s} i (read_polls context_error wake b) =
      keep-IsSteady s i (poll_read context_error wake s.conn).1 s.pump
        (poll_read-Keeps s.conn i.sound context_error wake) (λ e. e)
  Step-IsSteady {s = s} i (read_wakes r) =
      keep-IsSteady s i (record s.conn { ready = false }) s.pump
        (read_state-Keeps s.conn i.sound s.conn.read_busy false) (λ e. e)
  Step-IsSteady {s = s} i (read_ends b) =
      keep-IsSteady s i (record s.conn { read_busy = false }) s.pump
        (read_state-Keeps s.conn i.sound false s.conn.ready) (λ e. e)
  Step-IsSteady {s = s} i (write_begins context report pending h) =
      write_begins-IsSteady s i context report pending h
  Step-IsSteady {s = s} i (write_starts context_error before after call h u c) =
      write_starts-IsSteady s i context_error before after call h c
  Step-IsSteady {s = s} i (write_completes raw e before after call h u c) =
      write_completes-IsSteady s i raw e before after call h c
  Step-IsSteady {s = s} i (write_concludes context_error before after call h w over) =
      write_concludes-IsSteady s i context_error before after call h w over
  Step-IsSteady {s = s} i (write_ends before after call h l) =
      write_ends-IsSteady s i before after call h l
  Step-IsSteady {s = s} i (close_begins context) =
      keep-IsSteady s i (begin_close context s.conn).1 s.pump
        (begin_close-Keeps s.conn i.sound context) (λ e. e)
  Step-IsSteady {s = s} i (device_closes e below still) = device_closes-IsSteady s i e below still
  Step-IsSteady {s = s} i (cleanup_ends e rest h) = cleanup_ends-IsSteady s i e rest h

  new_system-IsSteady : (layout : ReportLayout) → IsSteady (new_system {X = X} layout)
  unfolding new_system new_connection
  new_system-IsSteady layout = record {
    sound = new_connection-IsSound layout;
    owned = omega arith;
    orphaned = λ g. ground (arith, g);
    one_write = omega arith;
    closed_once = omega arith;
    quiet = λ g. ground (arith, g);
    recorded = refl;
  }

  pub Reach-keeps : {s t : System X} → IsSteady s → Reach s t → IsSteady t
  Reach-keeps i here = i
  Reach-keeps i (next r step) = Step-IsSteady (Reach-keeps i r) step

  -- After any sections in any order, the queue has 64 slots with no more reports than that, none once the
  -- connection retires; at most one native write runs; and the device is closed at most once, with no
  -- native call left.
  pub Reach-IsSteady :
      (layout : ReportLayout) (s : System X) → Reach (new_system layout) s → IsSteady s
  Reach-IsSteady layout s r = Reach-keeps (new_system-IsSteady layout) r
