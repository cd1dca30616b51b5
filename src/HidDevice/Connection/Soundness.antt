-- ===== src/HidDevice/Connection/Soundness.antt =====
-- What the sections of pkg/hid's connection keep.
pub mod Sections
use fido_go.Base.{
  ◌+◌, ◌-◌, ◌%◌, ◌<◌, ◌≡◌, refl, ◌∙◌, inl, inr, Bool, true, false, Option, arith, if◌then◌else◌,
  Bool-cases, length,
}
use fido_go.HidDevice.Reports.{ReportLayout, Report, empty_report}
use fido_go.HidDevice.Connection.{
  Error, Connection, empty_queue, new_connection, retire_locked, queue_report, take_report,
}
use fido_go.HidDevice.Connection.Ring.{IsRing, length-set_slot}

-- The queue is a ring, which is empty once the connection retires, and a cleanup was started then.
pub record IsSound {X : Type 0} (c : Connection X) : Type 0 where
  pub ring : IsRing c
  pub emptied : c.retiring ≡ true → c.count ≡ 0
  pub one_cleanup : c.cleanups ≡ (if c.retiring then 1 else 0)

length-empty_queue : length empty_queue ≡ 64
unfolding empty_queue
length-empty_queue = refl

-- What a section keeps.
pub record Keeps {X : Type 0} (c c' : Connection X) : Type 0 where
  pub sound : IsSound c'
  pub stays : c.retiring ≡ true → c'.retiring ≡ true
  pub same_busy : c'.write_busy ≡ c.write_busy
  pub same_done : c'.done ≡ c.done

module _ {X : Type 0} (c : Connection X) (s : IsSound c) where
  pub same-Keeps : Keeps c c
  same-Keeps = record { sound = s; stays = λ e. e; same_busy = refl; same_done = refl }

  retired-IsSound :
      (reason : Option (Error X)) → c.retiring ≡ false → IsSound (retire_locked reason c)
  unfolding retire_locked
  retired-IsSound reason e = rw (e) (record {
    ring = record {
      slots = length-empty_queue;
      head_bound = s.ring.head_bound;
      count_bound = omega arith;
    };
    emptied = λ _. refl;
    one_cleanup = ground (arith, e, s.one_cleanup);
  })

  retire_locked_again : (reason : Option (Error X)) → c.retiring ≡ true → retire_locked reason c ≡ c
  unfolding retire_locked
  retire_locked_again reason e = ground (arith, e)

  pub retire_locked-retiring :
      (reason : Option (Error X)) → (retire_locked reason c).retiring ≡ true
  unfolding retire_locked
  retire_locked-retiring reason = elim (Bool-cases c.retiring) [
    | inl e ↦ ground (arith, e)
    | inr e ↦ ground (arith, e)
  ]

  retire_locked_same :
      (reason : Option (Error X))
      → ((retire_locked reason c).write_busy ≡ c.write_busy)
        × ((retire_locked reason c).done ≡ c.done)
  unfolding retire_locked
  retire_locked_same reason = elim (Bool-cases c.retiring) [
    | inl e ↦ (ground (arith, e), ground (arith, e))
    | inr e ↦ (ground (arith, e), ground (arith, e))
  ]

  pub retire_locked-Keeps : (reason : Option (Error X)) → Keeps c (retire_locked reason c)
  retire_locked-Keeps reason = elim (Bool-cases c.retiring) [
    | inl e ↦ let again = retire_locked_again reason e in rw (again) same-Keeps
    | inr e ↦ record {
      sound = retired-IsSound reason e;
      stays = λ _. retire_locked-retiring reason;
      same_busy = (retire_locked_same reason).0;
      same_done = (retire_locked_same reason).1;
    }
  ]

  pub queue_report-Keeps :
      (report : Report) → c.retiring ≡ false → c.count < 64 → Keeps c (queue_report report c)
  unfolding queue_report
  queue_report-Keeps report e below = record {
    sound = record {
      ring = record {
        slots = length-set_slot ((c.head + c.count) % 64) report c.queue ∙ s.ring.slots;
        head_bound = s.ring.head_bound;
        count_bound = omega (arith, below);
      };
      emptied = λ r. ground (arith, e, r);
      one_cleanup = s.one_cleanup;
    };
    stays = λ r. r;
    same_busy = refl;
    same_done = refl;
  }

  pub take_report-Keeps : Keeps c (take_report c).1
  unfolding take_report
  take_report-Keeps = record {
    sound = record {
      ring = record {
        slots = length-set_slot c.head empty_report c.queue ∙ s.ring.slots;
        head_bound = omega arith;
        count_bound = omega (arith, s.ring.count_bound);
      };
      emptied = λ r. ground (arith, s.emptied r);
      one_cleanup = s.one_cleanup;
    };
    stays = λ r. r;
    same_busy = refl;
    same_done = refl;
  }

  -- A change of what no other field depends on.
  pub untouched :
      (read_busy write_busy ready done : Bool) (close_err : Option (Error X))
      → IsSound (record c {
        read_busy = read_busy;
        write_busy = write_busy;
        ready = ready;
        done = done;
        close_err = close_err;
      })
  untouched read_busy write_busy ready done close_err = record {
    ring = record {
      slots = s.ring.slots;
      head_bound = s.ring.head_bound;
      count_bound = s.ring.count_bound;
    };
    emptied = s.emptied;
    one_cleanup = s.one_cleanup;
  }

  pub read_state-Keeps :
      (read_busy ready : Bool) → Keeps c (record c { read_busy = read_busy; ready = ready })
  read_state-Keeps read_busy ready = record {
    sound = untouched read_busy c.write_busy ready c.done c.close_err;
    stays = λ r. r;
    same_busy = refl;
    same_done = refl;
  }

pub new_connection-IsSound :
    {X : Type 0} (layout : ReportLayout) → IsSound {X = X} (new_connection layout)
unfolding new_connection
new_connection-IsSound layout = record {
  ring = record { slots = length-empty_queue; head_bound = omega arith; count_bound = omega arith };
  emptied = λ _. refl;
  one_cleanup = refl;
}
