-- ===== src/HidDevice/Connection/System/Calls.antt =====
-- The sections of a call of Write, and those that leave the calls as they are, keep the invariant.
use fido_go.Base.{
  ℕ, ◌+◌, ◌≤◌, ◌≡◌, refl, ap, ◌∙◌, ◌≢◌, ◌⊎◌, inl, inr, Bool, true, false, Option, none, List, ◌∷◌,
  ◌++◌, arith, ok,
}
use fido_go.HidDevice.Reports.{Report}
use fido_go.HidDevice.Connection.{Context, Connection}
use fido_go.HidDevice.Connection.Soundness.{Keeps, untouched}
use fido_go.HidDevice.Connection.Soundness.Sections.{
  start_write-Keeps, complete_write-Keeps, conclude_write-Keeps,
}
use fido_go.HidDevice.Connection.Writes.{
  PendingWrite, admit_write, start_write, complete_write, conclude_write,
}
use fido_go.HidDevice.Connection.System.{
  System, Call, in_call, leaving, returned, is_active, is_owner, is_orphan, total,
}
use fido_go.HidDevice.Connection.System.Invariant.{
  IsSteady, flag, total-append, is_active_bound, active_bound, cleanups_kept, admit_write-ok,
  alone_or_retired, alone_mono, none_of,
}

pub flag_bound : (b : Bool) → flag b ≤ 1
flag_bound true = omega arith
flag_bound false = omega arith

module _ {X : Type 0} where
  module _ (s : System X) (i : IsSteady s) where
    -- A section that leaves the calls as they are.
    pub keep-IsSteady :
        (c' : Connection X) (pump : Bool)
        → Keeps s.conn c'
        → (s.pump ≡ false → pump ≡ false)
        → IsSteady (record s { conn = c'; pump = pump })
    keep-IsSteady c' pump k off = record {
      sound = k.sound;
      owned = ground (arith, i.owned, k.same_busy);
      orphaned = λ h. k.stays (i.orphaned h);
      one_write = i.one_write;
      closed_once = omega (arith, i.closed_once, cleanups_kept s.conn c' i.sound k);
      quiet = λ h. (off (i.quiet h).0, (i.quiet h).1);
      recorded = ground (arith, i.recorded, k.same_done);
    }

    -- A section of one call.
    call-IsSteady :
        (c' : Connection X) (before after : List (Call X)) (call call' : Call X)
        → s.calls ≡ before ++ (call ∷ after)
        → Keeps s.conn c'
        → is_owner call' ≤ is_owner call
        → is_active call' ≤ is_active call
        → (is_orphan call' ≤ is_orphan call) ⊎ (c'.retiring ≡ true)
        → IsSteady (record s { conn = c'; calls = before ++ (call' ∷ after) })
    call-IsSteady c' before after call call' h k o a r =
        let split : (f : Call X → ℕ) → total f s.calls ≡ total f before + (f call + total f after) =
          λ f. ap (total f) h ∙ total-append f before (call ∷ after) in
        let joined : (f : Call X → ℕ)
            → total f (before ++ (call' ∷ after)) ≡ total f before + (f call' + total f after) =
          λ f. total-append f before (call' ∷ after) in
        record {
          sound = k.sound;
          owned = ground (arith, i.owned, k.same_busy, split is_owner, joined is_owner, o);
          orphaned = λ g. elim r [
            | inl less ↦
                k.stays (i.orphaned (omega (arith, g, split is_orphan, joined is_orphan, less)))
            | inr e ↦ e
          ];
          one_write = omega (arith, i.one_write, split is_active, joined is_active, a);
          closed_once = omega (arith, i.closed_once, cleanups_kept s.conn c' i.sound k);
          quiet = λ g.
              let (off, none_active) = i.quiet g in
              (off, omega (arith, none_active, split is_active, joined is_active, a));
          recorded = ground (arith, i.recorded, k.same_done);
        }

    pub write_begins-IsSteady :
        (context : Context X) (report : Report) (pending : PendingWrite X)
        → (admit_write context report s.conn).0 ≡ ok pending
        → IsSteady (record s {
          conn = (admit_write context report s.conn).1;
          calls = record { pending = pending; phase = in_call } ∷ s.calls;
        })
    write_begins-IsSteady context report pending h =
        let (same, (free, (still, fresh))) = admit_write-ok s.conn context report pending h in
        let no_owner : total is_owner s.calls ≡ 0 = ground (arith, i.owned, free) in
        let no_orphan : total is_orphan s.calls ≡ 0 =
          none_of (total is_orphan s.calls) s.conn.retiring i.orphaned still in
        let no_cleanup : s.conn.cleanups ≡ 0 = ground (arith, still, i.sound.one_cleanup) in
        let none_closed : s.device_closes ≡ 0 = omega (arith, i.closed_once, no_cleanup) in
        rw (same) (record {
          sound =
              untouched s.conn i.sound s.conn.read_busy true s.conn.ready s.conn.done
                s.conn.close_err;
          owned = omega (arith, no_owner);
          orphaned = λ g. omega (arith, g, no_orphan);
          one_write = omega (
            arith,
            active_bound s.calls,
            no_owner,
            no_orphan,
            is_active_bound (record { pending = pending; phase = in_call }),
          );
          closed_once = i.closed_once;
          quiet = λ g. ground (arith, g, none_closed);
          recorded = i.recorded;
        })

    pub write_starts-IsSteady :
        (context_error : Option X) (before after : List (Call X)) (call : Call X)
        → s.calls ≡ before ++ (call ∷ after)
        → call.pending.is_completed ≡ false
        → IsSteady (record s {
          conn = (start_write context_error call.pending s.conn).1;
          calls =
              before
              ++ (record call { pending = (start_write context_error call.pending s.conn).0 }
                  ∷ after);
        })
    write_starts-IsSteady context_error before after call h active =
        let call' : Call X = record call {
          pending = (start_write context_error call.pending s.conn).0;
        } in
        let less : is_active call' ≤ is_active call =
          ground (arith, active, is_active_bound call') in
        call-IsSteady (start_write context_error call.pending s.conn).1 before after call call' h
          (start_write-Keeps s.conn i.sound context_error call.pending) (omega arith) less
          (inl (alone_mono call.phase (is_active call') (is_active call) less))

    pub write_completes-IsSteady :
        (raw : ℕ) (e : Option X) (before after : List (Call X)) (call : Call X)
        → s.calls ≡ before ++ (call ∷ after)
        → call.pending.is_completed ≡ false
        → IsSteady (record s {
          conn = (complete_write raw e call.pending s.conn).1;
          calls =
              before
              ++ (record call { pending = (complete_write raw e call.pending s.conn).0 } ∷ after);
        })
    write_completes-IsSteady raw e before after call h active =
        let call' : Call X = record call {
          pending = (complete_write raw e call.pending s.conn).0;
        } in
        let less : is_active call' ≤ is_active call =
          ground (arith, active, is_active_bound call') in
        call-IsSteady (complete_write raw e call.pending s.conn).1 before after call call' h
          (complete_write-Keeps s.conn i.sound raw e call.pending) (omega arith) less
          (inl (alone_mono call.phase (is_active call') (is_active call) less))

    pub write_concludes-IsSteady :
        (context_error : Option X) (before after : List (Call X)) (call : Call X)
        → s.calls ≡ before ++ (call ∷ after)
        → call.phase ≡ in_call
        → (call.pending.is_completed ≡ true) ⊎ (context_error ≢ none)
        → IsSteady (record s {
          conn = (conclude_write context_error call.pending s.conn).1;
          calls = before ++ (record call { phase = leaving } ∷ after);
        })
    write_concludes-IsSteady context_error before after call h waiting over =
        call-IsSteady (conclude_write context_error call.pending s.conn).1 before after call
          (record call { phase = leaving }) h
          (conclude_write-Keeps s.conn i.sound context_error call.pending)
          (rw (waiting) (omega arith)) (omega arith)
          (alone_or_retired s.conn i.sound context_error call over)

    pub write_ends-IsSteady :
        (before after : List (Call X)) (call : Call X)
        → s.calls ≡ before ++ (call ∷ after)
        → call.phase ≡ leaving
        → IsSteady (record s {
          conn = record s.conn { write_busy = false };
          calls = before ++ (record call { phase = returned } ∷ after);
        })
    write_ends-IsSteady before after call h l =
        let split : (f : Call X → ℕ) → total f s.calls ≡ total f before + (f call + total f after) =
          λ f. ap (total f) h ∙ total-append f before (call ∷ after) in
        let call' : Call X = record call { phase = returned } in
        let joined : (f : Call X → ℕ)
            → total f (before ++ (call' ∷ after)) ≡ total f before + (f call' + total f after) =
          λ f. total-append f before (call' ∷ after) in
        let owner : is_owner call ≡ 1 = rw (l) refl in
        let orphan : is_orphan call ≡ is_active call = rw (l) refl in
        let busy_bound : flag s.conn.write_busy ≤ 1 = flag_bound s.conn.write_busy in
        record {
          sound =
              untouched s.conn i.sound s.conn.read_busy false s.conn.ready s.conn.done
                s.conn.close_err;
          owned = omega (arith, i.owned, split is_owner, joined is_owner, owner, busy_bound);
          orphaned = λ g. i.orphaned (omega (arith, g, split is_orphan, joined is_orphan, orphan));
          one_write = omega (arith, i.one_write, split is_active, joined is_active);
          closed_once = i.closed_once;
          quiet = λ g.
              let (off, none_active) = i.quiet g in
              (off, omega (arith, none_active, split is_active, joined is_active));
          recorded = i.recorded;
        }
