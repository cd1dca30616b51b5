-- ===== src/HidDevice/Connection/System/Liveness.antt =====
-- A connection that retires can always finish its cleanup.
use fido_go.Base.{
  ℕ, zero, suc, ◌+◌, ◌≤◌, ◌<◌, ◌≡◌, refl, ap, ◌∙◌, ◌⊎◌, inl, inr, true, false, none, List, [], ◌∷◌,
  ◌++◌, arith, ◌==◌, Bool-cases, length,
}
use fido_go.HidDevice.Reports.{ReportLayout}
use fido_go.HidDevice.Connection.Soundness.Sections.{start_write-Keeps, complete_write-Keeps}
use fido_go.HidDevice.Connection.Writes.{submit_write, start_write, complete_write}
use fido_go.HidDevice.Connection.System.{
  System, Call, is_active, total, NoWorkers, new_system, Step, Reach, here, next, pump_stops,
  write_starts, write_completes, device_closes, cleanup_ends,
}
use fido_go.HidDevice.Connection.System.Invariant.{IsSteady, total-append}
use fido_go.HidDevice.Connection.System.Steps.{Reach-IsSteady, Step-IsSteady, Reach-keeps}

closing_cases :
    {A : Type 0} (xs : List A) → (xs ≡ []) ⊎ ((x : A) × (rest : List A) × (xs ≡ x ∷ rest))
closing_cases [] = inl refl
closing_cases (x ∷ rest) = inr (x, rest, refl)

module _ {X : Type 0} where
  Reach-Reach : {s t u : System X} → Reach s t → Reach t u → Reach s u
  Reach-Reach r here = r
  Reach-Reach r (next r' step) = next (Reach-Reach r r') step

  -- A worker that runs is among the calls.
  find_active :
      (calls : List (Call X))
      → 0 < total is_active calls
      → (before : List (Call X)) × (call : Call X) × (after : List (Call X)) × ((calls
            ≡ before ++ (call ∷ after))
          × (call.pending.is_completed ≡ false))
  find_active [] h = ground (arith, h)
  find_active (call ∷ calls) h = elim (Bool-cases call.pending.is_completed) [
    | inr e ↦ ([], call, calls, (refl, e))
    | inl e ↦
        let (before, found, after, (same, active)) = find_active calls (ground (arith, h, e)) in
        (call ∷ before, found, after, (ap (λ cs. call ∷ cs) same, active))
  ]

  -- The end of a worker, with the connection that it leaves.
  settle_one :
      (s : System X)
      → IsSteady s
      → s.conn.retiring ≡ true
      → 0 < total is_active s.calls
      → (t : System X) × (Step s t
          × ((t.conn.retiring ≡ true)
              × ((t.pump ≡ s.pump) × (total is_active t.calls < total is_active s.calls))))
  unfolding start_write submit_write complete_write
  settle_one s i r h =
      let (before, call, after, (same, active)) = find_active s.calls h in
      let split : total is_active s.calls
          ≡ total is_active before + (is_active call + total is_active after) =
        ap (total is_active) same ∙ total-append is_active before (call ∷ after) in
      let one : is_active call ≡ 1 = ground (arith, active) in
      elim (Bool-cases call.pending.submitted) [
        | inr u ↦
            let call' : Call X = record call {
              pending = (start_write none call.pending s.conn).0;
            } in
            let finished : is_active call' ≡ 0 = ground (arith, r) in
            let joined = total-append is_active before (call' ∷ after) in
            (
              record s {
                conn = (start_write none call.pending s.conn).1;
                calls = before ++ (call' ∷ after);
              },
              (
                write_starts none before after call same u active,
                (
                  (start_write-Keeps s.conn i.sound none call.pending).stays r,
                  (refl, omega (arith, split, one, joined, finished)),
                ),
              ),
            )
        | inl u ↦
            let call' : Call X = record call {
              pending = (complete_write 2 none call.pending s.conn).0;
            } in
            let finished : is_active call' ≡ 0 = refl in
            let joined = total-append is_active before (call' ∷ after) in
            (
              record s {
                conn = (complete_write 2 none call.pending s.conn).1;
                calls = before ++ (call' ∷ after);
              },
              (
                write_completes 2 none before after call same u active,
                (
                  (complete_write-Keeps s.conn i.sound 2 none call.pending).stays r,
                  (refl, omega (arith, split, one, joined, finished)),
                ),
              ),
            )
      ]

  -- All workers can end.
  settle :
      (n : ℕ) (s : System X)
      → IsSteady s
      → s.conn.retiring ≡ true
      → total is_active s.calls ≤ n
      → (t : System X) × (Reach s t
          × ((t.conn.retiring ≡ true) × ((t.pump ≡ s.pump) × (total is_active t.calls ≡ 0))))
  settle zero s i r h = (s, (here, (r, (refl, omega (arith, h)))))
  settle (suc n) s i r h = elim (Bool-cases (total is_active s.calls == 0)) [
    | inl e ↦ (s, (here, (r, (refl, ground (arith, e)))))
    | inr e ↦
        let (t, (step, (r', (p, less)))) = settle_one s i r (ground (arith, e)) in
        let (u, (path, (r'', (p', none_left)))) =
          settle n t (Step-IsSteady i step) r' (omega (arith, h, less)) in
        (u, (Reach-Reach (next here step) path, (r'', (p' ∙ p, none_left))))
  ]

  -- With no worker left, the cleanup closes the device, if that is not done, and signals `done`.
  clean_up :
      (s : System X)
      → IsSteady s
      → s.conn.retiring ≡ true
      → NoWorkers s
      → (t : System X) × (Reach s t × (t.conn.done ≡ true))
  clean_up s i r still = elim (Bool-cases s.conn.done) [
    | inl d ↦ (s, (here, d))
    | inr d ↦ elim (closing_cases s.closing) [
      | inr (e, rest, h) ↦ (
        record s { conn = record s.conn { close_err = e; done = true }; closing = rest },
        (next here (cleanup_ends e rest h), refl),
      )
      | inl h ↦
          let none_closed : s.device_closes < s.conn.cleanups =
            ground (arith, i.recorded, ap length h, d, i.sound.one_cleanup, r) in
          (
            record s {
              conn = record s.conn { close_err = none; done = true };
              device_closes = suc s.device_closes;
            },
            (
              next (next here (device_closes none none_closed still))
                  (cleanup_ends none s.closing refl),
              refl,
            ),
          )
    ]
  ]

  -- The pump can stop.
  stop_pump :
      (s : System X)
      → s.conn.retiring ≡ true
      → (t : System X) × (Reach s t × ((t.conn.retiring ≡ true) × (t.pump ≡ false)))
  stop_pump s r = elim (Bool-cases s.pump) [
    | inl on ↦ (record s { pump = false }, (next here (pump_stops on r), (r, refl)))
    | inr off ↦ (s, (here, (r, off)))
  ]

  -- From any state that a connection reaches with retirement begun, its goroutines can go on so that the
  -- cleanup ends: the device is closed, once, and `done` is signalled.
  pub Reach-done :
      (layout : ReportLayout) (s : System X)
      → Reach (new_system layout) s
      → s.conn.retiring ≡ true
      → (t : System X) × (Reach s t × ((t.conn.done ≡ true) × (t.device_closes ≡ 1)))
  Reach-done layout s reached r =
      let i = Reach-IsSteady layout s reached in
      let (t, (path_t, (r_t, off_t))) = stop_pump s r in
      let i_t = Reach-keeps i path_t in
      let (u, (path_u, (r_u, (same_pump, idle)))) =
        settle (total is_active t.calls) t i_t r_t (omega arith) in
      let i_u = Reach-keeps i_t path_u in
      let (v, (path_v, done)) = clean_up u i_u r_u (same_pump ∙ off_t, idle) in
      let i_v = Reach-keeps i_u path_v in
      let once : v.device_closes ≡ 1 = ground (
        arith,
        i_v.recorded,
        done,
        i_v.closed_once,
        i_v.sound.one_cleanup,
        Bool-cases v.conn.retiring,
      ) in
      (v, (Reach-Reach path_t (Reach-Reach path_u path_v), (done, once)))
