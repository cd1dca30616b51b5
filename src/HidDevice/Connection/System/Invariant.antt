-- ===== src/HidDevice/Connection/System/Invariant.antt =====
-- What holds of a connection after any sections of its goroutines.
use fido_go.Base.{
  ℕ, zero, suc, ◌+◌, ◌≤◌, ◌<◌, ◌≡◌, refl, ◌≢◌, ◌⊎◌, inl, inr, Bool, true, false, Option, none, some,
  List, [], ◌∷◌, ◌++◌, arith, if◌then◌else◌, Bool-cases, length, ok,
}
use fido_go.HidDevice.Reports.{Report, fits}
use fido_go.HidDevice.Connection.{
  context_done, Context, Connection, nil_context, open_context, ended,
}
use fido_go.HidDevice.Connection.Soundness.{IsSound, Keeps, retire_locked-retiring}
use fido_go.HidDevice.Connection.Writes.{PendingWrite, new_pending, admit_write, conclude_write}
use fido_go.HidDevice.Connection.System.{
  System, Call, Phase, in_call, leaving, returned, holds, alone, is_active, is_owner, is_orphan,
  total, NoWorkers,
}

abbrev pub flag : Bool → ℕ
flag b = if b then 1 else 0

alone_bound : (phase : Phase) (n : ℕ) → n ≤ 1 → n ≤ holds phase + alone phase n
alone_bound in_call n h = omega (arith, h)
alone_bound leaving n h = omega arith
alone_bound returned n h = omega arith

idle : (phase : Phase) {n : ℕ} → n ≡ 0 → alone phase n ≡ 0
idle in_call e = refl
idle leaving e = e
idle returned e = e

pub none_of : (n : ℕ) (b : Bool) → (0 < n → b ≡ true) → b ≡ false → n ≡ 0
none_of zero b f e = refl
none_of (suc n) b f e = ground (arith, e, f (omega arith))

pub alone_mono : (phase : Phase) (m n : ℕ) → m ≤ n → alone phase m ≤ alone phase n
alone_mono in_call m n h = omega arith
alone_mono leaving m n h = h
alone_mono returned m n h = h

module _ {X : Type 0} where
  -- At most one native write runs, and no worker without a waiting caller unless the connection retires;
  -- the device is closed at most once, with no worker left.
  pub record IsSteady (s : System X) : Type 0 where
    pub sound : IsSound s.conn
    pub owned : total is_owner s.calls ≤ flag s.conn.write_busy
    pub orphaned : 0 < total is_orphan s.calls → s.conn.retiring ≡ true
    pub one_write : total is_active s.calls ≤ 1
    pub closed_once : s.device_closes ≤ s.conn.cleanups
    pub quiet : 0 < s.device_closes → NoWorkers s
    pub recorded : length s.closing + flag s.conn.done ≡ s.device_closes

  pub total-append :
      (f : Call X → ℕ) (before after : List (Call X))
      → total f (before ++ after) ≡ total f before + total f after
  total-append f [] after = omega arith
  total-append f (call ∷ before) after = omega (arith, total-append f before after)

  pub is_active_bound : (call : Call X) → is_active call ≤ 1
  is_active_bound call = elim (Bool-cases call.pending.is_completed) [
    | inl e ↦ ground (arith, e)
    | inr e ↦ ground (arith, e)
  ]

  -- A running worker has a waiting caller, or is alone.
  pub active_bound :
      (calls : List (Call X)) → total is_active calls ≤ total is_owner calls + total is_orphan calls
  active_bound [] = omega arith
  active_bound (call ∷ calls) =
      omega
        (arith, alone_bound call.phase (is_active call) (is_active_bound call), active_bound calls)

  -- Cleanups are started, and never undone.
  pub cleanups_kept : (c c' : Connection X) → IsSound c → Keeps c c' → c.cleanups ≤ c'.cleanups
  cleanups_kept c c' s k = elim (Bool-cases c.retiring) [
    | inl r ↦ ground (arith, r, s.one_cleanup, k.sound.one_cleanup, k.stays r)
    | inr r ↦ ground (arith, r, s.one_cleanup)
  ]

  -- What the admission of a write needs and changes.
  pub admit_write-ok :
      (c : Connection X) (context : Context X) (report : Report) (pending : PendingWrite X)
      → (admit_write context report c).0 ≡ ok pending
      → ((admit_write context report c).1 ≡ record c { write_busy = true })
        × ((c.write_busy ≡ false) × ((c.retiring ≡ false) × (pending ≡ new_pending)))
  unfolding admit_write
  admit_write-ok c nil_context report pending h = ground (arith, h)
  admit_write-ok c (ended e) report pending h = ground (arith, h)
  admit_write-ok c open_context report pending h = elim (Bool-cases (fits c.layout.output report)) [
    | inr f ↦ ground (arith, h, f)
    | inl f ↦ elim (Bool-cases c.retiring) [
      | inl r ↦ ground (arith, h, f, r)
      | inr r ↦ elim (Bool-cases c.write_busy) [
        | inl b ↦ ground (arith, h, f, r, b)
        | inr b ↦ ground (arith, h, f, r, b)
      ]
    ]
  ]

  pub completed-idle : (call : Call X) → call.pending.is_completed ≡ true → is_orphan call ≡ 0
  completed-idle call e = idle call.phase (ground (arith, e))

  -- A write whose wait is over is completed, or retires the connection.
  pub alone_or_retired :
      (c : Connection X) (sound : IsSound c) (context_error : Option X) (call : Call X)
      → (call.pending.is_completed ≡ true) ⊎ (context_error ≢ none)
      → (is_orphan (record call { phase = leaving }) ≤ is_orphan call)
        ⊎ ((conclude_write context_error call.pending c).1.retiring ≡ true)
  unfolding conclude_write
  alone_or_retired c sound (some e) call over =
      inr (retire_locked-retiring c sound (some (context_done e)))
  alone_or_retired c sound none call (inl e) =
      inl (omega (arith, completed-idle (record call { phase = leaving }) e))
  alone_or_retired c sound none call (inr n) = elim (n refl) [ ]
