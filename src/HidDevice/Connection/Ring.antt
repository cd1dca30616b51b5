-- ===== src/HidDevice/Connection/Ring.antt =====
-- The queue of pkg/hid/connection.go refines a list of reports.
use fido_go.Base.{
  ℕ, zero, suc, ◌+◌, ◌-◌, ◌%◌, ◌≤◌, ◌<◌, ◌≡◌, refl, sym, ap, ap₂, ◌≢◌, ◌⊎◌, inl, inr, true, false,
  none, some, List, [], ◌∷◌, ◌++◌, arith, ltb, ltb→lt, Bool-cases, length, get_or, ok,
}
use fido_go.HidDevice.Reports.{Report, empty_report, fits}
use fido_go.HidDevice.Connection.{
  Connection, got_report, input_queue_size, set_slot, queue_report, pump_report, take_report,
  poll_read, wake_locked,
}

pub length-set_slot :
    {A : Type 0} (n : ℕ) (a : A) (xs : List A) → length (set_slot n a xs) ≡ length xs
unfolding set_slot
length-set_slot n a [] = refl
length-set_slot zero a (x ∷ xs) = refl
length-set_slot (suc n) a (x ∷ xs) = ap suc (length-set_slot n a xs)

get_or-set_slot :
    {A : Type 0} (d : A) (n : ℕ) (a : A) (xs : List A)
    → n < length xs
    → get_or (set_slot n a xs) n d ≡ a
unfolding set_slot
get_or-set_slot d n a [] h = ground (arith, h)
get_or-set_slot d zero a (x ∷ xs) h = refl
get_or-set_slot d (suc n) a (x ∷ xs) h = get_or-set_slot d n a xs (omega (arith, h))

get_or-set_slot_other :
    {A : Type 0} (d : A) (m n : ℕ) (a : A) (xs : List A)
    → m ≢ n
    → get_or (set_slot n a xs) m d ≡ get_or xs m d
unfolding set_slot
get_or-set_slot_other d m n a [] h = refl
get_or-set_slot_other d zero zero a (x ∷ xs) h = elim (h refl) [ ]
get_or-set_slot_other d zero (suc n) a (x ∷ xs) h = refl
get_or-set_slot_other d (suc m) zero a (x ∷ xs) h = refl
get_or-set_slot_other d (suc m) (suc n) a (x ∷ xs) h =
    get_or-set_slot_other d m n a xs (λ e. h (ap suc e))

-- The reports of `n` slots from a slot on, around the end.
unfoldable pub window : ℕ → ℕ → List Report → List Report
window zero start queue = []
window (suc n) start queue =
    get_or queue start empty_report ∷ window n ((start + 1) % input_queue_size) queue

-- A slot at `d` places after the start is outside of a shorter window.
window-set_slot :
    (n d start slot : ℕ) (report : Report) (queue : List Report)
    → n ≤ d
    → d < 64
    → start < 64
    → slot ≡ (start + d) % 64
    → window n start (set_slot slot report queue) ≡ window n start queue
unfolding window
window-set_slot zero d start slot report queue h k l e = refl
window-set_slot (suc n) d start slot report queue h k l e =
    ap₂ (λ a b. a ∷ b)
      (get_or-set_slot_other empty_report start slot report queue (omega (arith, e, h, k, l)))
      (window-set_slot n (d - 1) ((start + 1) % 64) slot report queue (omega (arith, h))
        (omega (arith, k)) (omega (arith, l)) (omega (arith, h, k, l, e)))

window_end :
    (n start slot : ℕ) (report : Report) (queue : List Report)
    → n < 64
    → start < 64
    → length queue ≡ 64
    → slot ≡ (start + n) % 64
    → window (suc n) start (set_slot slot report queue) ≡ window n start queue ++ (report ∷ [])
unfolding window
window_end zero start slot report queue h k l e =
    let here : slot ≡ start = omega (arith, k, e) in
    rw (here)
      (ap (λ a. a ∷ []) (get_or-set_slot empty_report start report queue (omega (arith, k, l))))
window_end (suc n) start slot report queue h k l e =
    ap₂ (λ a b. a ∷ b)
      (get_or-set_slot_other empty_report start slot report queue (omega (arith, e, h, k)))
      (window_end n ((start + 1) % 64) slot report queue (omega (arith, h)) (omega (arith, k)) l
        (omega (arith, h, k, e)))

-- The reports that wait, in the order of their arrival.
pub waiting : {X : Type 0} → Connection X → List Report
waiting c = window c.count c.head c.queue

-- The queue has 64 slots, and the head is one of them.
pub record IsRing {X : Type 0} (c : Connection X) : Type 0 where
  pub slots : length c.queue ≡ 64
  pub head_bound : c.head < 64
  pub count_bound : c.count ≤ 64

module _ {X : Type 0} (c : Connection X) (ring : IsRing c) where
  take_report-waiting :
      (n : ℕ) → c.count ≡ suc n → waiting c ≡ (take_report c).0 ∷ waiting (take_report c).1
  unfolding waiting take_report window
  take_report-waiting n h =
      let rest =
        window-set_slot n 63 ((c.head + 1) % 64) c.head empty_report c.queue
          (omega (arith, h, ring.count_bound)) (omega arith) (omega arith)
          (omega (arith, ring.head_bound)) in
      let less : c.count - 1 ≡ n = omega (arith, h) in
      rw (less, h) (ap (λ r. get_or c.queue c.head empty_report ∷ r) (sym rest))

  read_open :
      c.retiring ≡ false
      → ((waiting c ≡ []) × (poll_read none none c ≡ (none, c)))
        ⊎ ((first : Report) × (rest : List Report) × ((waiting c ≡ first ∷ rest)
              × (((poll_read none none c).0 ≡ some (ok first))
                  × (waiting (poll_read none none c).1 ≡ rest))))
  unfolding poll_read wake_locked waiting window
  read_open still = elim (Bool-cases (ltb 0 c.count)) [
    | inl e ↦
        let more : c.count ≡ suc (c.count - 1) = omega (arith, ltb→lt 0 c.count e) in
        inr (
          (take_report c).0,
          waiting (take_report c).1,
          (take_report-waiting (c.count - 1) more, (ground (arith, still, e), rw (still, e) refl)),
        )
    | inr e ↦
        let empty : c.count ≡ 0 = ground (arith, e) in
        inl (rw (empty) refl, ground (arith, still, e))
  ]

  -- While the connection is open, a fitting report is queued behind those that wait, if there are fewer
  -- than 64; a read takes the first of those that wait, and waits on where there is none.
  pub queue-waiting :
      (arriving : Report)
      → c.retiring ≡ false
      → fits c.layout.input arriving ≡ true
      → c.count < 64
      → (waiting (pump_report (got_report arriving) c).1 ≡ waiting c ++ (arriving ∷ []))
        × (((waiting c ≡ []) × (poll_read none none c ≡ (none, c)))
            ⊎ ((first : Report) × (rest : List Report) × ((waiting c ≡ first ∷ rest)
                  × (((poll_read none none c).0 ≡ some (ok first))
                      × (waiting (poll_read none none c).1 ≡ rest)))))
  unfolding waiting pump_report queue_report poll_read wake_locked window
  queue-waiting arriving still fitting below =
      let queued =
        window_end c.count c.head ((c.head + c.count) % 64) arriving c.queue below ring.head_bound
          ring.slots refl in
      (ground (arith, still, fitting, below, queued), read_open still)
