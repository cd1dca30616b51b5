-- ===== src/Wire/Hid/Messages.antt =====
-- The packets of one message, as a reader needs them.
use fido_go.Base.{
  ℕ, ◌^◌, ◌≤◌, ◌<◌, bit_and, ◌≡◌, ap, ◌∙◌, ◌≢◌, inl, inr, true, false, List, [], ◌∷◌, arith,
  Bool-cases, length, Bytes, ◌>>=◌, >>=-eq-ok, ok,
}
use fido_go.Wire.Hid.RoundTrip.{IsValid, reassemble-fragment}
use fido_go.Wire.Hid.Accept.{add_all-done}
use fido_go.Wire.Hid.Order.{IsMessage, fragment-IsMessage}
use fido_go.Wire.Hid.{
  Codec, Assembler, max_payload_size, fragment, new_assembler, add, add_all, payload, new_codec,
}

-- `packets` are what `Fragment` makes of `message`, and the assembler ends on them as `last`.
pub record Fragments (c : Codec) (message : Bytes) (packets : List Bytes) (last : Assembler)
    : Type 0 where
  pub is_message : IsMessage c packets
  pub adds : add_all (new_assembler c) packets ≡ ok last
  pub done : last.done ≡ true
  pub payload_is : payload last ≡ ok message

payload-eq-ok : (a : Assembler) {message : Bytes} → payload a ≡ ok message → a.done ≡ true
unfolding payload
payload-eq-ok a h = ground arith

pub fragment-Fragments :
    (c : Codec) (message : Bytes) (packets : List Bytes)
    → IsValid c
    → length message ≤ max_payload_size c.report_size
    → length message < 2 ^ 16
    → fragment c message ≡ ok packets
    → (last : Assembler) × Fragments c message packets last
fragment-Fragments c message packets v small short h =
    let whole = reassemble-fragment c message v small short in
    let after : (do a ← add_all (new_assembler c) packets; payload a) ≡ ok message =
      rw h at whole in
    let (last, adds, ends) = >>=-eq-ok (add_all (new_assembler c) packets) payload after in
    (
      last,
      record {
        is_message = (fragment-IsMessage c message packets v h).0;
        adds = adds;
        done = payload-eq-ok last ends;
        payload_is = ends;
      },
    )

-- The constructor accepts exactly the valid codecs.
new_codec-eq-ok :
    (channel command report_size : ℕ) {c : Codec}
    → new_codec channel command report_size ≡ ok c
    → (c ≡ record { channel = channel; command = command; report_size = report_size })
      × (7 < report_size)
      × (bit_and command 0x80 ≢ 0)
unfolding new_codec
new_codec-eq-ok channel command report_size h = ground arith

pub new_codec-IsValid : (c : Codec) → IsValid c → new_codec c.channel c.command c.report_size ≡ ok c
unfolding new_codec
new_codec-IsValid c v = ground (arith, v.report_size_fits, v.command_bit)

-- One accepted packet of a message: the last one, or one with more to come.
pub data Taken (a b : Assembler) (p : Bytes) (ps : List Bytes) : Type 0 where
  last : add a p ≡ ok b → ps ≡ [] → Taken a b p ps
  more : (m : Assembler) → add a p ≡ ok m → m.done ≡ false → add_all m ps ≡ ok b → Taken a b p ps

pub add_all-Taken :
    (a b : Assembler) (p : Bytes) (ps : List Bytes)
    → add_all a (p ∷ ps) ≡ ok b
    → b.done ≡ true
    → Taken a b p ps
unfolding add_all
add_all-Taken a b p ps h d =
    let (m, first, later) = >>=-eq-ok (add a p) (λ m. add_all m ps) h in
    elim (Bool-cases m.done) [
      | inl e ↦
          let (none_left, same) = add_all-done m b ps e later in last (first ∙ ap ok same) none_left
      | inr e ↦ more m first e later
    ]

pub add_all-nil : (a b : Assembler) → add_all a [] ≡ ok b → a ≡ b
unfolding add_all
add_all-nil a b h = ground arith

pub max_payload_size-pos : (c : Codec) → IsValid c → 1 ≤ max_payload_size c.report_size
unfolding max_payload_size
max_payload_size-pos c v = omega (arith, v.report_size_fits)
