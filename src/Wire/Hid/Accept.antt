-- ===== src/Wire/Hid/Accept.antt =====
-- What an assembler accepts, and what it returns, for any packets whatever their origin.
use fido_go.Base.{
  ℕ, ◌+◌, ◌-◌, ◌≡◌, refl, ◌∙◌, true, List, [], ◌∷◌, ◌++◌, append-nil, append_assoc, arith, length,
  take, drop, length-take, length-drop, take_all, take_of_min, take-append_fill, Bytes, u8,
  uint16_at, >>=-eq-ok, ok,
}
use fido_go.Wire.Hid.RoundTrip.{between}
use fido_go.Wire.Hid.Order.{IsPacket, IsNumbered, IsMessage}
use fido_go.Wire.Hid.{Codec, Assembler, new_assembler, add, payload, add_all}

-- The data bytes of a message's packets, padding included.
abbrev continuation_data : List Bytes → Bytes
continuation_data [] = []
continuation_data (p ∷ ps) = drop 5 p ++ continuation_data ps

abbrev pub packet_data : List Bytes → Bytes
packet_data [] = []
packet_data (p ∷ ps) = drop 7 p ++ continuation_data ps

abbrev pub declared : List Bytes → ℕ
declared [] = 0
declared (p ∷ _) = uint16_at p 5

add_first-eq-ok :
    (c : Codec) (p : Bytes) {b : Assembler}
    → add (new_assembler c) p ≡ ok b
    → (b ≡ between c (uint16_at p 5) 0 (take (uint16_at p 5) (drop 7 p))) × IsPacket c c.command p
unfolding add new_assembler
add_first-eq-ok c p h = ground (arith, take_of_min (uint16_at p 5) (drop 7 p), length-drop 7 p)

add_next-eq-ok :
    (c : Codec) (n s : ℕ) (front p : Bytes) {b : Assembler}
    → add (between c n s (take n front)) p ≡ ok b
    → (b ≡ between c n (u8 (s + 1)) (take n (front ++ drop 5 p))) × IsPacket c s p
unfolding add
add_next-eq-ok c n s front p h =
    ground (arith, length-drop 5 p, take-append_fill n (length p - 5) front (drop 5 p))

-- After accepted packets the buffer holds the first `n` bytes of their data.
add_all-between :
    (ps : List Bytes) (c : Codec) (n s : ℕ) (front : Bytes) {b : Assembler}
    → add_all (between c n s (take n front)) ps ≡ ok b
    → (t : ℕ) × (b ≡ between c n t (take n (front ++ continuation_data ps))) × IsNumbered c s ps
unfolding add_all
add_all-between [] c n s front h = (s, rw append-nil (cc), tt)
add_all-between (p ∷ ps) c n s front h =
    let (a, first, later) =
      >>=-eq-ok (add (between c n s (take n front)) p) (λ a. add_all a ps) h in
    let (e, packet) = add_next-eq-ok c n s front p first in
    let (t, last, rest) = add_all-between ps c n (u8 (s + 1)) (front ++ drop 5 p) (rw e at later) in
    (t, last ∙ rw append_assoc, (packet, rest))

add_all-eq-ok :
    (c : Codec) (p : Bytes) (ps : List Bytes) {b : Assembler}
    → add_all (new_assembler c) (p ∷ ps) ≡ ok b
    → (t : ℕ) × (b
        ≡ between c (uint16_at p 5) t (take (uint16_at p 5) (drop 7 p ++ continuation_data ps)))
      × IsMessage c (p ∷ ps)
unfolding add_all
add_all-eq-ok c p ps h =
    let (a, first, later) = >>=-eq-ok (add (new_assembler c) p) (λ a. add_all a ps) h in
    let (e, packet) = add_first-eq-ok c p first in
    let (t, last, rest) = add_all-between ps c (uint16_at p 5) 0 (drop 7 p) (rw e at later) in
    (t, last, (packet, rest))

payload-between :
    (c : Codec) (n t : ℕ) (front : Bytes) {message : Bytes}
    → payload (between c n t (take n front)) ≡ ok message
    → (message ≡ take n front) × (length message ≡ n)
unfolding payload
payload-between c n t front h = ground (arith, length-take n front, take_all n (take n front))

-- An assembler takes packets only of its report size and channel, first one with its command and then
-- continuations numbered from 0 in order; and when it yields a payload, that is the data of the
-- packets cut to the length that the first packet declares.
pub add_all-payload :
    (c : Codec) (packets : List Bytes) (a : Assembler) (message : Bytes)
    → add_all (new_assembler c) packets ≡ ok a
    → payload a ≡ ok message
    → IsMessage c packets
      × (message ≡ take (declared packets) (packet_data packets))
      × (length message ≡ declared packets)
unfolding add_all new_assembler payload
add_all-payload c [] a message h k = ground arith
add_all-payload c (p ∷ ps) a message h k =
    let (t, e, packets) = add_all-eq-ok c p ps h in
    let (same, size) =
      payload-between c (uint16_at p 5) t (drop 7 p ++ continuation_data ps) (rw e at k) in
    (packets, same, size)

-- A finished assembler takes nothing more.
pub add_all-done :
    (a b : Assembler) (ps : List Bytes) → a.done ≡ true → add_all a ps ≡ ok b → (ps ≡ []) × (a ≡ b)
unfolding add_all add
add_all-done a b [] d h = (refl, ground arith)
add_all-done a b (p ∷ ps) d h = ground arith
