-- ===== src/Wire/Ble/Accept.antt =====
-- What an assembler accepts, and what it returns, for any fragments whatever their origin.
use fido_go.Base.{
  ℕ, ◌≤◌, ◌≡◌, ◌∙◌, List, [], ◌∷◌, ◌++◌, append-nil, append_assoc, arith, length, take, drop,
  length-take, length-drop, take_all, take_of_min, drop-append_le, take-append_fill, All, Bytes,
  uint16_at, >>=-eq-ok, ok,
}
use fido_go.Wire.Ble.RoundTrip.{between}
use fido_go.Wire.Ble.{Codec, Assembler, new_assembler, add, payload, add_all}

-- The fragments of a message one after the other, less the length field.
abbrev pub fragment_data : List Bytes → Bytes
fragment_data [] = []
fragment_data (p ∷ ps) = p ++ fragment_data ps

abbrev pub declared : List Bytes → ℕ
declared [] = 0
declared (p ∷ _) = uint16_at p 0

abbrev Fits : Codec → Bytes → Type 0
Fits c p = length p ≤ c.mtu

add_first-eq-ok :
    (c : Codec) (p : Bytes) {b : Assembler}
    → add (new_assembler c) p ≡ ok b
    → (b ≡ between c (uint16_at p 0) (take (uint16_at p 0) (drop 2 p))) × Fits c p × (2 ≤ length p)
unfolding add new_assembler
add_first-eq-ok c p h = ground (arith, take_of_min (uint16_at p 0) (drop 2 p), length-drop 2 p)

add_next-eq-ok :
    (c : Codec) (n : ℕ) (front p : Bytes) {b : Assembler}
    → add (between c n (take n front)) p ≡ ok b
    → (b ≡ between c n (take n (front ++ p))) × Fits c p
unfolding add
add_next-eq-ok c n front p h = ground (arith, take-append_fill n (length p) front p)

add_all-between :
    (ps : List Bytes) (c : Codec) (n : ℕ) (front : Bytes) {b : Assembler}
    → add_all (between c n (take n front)) ps ≡ ok b
    → (b ≡ between c n (take n (front ++ fragment_data ps))) × All (Fits c) ps
unfolding add_all
add_all-between [] c n front h = (rw append-nil (cc), tt)
add_all-between (p ∷ ps) c n front h =
    let (a, first, later) = >>=-eq-ok (add (between c n (take n front)) p) (λ a. add_all a ps) h in
    let (e, fits) = add_next-eq-ok c n front p first in
    let (last, rest) = add_all-between ps c n (front ++ p) (rw e at later) in
    (last ∙ rw append_assoc, (fits, rest))

payload-between :
    (c : Codec) (n : ℕ) (front : Bytes) {message : Bytes}
    → payload (between c n (take n front)) ≡ ok message
    → (message ≡ take n front) × (length message ≡ n)
unfolding payload
payload-between c n front h = ground (arith, length-take n front, take_all n (take n front))

-- An assembler takes only fragments within the MTU; and when it yields a payload, that is the
-- fragments' data cut to the length that the first fragment declares, and has that length.
pub payload-add_all :
    (c : Codec) (fragments : List Bytes) (a : Assembler) (message : Bytes)
    → add_all (new_assembler c) fragments ≡ ok a
    → payload a ≡ ok message
    → All (Fits c) fragments
      × (message ≡ take (declared fragments) (drop 2 (fragment_data fragments)))
      × (length message ≡ declared fragments)
unfolding add_all new_assembler payload
payload-add_all c [] a message h k = ground arith
payload-add_all c (p ∷ ps) a message h k =
    let (b, first, later) = >>=-eq-ok (add (new_assembler c) p) (λ a. add_all a ps) h in
    let (e, fits, two) = add_first-eq-ok c p first in
    let (last, rest) = add_all-between ps c (uint16_at p 0) (drop 2 p) (rw e at later) in
    let (same, size) =
      payload-between c (uint16_at p 0) (drop 2 p ++ fragment_data ps) (rw last at k) in
    ((fits, rest), rw (drop-append_le 2 p (fragment_data ps) two) same, size)
