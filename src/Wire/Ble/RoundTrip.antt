-- ===== src/Wire/Ble/RoundTrip.antt =====
-- Reassembly undoes fragmentation, and every fragment fits the MTU.
use fido_go.Base.{
  ℕ, zero, suc, ◌+◌, ◌-◌, ◌^◌, ◌≤◌, ◌<◌, min, ◌≡◌, true, some, List, [], ◌∷◌, ◌++◌, append-nil,
  append_assoc, arith, leb, length, take, drop, length-append, take-append-drop, length-take,
  length-drop, take_all, All, Bytes, ◌>>=◌, ok,
}
use fido_go.Wire.Ble.{
  Codec, Assembler, first_fragment, later_fragments, fragment, new_assembler, add, payload, add_all,
}

-- What `NewCodec` checks.
abbrev pub IsValid : Codec → Type 0
IsValid c = 2 < c.mtu

-- The assembler between two fragments, with `n` bytes declared.
abbrev pub between : Codec → ℕ → Bytes → Assembler
between c n buffer = record {
  codec = c;
  started = true;
  done = leb n (length buffer);
  total = some n;
  buffer = buffer;
}

add_chunk :
    (c : Codec) (n : ℕ) (buffer chunk : Bytes)
    → length buffer < n
    → length chunk ≤ c.mtu
    → length chunk ≤ n - length buffer
    → add (between c n buffer) chunk ≡ ok (between c n (buffer ++ chunk))
unfolding add
add_chunk c n buffer chunk below h k =
    ground (arith, take_all (min (n - length buffer) (length chunk)) chunk)

add_all-later_fragments :
    (fuel : ℕ) (c : Codec) (n : ℕ) (buffer remaining : Bytes)
    → IsValid c
    → length remaining ≤ fuel
    → length buffer + length remaining ≡ n
    → add_all (between c n buffer) (later_fragments fuel c remaining)
      ≡ ok (between c n (buffer ++ remaining))
unfolding add_all later_fragments
add_all-later_fragments zero c n buffer [] v h e = rw append-nil
add_all-later_fragments zero c n buffer (b ∷ bs) v h e = absurd (omega arith)
add_all-later_fragments (suc fuel) c n buffer [] v h e = rw append-nil
add_all-later_fragments (suc fuel) c n buffer (b ∷ bs) v h e =
    let size = min (length (b ∷ bs)) c.mtu in
    let chunk = take size (b ∷ bs) in
    let rest = drop size (b ∷ bs) in
    let taken = length-take size (b ∷ bs) in
    let dropped = length-drop size (b ∷ bs) in
    let later =
      add_all-later_fragments fuel c n (buffer ++ chunk) rest v (omega (arith, dropped))
        (omega (arith, length-append buffer chunk, taken, dropped)) in
    rw (
      add_chunk c n buffer chunk (omega arith) (omega (arith, taken)) (omega (arith, taken)),
      later,
      append_assoc buffer chunk rest,
      take-append-drop size (b ∷ bs),
    )

add-first_fragment :
    (c : Codec) (message : Bytes)
    → IsValid c
    → length message < 2 ^ 16
    → let size = min (length message) (c.mtu - 2) in
      add (new_assembler c) (first_fragment message size)
      ≡ ok (between c (length message) (take size message))
unfolding add first_fragment new_assembler
add-first_fragment c message v h =
    let size = min (length message) (c.mtu - 2) in
    ground (arith, length-take size message, take_all size (take size message))

-- Every message of at most 65535 bytes is fragmented, and adding its fragments in order to a fresh
-- assembler gives the message back.
pub add_all-fragment :
    (c : Codec) (message : Bytes)
    → IsValid c
    → length message < 2 ^ 16
    → (do fragments ← fragment c message; a ← add_all (new_assembler c) fragments; payload a)
      ≡ ok message
unfolding fragment payload add_all
add_all-fragment c message v short =
    let size = min (length message) (c.mtu - 2) in
    let first = take size message in
    let rest = drop size message in
    let later =
      add_all-later_fragments (length rest) c (length message) first rest v (omega arith)
        (omega (arith, length-take size message, length-drop size message)) in
    ground (
      arith,
      add-first_fragment c message v short,
      later,
      take-append-drop size message,
      take_all (length message) message,
    )

-- A fragment that can be sent: not empty, and within the MTU.
abbrev pub Fits : Codec → Bytes → Type 0
Fits c p = (0 < length p) × (length p ≤ c.mtu)

later_fragments-Fits :
    (fuel : ℕ) (c : Codec) (remaining : Bytes)
    → IsValid c
    → All (Fits c) (later_fragments fuel c remaining)
unfolding later_fragments
later_fragments-Fits zero c remaining v = tt
later_fragments-Fits (suc fuel) c [] v = tt
later_fragments-Fits (suc fuel) c (b ∷ bs) v =
    let size = min (length (b ∷ bs)) c.mtu in
    (
      (omega (arith, length-take size (b ∷ bs)), omega (arith, length-take size (b ∷ bs))),
      later_fragments-Fits fuel c (drop size (b ∷ bs)) v,
    )

-- Every fragment that is produced holds at least one byte and no more than the MTU.
pub fragment-Fits :
    (c : Codec) (message : Bytes) (fragments : List Bytes)
    → IsValid c
    → fragment c message ≡ ok fragments
    → All (Fits c) fragments
unfolding fragment first_fragment
fragment-Fits c message fragments v h =
    let size = min (length message) (c.mtu - 2) in
    let rest = drop size message in
    ground (arith, length-take size message, later_fragments-Fits (length rest) c rest v)
