-- ===== src/Wire/Nfc/Chain.antt =====
-- The command chain that a payload is cut into.
use fido_go.Base.{
  ℕ, zero, suc, ◌+◌, ◌≤◌, ◌<◌, min, bit_or, ◌≡◌, refl, Bool, true, false, not, List, [], ◌∷◌, ◌++◌,
  arith, ◌==◌, if◌then◌else◌, length, take, drop, take-append-drop, length-take, length-drop, Bytes,
  byte_at, ok,
}
use fido_go.Wire.Nfc.{Codec, command_packet, chain, fragment}

-- What `NewCodec` checks.
pub record IsValid (c : Codec) : Type 0 where
  pub chunk_pos : 0 < c.max_chunk_size
  pub chunk_fits : c.max_chunk_size ≤ 255

-- A command APDU with the codec's header: `more` is the chaining bit of the class, and the length
-- byte counts the data behind it.
pub record IsCommand (c : Codec) (more : Bool) (p : Bytes) : Type 0 where
  pub class_is : byte_at p 0 ≡ (if more then bit_or c.class 0x10 else c.class)
  pub instruction_is : byte_at p 1 ≡ c.instruction
  pub parameter1_is : byte_at p 2 ≡ c.parameter1
  pub parameter2_is : byte_at p 3 ≡ c.parameter2
  pub length_is : byte_at p 4 ≡ length (drop 5 p)
  pub whole : length p ≡ 5 + length (drop 5 p)
  pub data_fits : length (drop 5 p) ≤ c.max_chunk_size

-- Every packet but the last has the chaining bit.
abbrev pub IsChain : Codec → List Bytes → Type 0
IsChain c [] = ⊥
IsChain c (p ∷ []) = IsCommand c false p
IsChain c (p ∷ q ∷ ps) = IsCommand c true p × IsChain c (q ∷ ps)

abbrev pub chain_data : List Bytes → Bytes
chain_data [] = []
chain_data (p ∷ ps) = drop 5 p ++ chain_data ps

command_packet-IsCommand :
    (c : Codec) (last : Bool) (chunk : Bytes)
    → IsValid c
    → length chunk ≤ c.max_chunk_size
    → IsCommand c (not last) (command_packet c last chunk)
unfolding command_packet
command_packet-IsCommand c last chunk v h = record {
  class_is = refl;
  instruction_is = refl;
  parameter1_is = refl;
  parameter2_is = refl;
  length_is = omega (arith, v.chunk_fits);
  whole = omega arith;
  data_fits = h;
}

chain-data :
    (fuel : ℕ) (c : Codec) (remaining : Bytes)
    → IsValid c
    → length remaining ≤ fuel
    → chain_data (chain fuel c remaining) ≡ remaining
unfolding chain command_packet
chain-data zero c [] v h = refl
chain-data zero c (b ∷ bs) v h = absurd (omega arith)
chain-data (suc fuel) c [] v h = refl
chain-data (suc fuel) c (b ∷ bs) v h =
    let size = min (length (b ∷ bs)) c.max_chunk_size in
    rw
      (chain-data fuel c (drop size (b ∷ bs)) v
        (omega (arith, length-drop size (b ∷ bs), v.chunk_pos)))
      (take-append-drop size (b ∷ bs))

-- A packet before what follows it: the last one when nothing is left.
IsChain-cons :
    (fuel : ℕ) (c : Codec) (p rest : Bytes)
    → IsCommand c (not (length rest == 0)) p
    → ((0 < length rest) → IsChain c (chain fuel c rest))
    → length rest ≤ fuel
    → IsChain c (p ∷ chain fuel c rest)
unfolding chain
IsChain-cons zero c p [] command later h = command
IsChain-cons zero c p (b ∷ bs) command later h = absurd (omega arith)
IsChain-cons (suc fuel) c p [] command later h = command
IsChain-cons (suc fuel) c p (b ∷ bs) command later h =
    let some_left : (suc (length bs) == 0) ≡ false = ground arith in
    (rw some_left at command, later (omega arith))

chain-IsChain :
    (fuel : ℕ) (c : Codec) (remaining : Bytes)
    → IsValid c
    → length remaining ≤ fuel
    → 0 < length remaining
    → IsChain c (chain fuel c remaining)
unfolding chain
chain-IsChain zero c remaining v h k = absurd (omega arith)
chain-IsChain (suc fuel) c [] v h k = absurd (omega arith)
chain-IsChain (suc fuel) c (b ∷ bs) v h k =
    let size = min (length (b ∷ bs)) c.max_chunk_size in
    let rest = drop size (b ∷ bs) in
    let dropped = length-drop size (b ∷ bs) in
    let left : length rest ≤ fuel = omega (arith, dropped, v.chunk_pos) in
    let same : (size == length (b ∷ bs)) ≡ (length rest == 0) = ground (arith, dropped) in
    IsChain-cons fuel c (command_packet c (size == length (b ∷ bs)) (take size (b ∷ bs))) rest
      (rw (← same) (
        command_packet-IsCommand c (size == length (b ∷ bs)) (take size (b ∷ bs)) v
          (omega (arith, length-take size (b ∷ bs)))))
      (λ k. chain-IsChain fuel c rest v left k) left

-- Every payload is cut into a chain of commands whose data, one after the other, is the payload:
-- all but the last have the chaining bit, and no chunk is longer than the limit.
pub fragment-IsChain :
    (c : Codec) (message : Bytes)
    → IsValid c
    → (packets : List Bytes) × (fragment c message ≡ ok packets)
      × IsChain c packets
      × (chain_data packets ≡ message)
unfolding fragment
fragment-IsChain c [] v = (
  (c.class ∷ c.instruction ∷ c.parameter1 ∷ c.parameter2 ∷ 0 ∷ []) ∷ [],
  refl,
  record {
    class_is = refl;
    instruction_is = refl;
    parameter1_is = refl;
    parameter2_is = refl;
    length_is = refl;
    whole = refl;
    data_fits = omega arith;
  },
  refl,
)
fragment-IsChain c (b ∷ bs) v = (
  chain (length (b ∷ bs)) c (b ∷ bs),
  refl,
  chain-IsChain (length (b ∷ bs)) c (b ∷ bs) v (omega arith) (omega arith),
  chain-data (length (b ∷ bs)) c (b ∷ bs) v (omega arith),
)
