-- ===== src/Wire/Hid/Order.antt =====
-- Which packets pass between the two ends: their size, channel and numbering.
use fido_go.Base.{
  ℕ, zero, suc, ◌+◌, ◌-◌, ◌*◌, ◌≤◌, min, ◌≡◌, refl, List, [], ◌∷◌, ◌++◌, arith, length, take, drop,
  length-take, length-drop, Bytes, u8, u16, byte_at, put_uint16, put_uint32, uint32_at, zeros,
  length-zero_filled, uint32_at-put_uint32, ok,
}
use fido_go.Wire.Hid.RoundTrip.{IsValid}
use fido_go.Wire.Hid.{
  Codec, max_payload_size, initial_packet, continuation_packet, continuations, fragment,
}

-- A report of the codec's size on its channel, with byte 4 (command or sequence number) as given.
abbrev pub IsPacket : Codec → ℕ → Bytes → Type 0
IsPacket c tag p = (length p ≡ c.report_size) × (uint32_at p 0 ≡ c.channel) × (byte_at p 4 ≡ tag)

-- Sequence numbers count up from `s` in a byte.
abbrev pub IsNumbered : Codec → ℕ → List Bytes → Type 0
IsNumbered c s [] = Unit
IsNumbered c s (p ∷ ps) = IsPacket c s p × IsNumbered c (u8 (s + 1)) ps

abbrev pub IsMessage : Codec → List Bytes → Type 0
IsMessage c [] = ⊥
IsMessage c (p ∷ ps) = IsPacket c c.command p × IsNumbered c 0 ps

continuation_packet-IsPacket :
    (c : Codec) (s : ℕ) (chunk : Bytes)
    → IsValid c
    → length chunk ≤ c.report_size - 5
    → IsPacket c s (continuation_packet c s chunk)
unfolding continuation_packet
continuation_packet-IsPacket c s chunk v h =
    let content = put_uint32 c.channel ++ (s ∷ chunk) in
    let rest = zeros (c.report_size - length content) in
    (
      length-zero_filled c.report_size content (omega (arith, v.report_size_fits)),
      uint32_at-put_uint32 c.channel (s ∷ (chunk ++ rest)) v.channel_fits,
      refl,
    )

continuations-IsNumbered :
    (fuel : ℕ) (c : Codec) (s : ℕ) (remaining : Bytes)
    → IsValid c
    → IsNumbered c s (continuations fuel c s remaining)
unfolding continuations
continuations-IsNumbered zero c s remaining v = tt
continuations-IsNumbered (suc fuel) c s [] v = tt
continuations-IsNumbered (suc fuel) c s (b ∷ bs) v =
    let size = min (length (b ∷ bs)) (c.report_size - 5) in
    (
      continuation_packet-IsPacket c s (take size (b ∷ bs)) v
          (omega (arith, length-take size (b ∷ bs))),
      continuations-IsNumbered fuel c (u8 (s + 1)) (drop size (b ∷ bs)) v,
    )

length-continuations-le :
    (k fuel : ℕ) (c : Codec) (s : ℕ) (remaining : Bytes)
    → length remaining ≤ k * (c.report_size - 5)
    → length (continuations fuel c s remaining) ≤ k
unfolding continuations
length-continuations-le k zero c s remaining h = omega arith
length-continuations-le k (suc fuel) c s [] h = omega arith
length-continuations-le zero (suc fuel) c s (b ∷ bs) h = absurd (omega arith)
length-continuations-le (suc k) (suc fuel) c s (b ∷ bs) h =
    let size = min (length (b ∷ bs)) (c.report_size - 5) in
    omega (
      arith,
      length-continuations-le k fuel c (u8 (s + 1)) (drop size (b ∷ bs))
          (omega (arith, length-drop size (b ∷ bs))),
    )

fragment-eq-ok :
    (c : Codec) (message : Bytes) {packets : List Bytes}
    → fragment c message ≡ ok packets
    → let size = min (length message) (c.report_size - 7) in
      (length message ≤ max_payload_size c.report_size)
      × (packets
          ≡ initial_packet c message size
            ∷ continuations (length (drop size message)) c 0 (drop size message))
unfolding fragment
fragment-eq-ok c message h = ground arith

initial_packet-IsPacket :
    (c : Codec) (message : Bytes)
    → IsValid c
    → IsPacket c c.command (initial_packet c message (min (length message) (c.report_size - 7)))
unfolding initial_packet
initial_packet-IsPacket c message v =
    let chunk = take (min (length message) (c.report_size - 7)) message in
    let body = put_uint16 (u16 (length message)) in
    let content = put_uint32 c.channel ++ (c.command ∷ (body ++ chunk)) in
    let rest = zeros (c.report_size - length content) in
    let taken = length-take (min (length message) (c.report_size - 7)) message in
    (
      length-zero_filled c.report_size content (omega (arith, v.report_size_fits, taken)),
      uint32_at-put_uint32 c.channel (c.command ∷ (body ++ (chunk ++ rest))) v.channel_fits,
      refl,
    )

-- Fragmentation produces one initial packet with the command and at most 128 continuation packets
-- numbered from 0 in order, all of the report size and on the codec's channel: a sequence number
-- never reaches bit 7, which marks a command.
pub fragment-IsMessage :
    (c : Codec) (message : Bytes) (packets : List Bytes)
    → IsValid c
    → fragment c message ≡ ok packets
    → IsMessage c packets × (length packets ≤ 129)
unfolding fragment
fragment-IsMessage c message packets v h =
    let (small, e) = fragment-eq-ok c message h in
    let rest = drop (min (length message) (c.report_size - 7)) message in
    let size = length-drop (min (length message) (c.report_size - 7)) message in
    rw e (
      (initial_packet-IsPacket c message v, continuations-IsNumbered (length rest) c 0 rest v),
      omega (
        arith,
        length-continuations-le 128 (length rest) c 0 rest
            (unfold max_payload_size in omega (arith, small, size)),
      ),
    )
