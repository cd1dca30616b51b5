-- ===== src/Wire/Hid/RoundTrip.antt =====
-- Reassembly undoes fragmentation.
use fido_go.Base.{
  ℕ, zero, suc, ◌+◌, ◌-◌, ◌^◌, ◌≤◌, ◌<◌, min, bit_and, ◌≡◌, ◌≢◌, true, some, [], ◌∷◌, ◌++◌,
  append-nil, append_assoc, arith, leb, length, take, drop, length-append, take-append-drop,
  length-take, length-drop, take-append, take_all, Bytes, IsByte, u8, u16, put_uint16, put_uint32,
  zeros, length-zero_filled, uint32_at-put_uint32, ◌>>=◌, ok,
}
use fido_go.Wire.Hid.{
  Codec, Assembler, max_payload_size, initial_packet, continuation_packet, continuations, fragment,
  new_assembler, add, payload, add_all,
}

-- What `NewCodec` checks, with the widths of Go's uint32 and byte.
pub record IsValid (c : Codec) : Type 0 where
  pub report_size_fits : 7 < c.report_size
  pub command_bit : bit_and c.command 0x80 ≢ 0
  pub channel_fits : c.channel < 2 ^ 32
  pub command_fits : IsByte c.command

-- The assembler between two packets, with `n` bytes declared.
abbrev pub between : Codec → ℕ → ℕ → Bytes → Assembler
between c n s buffer = record {
  codec = c;
  started = true;
  done = leb n (length buffer);
  total = some n;
  next_seq = s;
  buffer = buffer;
}

add-continuation :
    (c : Codec) (n s : ℕ) (buffer chunk : Bytes)
    → IsValid c
    → length buffer < n
    → length chunk ≡ min (n - length buffer) (c.report_size - 5)
    → add (between c n s buffer) (continuation_packet c s chunk)
      ≡ ok (between c n (u8 (s + 1)) (buffer ++ chunk))
unfolding add continuation_packet
add-continuation c n s buffer chunk v below h =
    let content = put_uint32 c.channel ++ (s ∷ chunk) in
    let rest = zeros (c.report_size - length content) in
    ground (
      arith,
      length-zero_filled c.report_size content (omega (arith, v.report_size_fits)),
      uint32_at-put_uint32 c.channel (s ∷ (chunk ++ rest)) v.channel_fits,
      take-append (min (n - length buffer) (c.report_size - 5)) chunk rest,
    )

add_all-continuations :
    (fuel : ℕ) (c : Codec) (n s : ℕ) (buffer remaining : Bytes)
    → IsValid c
    → length remaining ≤ fuel
    → length buffer + length remaining ≡ n
    → (t : ℕ) × (add_all (between c n s buffer) (continuations fuel c s remaining)
        ≡ ok (between c n t (buffer ++ remaining)))
unfolding add_all continuations
add_all-continuations zero c n s buffer [] v h e = (s, rw append-nil)
add_all-continuations zero c n s buffer (b ∷ bs) v h e = absurd (omega arith)
add_all-continuations (suc fuel) c n s buffer [] v h e = (s, rw append-nil)
add_all-continuations (suc fuel) c n s buffer (b ∷ bs) v h e =
    let size = min (length (b ∷ bs)) (c.report_size - 5) in
    let chunk = take size (b ∷ bs) in
    let rest = drop size (b ∷ bs) in
    let taken = length-take size (b ∷ bs) in
    let dropped = length-drop size (b ∷ bs) in
    let fits = v.report_size_fits in
    let (t, later) =
      add_all-continuations fuel c n (u8 (s + 1)) (buffer ++ chunk) rest v
        (omega (arith, dropped, fits))
        (omega (arith, length-append buffer chunk, taken, dropped)) in
    (
      t,
      rw (
        add-continuation c n s buffer chunk v (omega arith) (omega (arith, taken)),
        later,
        append_assoc buffer chunk rest,
        take-append-drop size (b ∷ bs),
      ),
    )

add-initial :
    (c : Codec) (message : Bytes)
    → IsValid c
    → length message < 2 ^ 16
    → let size = min (length message) (c.report_size - 7) in
      add (new_assembler c) (initial_packet c message size)
      ≡ ok (between c (length message) 0 (take size message))
unfolding add initial_packet new_assembler
add-initial c message v h =
    let size = min (length message) (c.report_size - 7) in
    let chunk = take size message in
    let content =
      put_uint32 c.channel ++ (c.command ∷ (put_uint16 (u16 (length message)) ++ chunk)) in
    let rest = zeros (c.report_size - length content) in
    ground (
      arith,
      length-take size message,
      length-zero_filled c.report_size content
          (omega (arith, v.report_size_fits, length-take size message)),
      uint32_at-put_uint32 c.channel
          (c.command ∷ (put_uint16 (u16 (length message)) ++ (chunk ++ rest))) v.channel_fits,
      take-append size chunk rest,
    )

-- Every message that fits is fragmented, and adding its packets in order to a fresh assembler gives
-- the message back.
pub reassemble-fragment :
    (c : Codec) (message : Bytes)
    → IsValid c
    → length message ≤ max_payload_size c.report_size
    → length message < 2 ^ 16
    → (do packets ← fragment c message; a ← add_all (new_assembler c) packets; payload a)
      ≡ ok message
unfolding fragment payload add_all
reassemble-fragment c message v small short =
    let size = min (length message) (c.report_size - 7) in
    let first = take size message in
    let rest = drop size message in
    let (t, later) =
      add_all-continuations (length rest) c (length message) 0 first rest v (omega arith)
        (omega (arith, length-take size message, length-drop size message)) in
    ground (
      arith,
      add-initial c message v short,
      later,
      take-append-drop size message,
      take_all (length message) message,
    )
