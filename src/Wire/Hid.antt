-- ===== src/Wire/Hid.antt =====
-- pkg/wire/hid/codec.go: CTAPHID framing.
mod Tests
pub mod RoundTrip
pub mod Order
pub mod Accept
pub mod Messages
use fido_go.Base.{
  ℕ, zero, suc, ◌+◌, ◌-◌, ◌*◌, min, bit_and, Bool, true, false, not, ◌||◌, Option, none, some, List,
  [], ◌∷◌, ◌++◌, ltb, leb, ◌==◌, if◌then◌else◌, length, take, drop, Bytes, u8, u16, byte_at,
  put_uint16, put_uint32, uint16_at, uint32_at, zero_filled, Result, ◌>>=◌, ◌>>◌, reject_if, err,
  ok,
}

pub data Error : Type 0 where
  payload_too_large invalid_report_size invalid_command invalid_packet : Error
  mismatched_channel unexpected_command unexpected_seq incomplete_payload : Error

pub record Codec : Type 0 where
  pub channel : ℕ
  pub command : ℕ
  pub report_size : ℕ

pub record Assembler : Type 0 where
  pub codec : Codec
  pub started : Bool
  pub done : Bool
  -- `none` is the source's -1, before the first packet
  pub total : Option ℕ
  pub next_seq : ℕ
  pub buffer : Bytes

unfoldable pub new_codec : ℕ → ℕ → ℕ → Result Error Codec
new_codec channel command report_size = do
  reject_if (leb report_size 7) invalid_report_size
  reject_if (bit_and command 0x80 == 0) invalid_command
  ok (record { channel = channel; command = command; report_size = report_size })

unfoldable pub max_payload_size : ℕ → ℕ
max_payload_size report_size = (report_size - 7) + 128 * (report_size - 5)

unfoldable pub initial_packet : Codec → Bytes → ℕ → Bytes
initial_packet codec payload first_size = zero_filled codec.report_size (
    put_uint32 codec.channel
    ++ (codec.command ∷ (put_uint16 (u16 (length payload)) ++ take first_size payload)))

unfoldable pub continuation_packet : Codec → ℕ → Bytes → Bytes
continuation_packet codec sequence chunk =
    zero_filled codec.report_size (put_uint32 codec.channel ++ (sequence ∷ chunk))

-- The loop over `remaining`; each round takes at least one byte, so its length is enough fuel.
unfoldable pub continuations : ℕ → Codec → ℕ → Bytes → List Bytes
continuations zero codec sequence remaining = []
continuations (suc fuel) codec sequence [] = []
continuations (suc fuel) codec sequence (b ∷ bs) =
    let remaining : Bytes = b ∷ bs in
    let chunk_size = min (length remaining) (codec.report_size - 5) in
    continuation_packet codec sequence (take chunk_size remaining)
    ∷ continuations fuel codec (u8 (sequence + 1)) (drop chunk_size remaining)

unfoldable pub fragment : Codec → Bytes → Result Error (List Bytes)
fragment codec payload =
    let first_size = min (length payload) (codec.report_size - 7) in
    let remaining = drop first_size payload in
    do
      reject_if
          (ltb (max_payload_size codec.report_size) (length payload) || ltb 65535 (length payload))
          payload_too_large
      ok (
          initial_packet codec payload first_size
          ∷ continuations (length remaining) codec 0 remaining)

unfoldable pub new_assembler : Codec → Assembler
new_assembler codec = record {
  codec = codec;
  started = false;
  done = false;
  total = none;
  next_seq = 0;
  buffer = [];
}

-- It is read only where `started` or `done` holds, hence after it was set.
abbrev declared_length : Option ℕ → ℕ
declared_length none = 0
declared_length (some n) = n

-- The shared end of both branches of `Add`: append a chunk and compare with the declared length.
abbrev absorb : Assembler → ℕ → Bytes → Assembler
absorb a declared chunk = record a {
  started = true;
  total = some declared;
  buffer = a.buffer ++ chunk;
  done = leb declared (length (a.buffer ++ chunk));
}

unfoldable pub add_first : Assembler → Bytes → Result Error Assembler
add_first a packet =
    let declared = uint16_at packet 5 in
    let chunk_size = min declared (length packet - 7) in
    if not (byte_at packet 4 == a.codec.command)
    then err unexpected_command
    else ok (absorb a declared (take chunk_size (drop 7 packet)))

add_next : Assembler → ℕ → Bytes → Result Error Assembler
add_next a declared packet =
    let chunk_size = min (declared - length a.buffer) (length packet - 5) in
    if not (byte_at packet 4 == a.next_seq)
    then err unexpected_seq
    else ok (
        absorb (record a { next_seq = u8 (a.next_seq + 1) }) declared
          (take chunk_size (drop 5 packet)))

-- No assignment precedes an error, so an error leaves the assembler as it was.
unfoldable pub add : Assembler → Bytes → Result Error Assembler
unfolding add_first add_next
add a packet = do
  reject_if a.done invalid_packet
  reject_if (not (length packet == a.codec.report_size)) invalid_packet
  reject_if (not (uint32_at packet 0 == a.codec.channel)) mismatched_channel
  elim a.started [ false ↦ add_first a packet | true ↦ add_next a (declared_length a.total) packet ]

unfoldable pub payload : Assembler → Result Error Bytes
payload a = do
  reject_if (not a.done) incomplete_payload
  ok (take (declared_length a.total) a.buffer)

-- A reader's loop: packets are added in the order of arrival, up to the first error.
unfoldable pub add_all : Assembler → List Bytes → Result Error Assembler
add_all a [] = ok a
add_all a (p ∷ ps) = do a' ← add a p; add_all a' ps
