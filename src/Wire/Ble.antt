-- ===== src/Wire/Ble.antt =====
-- pkg/wire/ble/codec.go: BLE fragmentation.
mod Tests
pub mod RoundTrip
pub mod Accept
use fido_go.Base.{
  ℕ, zero, suc, ◌-◌, min, Bool, true, false, not, Option, none, some, List, [], ◌∷◌, ◌++◌, ltb, leb,
  if◌then◌else◌, length, take, drop, Bytes, u16, put_uint16, uint16_at, Result, ◌>>=◌, ◌>>◌,
  reject_if, err, ok,
}

pub data Error : Type 0 where
  payload_too_large invalid_mtu invalid_fragment incomplete_value : Error

pub record Codec : Type 0 where
  pub mtu : ℕ

pub record Assembler : Type 0 where
  pub codec : Codec
  pub started : Bool
  pub done : Bool
  -- `none` is the source's -1, before the first fragment
  pub total : Option ℕ
  pub buffer : Bytes

unfoldable pub new_codec : ℕ → Result Error Codec
new_codec mtu = do reject_if (leb mtu 2) invalid_mtu; ok (record { mtu = mtu })

unfoldable pub first_fragment : Bytes → ℕ → Bytes
first_fragment payload first_size = put_uint16 (u16 (length payload)) ++ take first_size payload

-- The loop over `remaining`; each round takes at least one byte, so its length is enough fuel.
pub later_fragments : ℕ → Codec → Bytes → List Bytes
later_fragments zero codec remaining = []
later_fragments (suc fuel) codec [] = []
later_fragments (suc fuel) codec (b ∷ bs) =
    let remaining : Bytes = b ∷ bs in
    let chunk_size = min (length remaining) codec.mtu in
    take chunk_size remaining ∷ later_fragments fuel codec (drop chunk_size remaining)

unfoldable pub fragment : Codec → Bytes → Result Error (List Bytes)
fragment codec payload =
    let first_size = min (length payload) (codec.mtu - 2) in
    let remaining = drop first_size payload in
    do
      reject_if (ltb 65535 (length payload)) payload_too_large
      ok (first_fragment payload first_size ∷ later_fragments (length remaining) codec remaining)

unfoldable pub new_assembler : Codec → Assembler
new_assembler codec = record {
  codec = codec;
  started = false;
  done = false;
  total = none;
  buffer = [];
}

-- It is read only where `started` or `done` holds, hence after it was set.
abbrev declared_length : Option ℕ → ℕ
declared_length none = 0
declared_length (some n) = n

-- The shared end of both branches of `Add`: append a chunk and compare with the declared length.
abbrev absorb : Assembler → ℕ → Bytes → Assembler
absorb a declared chunk = record a {
  started = true;
  total = some declared;
  buffer = a.buffer ++ chunk;
  done = leb declared (length (a.buffer ++ chunk));
}

add_first : Assembler → Bytes → Result Error Assembler
add_first a fragment =
    let declared = uint16_at fragment 0 in
    let chunk_size = min declared (length fragment - 2) in
    if ltb (length fragment) 2
    then err invalid_fragment
    else ok (absorb a declared (take chunk_size (drop 2 fragment)))

add_next : Assembler → ℕ → Bytes → Result Error Assembler
add_next a declared fragment =
    let chunk_size = min (declared - length a.buffer) (length fragment) in
    ok (absorb a declared (take chunk_size fragment))

-- No assignment precedes an error, so an error leaves the assembler as it was.
unfoldable pub add : Assembler → Bytes → Result Error Assembler
unfolding add_first add_next
add a fragment = do
  reject_if a.done invalid_fragment
  reject_if (ltb a.codec.mtu (length fragment)) invalid_fragment
  elim a.started [
    | false ↦ add_first a fragment
    | true ↦ add_next a (declared_length a.total) fragment
  ]

unfoldable pub payload : Assembler → Result Error Bytes
payload a = do reject_if (not a.done) incomplete_value; ok (take (declared_length a.total) a.buffer)

-- A reader's loop: fragments are added in the order of arrival, up to the first error.
unfoldable pub add_all : Assembler → List Bytes → Result Error Assembler
add_all a [] = ok a
add_all a (p ∷ ps) = do a' ← add a p; add_all a' ps
