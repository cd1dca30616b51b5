-- ===== src/Wire/Nfc.antt =====
-- pkg/wire/nfc/apdu.go: short APDU chaining. The text of StatusError is not modelled.
mod Tests
pub mod Chain
pub mod Response
use fido_go.Base.{
  ℕ, zero, suc, ◌+◌, ◌-◌, min, bit_or, Bool, true, false, not, ◌&&◌, ◌||◌, List, [], ◌∷◌, ◌++◌, ltb,
  ◌==◌, if◌then◌else◌, length, take, drop, Bytes, u8, byte_at, Result, ◌>>=◌, ◌>>◌, reject_if, err,
  ok,
}

pub data Error : Type 0 where
  invalid_chunk_size invalid_response incomplete_apdu : Error
  -- the StatusError of SW1 and SW2
  status_error : ℕ → ℕ → Error

pub record Codec : Type 0 where
  pub class : ℕ
  pub instruction : ℕ
  pub parameter1 : ℕ
  pub parameter2 : ℕ
  pub max_chunk_size : ℕ

pub record Assembler : Type 0 where
  pub done : Bool
  pub buffer : Bytes
  pub more_data_hint : ℕ

unfoldable pub new_codec : ℕ → ℕ → ℕ → ℕ → ℕ → Result Error Codec
new_codec class instruction parameter1 parameter2 max_chunk_size = do
  reject_if (max_chunk_size == 0 || ltb 255 max_chunk_size) invalid_chunk_size
  ok (record {
    class = class;
    instruction = instruction;
    parameter1 = parameter1;
    parameter2 = parameter2;
    max_chunk_size = max_chunk_size;
  })

unfoldable pub command_packet : Codec → Bool → Bytes → Bytes
command_packet codec last chunk =
    let cla = if not last then bit_or codec.class 0x10 else codec.class in
    cla ∷ codec.instruction ∷ codec.parameter1 ∷ codec.parameter2 ∷ u8 (length chunk) ∷ chunk

-- The loop over `remaining`; each round takes at least one byte, so its length is enough fuel.
unfoldable pub chain : ℕ → Codec → Bytes → List Bytes
chain zero codec remaining = []
chain (suc fuel) codec [] = []
chain (suc fuel) codec (b ∷ bs) =
    let remaining : Bytes = b ∷ bs in
    let chunk_size = min (length remaining) codec.max_chunk_size in
    command_packet codec (chunk_size == length remaining) (take chunk_size remaining)
    ∷ chain fuel codec (drop chunk_size remaining)

unfoldable pub fragment : Codec → Bytes → Result Error (List Bytes)
fragment codec [] =
    ok ((codec.class ∷ codec.instruction ∷ codec.parameter1 ∷ codec.parameter2 ∷ 0 ∷ []) ∷ [])
fragment codec (b ∷ bs) = ok (chain (length (b ∷ bs)) codec (b ∷ bs))

unfoldable pub new_assembler : Assembler
new_assembler = record { done = false; buffer = []; more_data_hint = 0 }

unfoldable pub validate_interim_response : Bytes → Result Error (Unit {0})
validate_interim_response response = do
  reject_if (not (length response == 2)) invalid_response
  reject_if (not (byte_at response 0 == 0x90) || not (byte_at response 1 == 0))
      (status_error (byte_at response 0) (byte_at response 1))

unfoldable pub get_response_packet : Codec → ℕ → Bytes
get_response_packet codec expected_length = codec.class ∷ 0xc0 ∷ 0 ∷ 0 ∷ expected_length ∷ []

-- The body is appended before the status word is read, so also a refused status leaves it there:
-- the assembler is returned beside the error.
unfoldable pub add : Assembler → Bytes → Assembler × Result Error (Unit {0})
add a response =
    let body_size = length response - 2 in
    let status1 = byte_at response body_size in
    let status2 = byte_at response (body_size + 1) in
    let buffer = a.buffer ++ take body_size response in
    if ltb (length response) 2
    then (a, err invalid_response)
    else if status1 == 0x90 && status2 == 0
    then (record { done = true; buffer = buffer; more_data_hint = 0 }, ok tt)
    else if status1 == 0x61
    then (record { done = false; buffer = buffer; more_data_hint = status2 }, ok tt)
    else (record a { buffer = buffer }, err (status_error status1 status2))

unfoldable pub payload : Assembler → Result Error Bytes
payload a = do reject_if (not a.done) incomplete_apdu; ok a.buffer
