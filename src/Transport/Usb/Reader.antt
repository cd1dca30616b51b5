-- ===== src/Transport/Usb/Reader.antt =====
-- pkg/transport/usb/hid_protocol.go and `hidChannelReader` of hid_init.go: one message from the
-- stream of input reports. An answer is what one round of the context checks and the read callback
-- gives: a report, or the error that ends the call. Where the answers end the call still waits.
mod Tests
pub mod Stream
pub mod Delivery
pub mod Quiet
pub mod Response
pub mod Shorter
use fido_go.Base.{
  ℕ, Bool, true, false, not, ◌&&◌, List, [], ◌∷◌, ◌==◌, if◌then◌else◌, length, Bytes, byte_at,
  uint32_at, Result, err, ok,
}
use fido_go.Wire.Hid.{Codec, Assembler, new_codec, new_assembler, add, payload}
use fido_go.Wire.Hid

abbrev pub hid_command_keepalive : ℕ
hid_command_keepalive = 0xbb

abbrev pub hid_command_error : ℕ
hid_command_error = 0xbf

pub data ReadError (E : Type 0) : Type 0 where
  read_failed : E → ReadError E
  wire : Hid.Error → ReadError E
  -- *HIDError
  device : ℕ → ReadError E
  invalid_error_payload : ℕ → ReadError E

abbrev pub Answer : Type 0 → Type 0
Answer E = Result E Bytes

-- A message with the answers that are left, an error with those, or a call that still waits.
pub data Outcome (E : Type 0) : Type 0 where
  message : Bytes → List (Answer E) → Outcome E
  failed : ReadError E → List (Answer E) → Outcome E
  waiting : Outcome E

-- `hidChannelReader` drops whole reports of another channel.
unfoldable pub is_foreign : Codec → Bytes → Bool
is_foreign c packet = length packet == c.report_size && not (uint32_at packet 0 == c.channel)

unfoldable pub is_hid_command_packet : Codec → ℕ → Bytes → Bool
is_hid_command_packet c command packet =
    if not (length packet == c.report_size)
    then false
    else if not (uint32_at packet 0 == c.channel)
    then false
    else byte_at packet 4 == command

module _ {E : Type 0} where
  -- The loop over an assembler that has taken its first packet; `finish` is what follows it.
  pub collect :
      Codec → (Assembler → List (Answer E) → Outcome E) → Assembler → List (Answer E) → Outcome E
  collect c finish a [] = waiting
  collect c finish a (err e ∷ answers) = failed (read_failed e) answers
  collect c finish a (ok packet ∷ answers) =
      let skip = collect c finish a answers in
      let next : Assembler → Outcome E = λ b. collect c finish b answers in
      elim (is_foreign c packet) [
        | true ↦ skip
        | false ↦ elim (add a packet) [
          | err e ↦ failed (wire e) answers
          | ok b ↦ elim b.done [ true ↦ finish b answers | false ↦ next b ]
        ]
      ]

  -- An assembler's first packet, and the loop unless that is all.
  unfoldable pub start :
      Codec → (Assembler → List (Answer E) → Outcome E) → Bytes → List (Answer E) → Outcome E
  start c finish packet answers = elim (add (new_assembler c) packet) [
    | err e ↦ failed (wire e) answers
    | ok b ↦ elim b.done [ true ↦ finish b answers | false ↦ collect c finish b answers ]
  ]

  -- `assembler.Payload()`
  unfoldable pub finish_message : Assembler → List (Answer E) → Outcome E
  finish_message a answers = elim (payload a) [
    | ok body ↦ message body answers
    | err e ↦ failed (wire e) answers
  ]

  -- The end of `readHIDError`: the error's code is its one byte.
  pub finish_error : Assembler → List (Answer E) → Outcome E
  finish_error a answers = elim (payload a) [
    | err e ↦ failed (wire e) answers
    | ok body ↦
        if not (length body == 1)
        then failed (invalid_error_payload (length body)) answers
        else failed (device (byte_at body 0)) answers
  ]

-- The codec of another command on the same channel; `NewCodec` has checked the report size, and the
-- command bytes used here have bit 7.
abbrev pub with_command : Codec → ℕ → Codec
with_command c command = record c { command = command }

module _ {E : Type 0} where
  unfoldable mutual
    -- `readHIDMessage` while `firstPacket` holds: keepalive messages are dropped, and an error message
    -- ends the call.
    pub read_first : Codec → List (Answer E) → Outcome E
    read_first c [] = waiting
    read_first c (err e ∷ answers) = failed (read_failed e) answers
    read_first c (ok packet ∷ answers) =
        let again = read_first c answers in
        let discarding : Assembler → Outcome E = λ b. discard c b answers in
        elim (is_foreign c packet) [
          | true ↦ again
          | false ↦ elim (is_hid_command_packet c hid_command_keepalive packet) [
            | true ↦ elim (add (new_assembler (with_command c hid_command_keepalive)) packet) [
              | err e ↦ failed (wire e) answers
              | ok b ↦ elim b.done [ true ↦ again | false ↦ discarding b ]
            ]
            | false ↦ elim (is_hid_command_packet c hid_command_error packet) [
              | true ↦ start (with_command c hid_command_error) finish_error packet answers
              | false ↦ start c finish_message packet answers
            ]
          ]
        ]

    -- The loop of `discardHIDMessage`; its `Payload` succeeds since the assembler is done.
    pub discard : Codec → Assembler → List (Answer E) → Outcome E
    discard c a [] = waiting
    discard c a (err e ∷ answers) = failed (read_failed e) answers
    discard c a (ok packet ∷ answers) =
        let skip = discard c a answers in
        let again = read_first c answers in
        let discarding : Assembler → Outcome E = λ b. discard c b answers in
        elim (is_foreign c packet) [
          | true ↦ skip
          | false ↦ elim (add a packet) [
            | err e ↦ failed (wire e) answers
            | ok b ↦ elim b.done [ true ↦ again | false ↦ discarding b ]
          ]
        ]

unfoldable pub read_hid_message : {E : Type 0} → ℕ → ℕ → ℕ → List (Answer E) → Outcome E
read_hid_message report_size channel command answers =
    elim (new_codec channel command report_size) [
      | err e ↦ failed (wire e) answers
      | ok c ↦ read_first c answers
    ]
