-- ===== src/Transport/Usb/Handshake.antt =====
-- pkg/transport/usb/hid_init.go: a channel is allocated by INIT and probed with an empty PING; both
-- may be sent again, at most 20 times.
mod Tests
pub mod Await
pub mod Allocated
pub mod Retries
use fido_go.Base.{
  ℕ, zero, suc, Bool, true, false, not, ◌||◌, Option, none, some, List, [], ◌∷◌, ltb, ◌==◌,
  if◌then◌else◌, length, take, Bytes, uint32_at, equal_bytes, Result, err, ok,
}
use fido_go.Transport.Usb.State.{
  stage_init, stage_ping, timed_out, Fault, fragmenting, reading, random, retrying, init_too_short,
  invalid_channel, invalid_ping_echo, Action, ◌>>=◌, ◌>>◌, return, fail, begin,
}
use fido_go.Transport.Usb.Packets.{packets_for, write_message, read_message, exchange_hid_message}
use fido_go.Transport.Usb.Reader.{read_failed, device}

abbrev pub hid_broadcast_cid : ℕ
hid_broadcast_cid = 0xffffffff

abbrev pub hid_command_init : ℕ
hid_command_init = 0x86

abbrev pub hid_command_ping : ℕ
hid_command_ping = 0x81

abbrev pub hid_error_channel_busy : ℕ
hid_error_channel_busy = 0x06

abbrev pub hid_init_busy_retries : ℕ
hid_init_busy_retries = 20

-- What an attempt meets outside the session: the context's error before it, what `rand.Read` gives,
-- and the context's error if it is done before the timer that precedes the next one.
pub record Round (E : Type 0) : Type 0 where
  pub before : Option E
  pub nonce : Result E Bytes
  pub after : Option E

module _ {E : Type 0} where
  -- Whether the handshake may be sent again: `hidLocalWaitError`, which `readInitPacket` makes of a
  -- wait that ran out with the context not done, or the device's error 6.
  unfoldable pub retries : Fault E → Bool
  retries (reading (read_failed (timed_out late e))) = not late
  retries (reading (device code)) = code == hid_error_channel_busy
  retries e = false

  -- The loop of `exchangeInit` over the INIT responses of the broadcast channel. A message is at
  -- least one report, so more rounds than reports are enough.
  pub await_init : ℕ → Bytes → Action E Bytes
  await_init zero nonce s = none
  await_init (suc rounds) nonce s =
      let again = await_init rounds nonce in
      (do
        response ← read_message (λ p. p) hid_broadcast_cid hid_command_init
        elim (ltb (length response) 17) [
          | true ↦ fail init_too_short
          | false ↦ elim (equal_bytes (take 8 response) nonce) [
            | true ↦ return response
            | false ↦ again
          ]
        ])
        s

  await_init_response : Bytes → Action E Bytes
  await_init_response nonce s = await_init (suc (length s.reads)) nonce s

  pub exchange_init : Bytes → Action E Bytes
  exchange_init nonce s =
      elim (packets_for s.report_size hid_broadcast_cid hid_command_init nonce) [
        | err e ↦ fail (fragmenting e) s
        | ok packets ↦ (write_message packets >> await_init_response nonce) s
      ]

  -- One call of the function that `retryHIDHandshake` repeats.
  unfoldable pub handshake : Result E Bytes → Action E ℕ
  handshake (err e) = fail (random e)
  handshake (ok nonce) = do
    begin stage_init
    response ← exchange_init nonce
    let channel = uint32_at response 8
    elim (channel == 0 || channel == hid_broadcast_cid) [
      | true ↦ fail (invalid_channel channel)
      | false ↦ do
        begin stage_ping
        echo ← exchange_hid_message (λ p. p) channel hid_command_ping []
        elim (length echo == 0) [ true ↦ return channel | false ↦ fail invalid_ping_echo ]
    ]

  -- `retryHIDHandshake` with the number of retries that are left.
  unfoldable pub retry_handshake : ℕ → List (Round E) → Action E ℕ
  retry_handshake n [] s = none
  retry_handshake zero (round ∷ rounds) s = elim round.before [
    | some e ↦ fail (retrying e) s
    | none ↦ handshake round.nonce s
  ]
  retry_handshake (suc n) (round ∷ rounds) s =
      let again = retry_handshake n rounds in
      elim round.before [
        | some e ↦ fail (retrying e) s
        | none ↦ elim (handshake round.nonce s) [
          | none ↦ none
          | some step ↦ elim step.result [
            | ok channel ↦ return channel step.state
            | err e ↦ elim (retries e) [
              | false ↦ fail e step.state
              | true ↦ elim round.after [
                | some e' ↦ fail (retrying e') step.state
                | none ↦ again step.state
              ]
            ]
          ]
        ]
      ]

  pub initialize_channel : List (Round E) → Action E (Unit {0})
  initialize_channel rounds = do
    channel ← retry_handshake hid_init_busy_retries rounds
    λ s. return tt (record s { channel_id = channel })

  unfoldable pub ensure_channel : List (Round E) → Action E (Unit {0})
  ensure_channel rounds s =
      if not (s.channel_id == 0) then return tt s else initialize_channel rounds s
