-- ===== src/Transport/Usb/Packets/Delivery.antt =====
-- `exchangeHIDMessage` where the connection carries it through: the packets, then the response.
use fido_go.Base.{
  ℕ, zero, suc, ◌+◌, ◌-◌, ◌^◌, ◌≤◌, ◌<◌, min, ◌≡◌, refl, ◌∙◌, ◌≢◌, true, none, List, [], ◌∷◌, ◌++◌,
  append-nil, append_assoc, arith, length, drop, Bytes, ok,
}
use fido_go.Wire.Hid.RoundTrip.{IsValid}
use fido_go.Wire.Hid.Messages.{new_codec-IsValid}
use fido_go.Wire.Hid.{initial_packet, continuations, Codec, max_payload_size, fragment}
use fido_go.Transport.Usb.Reader.{Answer, with_command, hid_command_keepalive, hid_command_error}
use fido_go.Transport.Usb.Reader.Quiet.{Quiet, quiet, keepalive}
use fido_go.Transport.Usb.Reader.Stream.{Arrives, packet, foreign}
use fido_go.Transport.Usb.Reader.Response.{read_hid_message-delivers}
use fido_go.Transport.Usb.State.{completed, WriteRound, written, Progress, CallError, State, return}
use fido_go.Transport.Usb.Packets.{
  packets_for, write_packets, exchange_hid_message, record_outcome, write_result, read_message,
  calls_back, write_message, is_completed, is_unknown,
}

pub packets_for-IsValid :
    (c : Codec) (payload : Bytes)
    → IsValid c
    → packets_for c.report_size c.channel c.command payload ≡ fragment c payload
unfolding packets_for
packets_for-IsValid c payload v = rw (new_codec-IsValid c v, packets_for)

-- The progress after `n` more completed writes.
pub after_writes : Progress → ℕ → Progress
after_writes p zero = p
after_writes p (suc n) = record p { packets = p.packets + suc n; outcome = completed }

after_writes-record_outcome :
    (p : Progress) (n : ℕ) → after_writes (record_outcome p completed) n ≡ after_writes p (suc n)
unfolding after_writes record_outcome is_completed is_unknown
after_writes-record_outcome p zero = ground arith
after_writes-record_outcome p (suc n) = ground arith

module _ {E : Type 0} where
  -- Each packet is written.
  unfoldable pub all_completed : List Bytes → List (WriteRound E) → List (WriteRound E)
  all_completed [] later = later
  all_completed (p ∷ ps) later = written completed none ∷ all_completed ps later

  pub write_packets-completed :
      (ps : List Bytes) (later : List (WriteRound E)) (s : State E)
      → write_packets ps (all_completed ps later) s
        ≡ return tt (record s {
          progress = after_writes s.progress (length ps);
          sent = s.sent ++ ps;
          writes = later;
        })
  unfolding write_packets all_completed after_writes write_result is_completed
  write_packets-completed [] later s = rw append-nil
  write_packets-completed (p ∷ ps) later s = ground (
    arith,
    append_assoc {A = Bytes} s.sent (p ∷ []) ps,
    write_packets-completed ps later
        (record s { sent = s.sent ++ p ∷ []; progress = record_outcome s.progress completed }),
    after_writes-record_outcome s.progress (length ps),
  )

  -- The packets are written in order and the response is read: the session is left with what stands
  -- behind them.
  pub exchange_hid_message-delivers :
      (mark : Progress → Progress) (c : Codec) (payload response : Bytes)
      (packets answers_packets : List Bytes) (s : State E) {tail rest : List (Answer (CallError E))}
      (later : List (WriteRound E))
      → IsValid c
      → c.report_size ≡ s.report_size
      → c.command ≢ hid_command_keepalive
      → c.command ≢ hid_command_error
      → fragment c payload ≡ ok packets
      → s.writes ≡ all_completed packets later
      → length response ≤ max_payload_size c.report_size
      → length response < 2 ^ 16
      → fragment c response ≡ ok answers_packets
      → Quiet c tail s.reads
      → Arrives c rest answers_packets tail
      → calls_back s.reads ≡ true
      → exchange_hid_message mark c.channel c.command payload s
        ≡ return response (record s {
          progress = mark (after_writes s.progress (length packets));
          sent = s.sent ++ packets;
          writes = later;
          reads = rest;
        })
  unfolding exchange_hid_message read_message write_message
  exchange_hid_message-delivers mark c payload response packets answers_packets s later v size k e h
        w small short a before stream called =
      let read =
        read_hid_message-delivers c v response answers_packets k e small short a before stream in
      ground (
        arith,
        size,
        h,
        w,
        called,
        read,
        packets_for-IsValid c payload v,
        write_packets-completed packets later s,
      )

  -- The first report of a response comes from the callback.
  calls_back-Arrives :
      (c : Codec) (p : Bytes) (ps : List Bytes) (rest answers : List (Answer (CallError E)))
      → Arrives c rest (p ∷ ps) answers
      → calls_back answers ≡ true
  unfolding calls_back
  calls_back-Arrives c p ps rest _ (packet _ _) = refl
  calls_back-Arrives c p ps rest _ (foreign _ _) = refl

  calls_back-fragment :
      (c d : Codec) (response : Bytes) (packets : List Bytes)
      (rest answers : List (Answer (CallError E)))
      → fragment d response ≡ ok packets
      → Arrives c rest packets answers
      → calls_back answers ≡ true
  unfolding fragment
  calls_back-fragment c d response [] rest answers h _ = absurd (ground (arith, h))
  calls_back-fragment c d response (p ∷ ps) rest answers h stream =
      calls_back-Arrives c p ps rest answers stream

  pub calls_back-Quiet :
      (c : Codec) (response : Bytes) (packets : List Bytes)
      {tail rest answers : List (Answer (CallError E))}
      → fragment c response ≡ ok packets
      → Quiet c tail answers
      → Arrives c rest packets tail
      → calls_back answers ≡ true
  calls_back-Quiet c response packets h quiet stream =
      calls_back-fragment c c response packets _ _ h stream
  calls_back-Quiet c response packets h (keepalive status others _ _ h' stream' _) stream =
      calls_back-fragment c (with_command c hid_command_keepalive) status others _ _ h' stream'

-- Whether a message is fragmented does not depend on the channel.
fragment-channel :
    (c : Codec) (channel : ℕ) (payload : Bytes) (packets : List Bytes)
    → fragment c payload ≡ ok packets
    → (ps : List Bytes) × (fragment (record c { channel = channel }) payload ≡ ok ps)
unfolding fragment
fragment-channel c channel payload packets h =
    let c' : Codec = record c { channel = channel } in
    let size = min (length payload) (c.report_size - 7) in
    let rest = drop size payload in
    (initial_packet c' payload size ∷ continuations (length rest) c' 0 rest, ground (arith, h))

pub packets_for-channel :
    (c : Codec) (channel : ℕ) (payload : Bytes) (packets : List Bytes)
    → IsValid c
    → channel < 2 ^ 32
    → fragment c payload ≡ ok packets
    → (ps : List Bytes) × (packets_for c.report_size channel c.command payload ≡ ok ps)
packets_for-channel c channel payload packets v fits h =
    let valid : IsValid (record c { channel = channel }) = record {
      report_size_fits = v.report_size_fits;
      command_bit = v.command_bit;
      channel_fits = fits;
      command_fits = v.command_fits;
    } in
    let (ps, e) = fragment-channel c channel payload packets h in
    (ps, packets_for-IsValid (record c { channel = channel }) payload valid ∙ e)
