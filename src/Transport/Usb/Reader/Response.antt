-- ===== src/Transport/Usb/Reader/Response.antt =====
-- `readHIDMessage` returns the response, or the device's error, that the stream holds.
use fido_go.Base.{ℕ, ◌^◌, ◌≤◌, ◌<◌, ◌≡◌, ◌∙◌, ◌≢◌, List, [], ◌∷◌, arith, length, Bytes, ok}
use fido_go.Wire.Hid.RoundTrip.{IsValid}
use fido_go.Wire.Hid.Messages.{
  Fragments, fragment-Fragments, new_codec-IsValid, max_payload_size-pos,
}
use fido_go.Wire.Hid.{Codec, Assembler, max_payload_size, fragment, payload}
use fido_go.Transport.Usb.Reader.Delivery.{read_first-Arrives}
use fido_go.Transport.Usb.Reader.Quiet.{
  Quiet, read_first-Quiet, read_first-error, error_codec, with_command-IsValid,
}
use fido_go.Transport.Usb.Reader.Stream.{Arrives}
use fido_go.Transport.Usb.Reader.{
  Answer, message, failed, device, hid_command_keepalive, hid_command_error, finish_message,
  finish_error, read_first, read_hid_message,
}

finish_message-payload :
    {E : Type 0} (b : Assembler) (body : Bytes) (rest : List (Answer E))
    → payload b ≡ ok body
    → finish_message b rest ≡ message body rest
unfolding finish_message
finish_message-payload b body rest e = rw (e, finish_message)

finish_error-payload :
    {E : Type 0} (b : Assembler) (code : ℕ) (rest : List (Answer E))
    → payload b ≡ ok (code ∷ [])
    → finish_error b rest ≡ failed (device code) rest
unfolding finish_error
finish_error-payload b code rest e = rw (e, finish_error)

module _ {E : Type 0} (c : Codec) (v : IsValid c) where
  read_hid_message-read_first :
      (answers : List (Answer E))
      → read_hid_message c.report_size c.channel c.command answers ≡ read_first c answers
  unfolding read_hid_message
  read_hid_message-read_first answers = rw (new_codec-IsValid c v, read_hid_message)

  by_packets :
      (response : Bytes) (packets : List Bytes) (b : Assembler) {answers rest : List (Answer E)}
      → c.command ≢ hid_command_keepalive
      → c.command ≢ hid_command_error
      → Fragments c response packets b
      → Arrives c rest packets answers
      → read_first c answers ≡ message response rest
  by_packets response [] b k e f _ = absurd f.is_message
  by_packets response (p ∷ ps) b {rest = rest} k e f arrives =
      read_first-Arrives c rest b f.done f.is_message.0 k e f.adds arrives
      ∙ finish_message-payload b response rest f.payload_is

  error_by_packets :
      (code : ℕ) (packets : List Bytes) (b : Assembler) {answers rest : List (Answer E)}
      → Fragments (error_codec c) (code ∷ []) packets b
      → Arrives c rest packets answers
      → read_first c answers ≡ failed (device code) rest
  error_by_packets code [] b f _ = absurd f.is_message
  error_by_packets code (p ∷ ps) b {rest = rest} f arrives =
      read_first-error c rest b f.done f.is_message.0 f.adds arrives
      ∙ finish_error-payload b code rest f.payload_is

  -- After any keepalive messages, and with reports of other channels anywhere before the last packet,
  -- the packets of a response are read as that response, and what stands behind them is left.
  pub read_hid_message-delivers :
      (response : Bytes) (packets : List Bytes) {answers tail rest : List (Answer E)}
      → c.command ≢ hid_command_keepalive
      → c.command ≢ hid_command_error
      → length response ≤ max_payload_size c.report_size
      → length response < 2 ^ 16
      → fragment c response ≡ ok packets
      → Quiet c tail answers
      → Arrives c rest packets tail
      → read_hid_message c.report_size c.channel c.command answers ≡ message response rest
  read_hid_message-delivers response packets {answers} k e small short h before stream =
      let (b, f) = fragment-Fragments c response packets v small short h in
      read_hid_message-read_first answers
      ∙ read_first-Quiet c v before
      ∙ by_packets response packets b k e f stream

  -- Likewise an error message of one byte ends the call with that code as the device's error,
  -- whichever command the response is awaited for.
  pub read_hid_message-device_error :
      (code : ℕ) (packets : List Bytes) {answers tail rest : List (Answer E)}
      → fragment (error_codec c) (code ∷ []) ≡ ok packets
      → Quiet c tail answers
      → Arrives c rest packets tail
      → read_hid_message c.report_size c.channel c.command answers ≡ failed (device code) rest
  read_hid_message-device_error code packets {answers} h before stream =
      let valid = with_command-IsValid c hid_command_error v (omega arith) (λ z. cc) in
      let (b, f) =
        fragment-Fragments (error_codec c) (code ∷ []) packets valid (max_payload_size-pos c v)
          (omega arith) h in
      read_hid_message-read_first answers
      ∙ read_first-Quiet c v before
      ∙ error_by_packets code packets b f stream
