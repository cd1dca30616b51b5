-- ===== src/Transport/Usb/Session/Delivery.antt =====
-- An exchange that the connection carries through.
use fido_go.Base.{
  ℕ, ◌^◌, ◌≤◌, ◌<◌, bit_and, ◌≡◌, refl, ◌≢◌, ◌⊎◌, inl, inr, false, none, some, List, ◌++◌, arith,
  length, Bytes, IsByte, ok,
}
use fido_go.Wire.Hid.RoundTrip.{IsValid}
use fido_go.Wire.Hid.{Codec, max_payload_size, fragment}
use fido_go.Transport.Usb.Reader.{Answer, hid_command_keepalive, hid_command_error}
use fido_go.Transport.Usb.Reader.Quiet.{Quiet}
use fido_go.Transport.Usb.Reader.Stream.{Arrives}
use fido_go.Transport.Usb.Commands.{hid_command_for_request, hid_command_for_request_lem}
use fido_go.Transport.Usb.State.{State, CallError, WriteRound, new_progress, stage_request}
use fido_go.Transport.Usb.Packets.Delivery.{
  after_writes, all_completed, calls_back-Quiet, packets_for-channel, exchange_hid_message-delivers,
}
use fido_go.Transport.Usb.Handshake.{ensure_channel}
use fido_go.Transport.Usb.Session.{
  Admission, exchange, exchange_request, transact, conclude, hid_call_error, responding,
}

-- The codec of a request on the session's channel.
unfoldable pub request_codec : {E : Type 0} → State E → Bytes → Codec
request_codec s req = record {
  channel = s.channel_id;
  command = hid_command_for_request req;
  report_size = s.report_size;
}

-- The session has a channel, and neither its closing nor the context stops the exchange.
pub record Ready {E : Type 0} (ctx : Admission E) (s : State E) : Type 0 where
  pub report_size_fits : 7 < s.report_size
  pub channel_fits : s.channel_id < 2 ^ 32
  pub has_channel : s.channel_id ≢ 0
  pub not_closing : s.closing ≡ false
  pub locked : ctx.lock ≡ none
  pub in_time : ctx.context ≡ none

-- Its command has bit 7, and answers neither a keepalive nor an error.
request_command :
    (command : ℕ)
    → (command ≡ 0x83) ⊎ (command ≡ 0x90)
    → (bit_and command 0x80 ≢ 0)
      × IsByte command
      × (command ≢ hid_command_keepalive)
      × (command ≢ hid_command_error)
request_command command (inl e) =
    rw e ((λ z. cc), omega arith, (λ z. omega arith), (λ z. omega arith))
request_command command (inr e) =
    rw e ((λ z. cc), omega arith, (λ z. omega arith), (λ z. omega arith))

module _ {E : Type 0} (ctx : Admission E) (s : State E) (req : Bytes) (r : Ready ctx s) where
  request_codec-IsValid : IsValid (request_codec s req)
  unfolding request_codec
  request_codec-IsValid =
      let (bit, byte, k, e) = request_command _ (hid_command_for_request_lem req) in
      record {
        report_size_fits = r.report_size_fits;
        command_bit = bit;
        channel_fits = r.channel_fits;
        command_fits = byte;
      }

  -- A request that fits is written as its packets, once and in order, and the response that the
  -- stream of reports holds is returned; the session keeps its channel and stays open.
  pub exchange_request-delivers :
      (response : Bytes) (packets answer : List Bytes) {tail rest : List (Answer (CallError E))}
      (later : List (WriteRound E))
      → let c = request_codec s req in
        fragment c req ≡ ok packets
        → s.writes ≡ all_completed packets later
        → length response ≤ max_payload_size s.report_size
        → length response < 2 ^ 16
        → fragment c response ≡ ok answer
        → Quiet c tail s.reads
        → Arrives c rest answer tail
        → exchange_request ctx req s
          ≡ some (record {
            result = ok response;
            state = record s {
              progress = responding (after_writes (new_progress stage_request) (length packets));
              sent = s.sent ++ packets;
              writes = later;
              reads = rest;
            };
          })
  unfolding exchange_request exchange transact ensure_channel conclude hid_call_error request_codec
  exchange_request-delivers response packets answer later h w small short a before stream =
      let c = request_codec s req in
      let (bit, byte, k, e) = request_command _ (hid_command_for_request_lem req) in
      let v = request_codec-IsValid in
      let (ps, admitted) = packets_for-channel c 1 req packets v (omega arith) h in
      let started : State E = record s { progress = new_progress stage_request } in
      let exchanged =
        exchange_hid_message-delivers responding c req response packets answer started later v refl
          k e h w small short a before stream
          (calls_back-Quiet c response answer a before stream) in
      ground (arith, r.has_channel, r.not_closing, r.locked, r.in_time, admitted, exchanged)
