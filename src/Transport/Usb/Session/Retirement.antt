-- ===== src/Transport/Usb/Session/Retirement.antt =====
-- Exchanges that fail: what they have sent, and the session that they leave.
use fido_go.Base.{
  ℕ, ◌<◌, ◌≡◌, refl, ◌∙◌, ◌≢◌, inl, inr, true, false, Option, none, some, List, append-nil, arith,
  Option-cases, Bytes, Result-cases, err, ok,
}
use fido_go.Transport.Usb.State.{
  State, Step, Fault, fragmenting, writing, context_done, closed, new_progress, stage_request,
}
use fido_go.Transport.Usb.Packets.{packets_for}
use fido_go.Transport.Usb.Packets.Once.{Sent, exchange_hid_message-Sent}
use fido_go.Transport.Usb.Handshake.{Round, ensure_channel}
use fido_go.Transport.Usb.Session.{
  Admission, rejected, exchange_failed, ExchangeError, Exchanged, retire, wrap, is_device_error,
  exchange, transact, conclude, hid_call_error, responding,
}

module _ {E : Type 0} where
  conclude-retires :
      (step : Option (Step E Bytes)) (x : Exchanged E) (failure : ExchangeError E)
      → conclude step ≡ some x
      → x.result ≡ err (exchange_failed failure)
      → is_device_error failure.cause ≡ false
      → (x.state.closing ≡ true) × (0 < failure.packets_submitted → failure.ambiguous ≡ true)
  unfolding conclude retire wrap
  conclude-retires none x failure h e d = absurd (ground (arith, h))
  conclude-retires (some step) x failure h e d =
      (ground (arith, h, e, d), λ some_sent. ground (arith, h, e, d, some_sent))

  conclude-sent :
      (step : Step E Bytes) (x : Exchanged E)
      → conclude (some step) ≡ some x
      → x.state.sent ≡ step.state.sent
  unfolding conclude retire
  conclude-sent step x h = ground (arith, h)

  -- An exchange that fails after its admission, but for an error that the device reports, retires the
  -- session, and its error is ambiguous if a packet was completed.
  pub exchange-retires :
      (ctx : Admission E) (command : ℕ) (payload : Bytes) (s : State E) (x : Exchanged E)
      (failure : ExchangeError E)
      → exchange ctx command payload s ≡ some x
      → x.result ≡ err (exchange_failed failure)
      → is_device_error failure.cause ≡ false
      → (x.state.closing ≡ true) × (0 < failure.packets_submitted → failure.ambiguous ≡ true)
  unfolding exchange
  exchange-retires ctx command payload s x failure h e d =
      let concluded : conclude (transact ctx.rounds command payload s) ≡ some x =
        ground (arith, h, e) in
      conclude-retires (transact ctx.rounds command payload s) x failure concluded e d

  retire-closing : (s : State E) → s.closing ≡ true → retire s ≡ s
  unfolding retire
  retire-closing s c = rw c refl

  -- A closing session sends nothing: an exchange that returns is rejected, and the session stays closing.
  pub exchange-closing :
      (ctx : Admission E) (command : ℕ) (payload : Bytes) (s : State E)
      → s.closing ≡ true
      → (e : Fault E) × (exchange ctx command payload s
          ≡ some (record { result = err (rejected e); state = s }))
  unfolding exchange hid_call_error retire
  exchange-closing ctx command payload s c =
      elim (Result-cases (packets_for s.report_size 1 command payload)) [
        | inl (e, refused) ↦ (fragmenting e, ground (arith, refused))
        | inr (_, accepted) ↦ elim (Option-cases ctx.lock) [
          | inr (e, waited) ↦ (writing (context_done e), ground (arith, accepted, waited))
          | inl locked ↦ elim (Option-cases ctx.context) [
            | inr (e, late) ↦ (
              writing (context_done e),
              ground (arith, accepted, locked, late, c, retire-closing s c),
            )
            | inl in_time ↦
                (writing closed, ground (arith, accepted, locked, in_time, c, retire-closing s c))
          ]
        ]
      ]

  sent_nothing :
      (packets : List Bytes) (s : State E) (x : Exchanged E)
      → x.state.sent ≡ s.sent
      → Sent packets s x.state
  sent_nothing packets s x e = record {
    count = 0;
    sent_is = ground (arith, e, append-nil {A = Bytes} s.sent);
  }

  conclude-Sent :
      (packets : List Bytes) (s : State E) (step : Option (Step E Bytes)) (x : Exchanged E)
      → ((done : Step E Bytes) → step ≡ some done → Sent packets s done.state)
      → conclude step ≡ some x
      → Sent packets s x.state
  unfolding conclude
  conclude-Sent packets s none x sends h = absurd (ground (arith, h))
  conclude-Sent packets s (some done) x sends h =
      let sent = sends done refl in
      record { count = sent.count; sent_is = conclude-sent done x h ∙ sent.sent_is }

  transact-Sent :
      (rounds : List (Round E)) (command : ℕ) (payload : Bytes) (packets : List Bytes) (s : State E)
      (step : Step E Bytes)
      → s.channel_id ≢ 0
      → packets_for s.report_size s.channel_id command payload ≡ ok packets
      → transact rounds command payload s ≡ some step
      → Sent packets s step.state
  unfolding transact ensure_channel
  transact-Sent rounds command payload packets s step c p h =
      let started : State E = record s { progress = new_progress stage_request } in
      let sent =
        exchange_hid_message-Sent responding s.channel_id command payload packets started step p
          (ground (arith, h, c)) in
      record { count = sent.count; sent_is = sent.sent_is }

  -- On a session with a channel, however the exchange ends, the connection was handed the first packets
  -- of the request, in order and each once.
  pub exchange-Sent :
      (ctx : Admission E) (command : ℕ) (payload : Bytes) (packets : List Bytes) (s : State E)
      (x : Exchanged E)
      → s.channel_id ≢ 0
      → packets_for s.report_size s.channel_id command payload ≡ ok packets
      → exchange ctx command payload s ≡ some x
      → Sent packets s x.state
  unfolding exchange retire
  exchange-Sent ctx command payload packets s x c p h =
      elim (Result-cases (packets_for s.report_size 1 command payload)) [
        | inl (e, refused) ↦ sent_nothing packets s x (ground (arith, h, refused))
        | inr (_, accepted) ↦ elim (Option-cases ctx.lock) [
          | inr (e, waited) ↦ sent_nothing packets s x (ground (arith, h, accepted, waited))
          | inl locked ↦ elim (Result-cases (hid_call_error ctx s)) [
            | inl (e, refused) ↦
                sent_nothing packets s x (ground (arith, h, accepted, locked, refused))
            | inr (_, callable) ↦
                conclude-Sent packets s (transact ctx.rounds command payload s) x
                  (λ step e. transact-Sent ctx.rounds command payload packets s step c p e)
                  (ground (arith, h, accepted, locked, callable))
          ]
        ]
      ]
