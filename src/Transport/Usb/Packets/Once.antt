-- ===== src/Transport/Usb/Packets/Once.antt =====
-- Which reports a message call hands to the connection.
use fido_go.Base.{
  ℕ, suc, ◌≡◌, ◌∙◌, inl, inr, some, List, [], ◌∷◌, ◌++◌, append-nil, append_assoc, arith,
  Option-cases, take, Bytes, Result-cases, ok,
}
use fido_go.Transport.Usb.State.{WriteRound, written, not_written, Progress, State, Step}
use fido_go.Transport.Usb.Packets.{
  record_outcome, write_result, write_packets, write_message, read_message, packets_for,
  exchange_hid_message,
}

module _ {E : Type 0} where
  -- The first packets of `ps`, in order, were handed over between `s` and `s'`.
  pub record Sent (ps : List Bytes) (s s' : State E) : Type 0 where
    pub count : ℕ
    pub sent_is : s'.sent ≡ s.sent ++ take count ps

  write_packets-Sent :
      (ps : List Bytes) (rounds : List (WriteRound E)) (s : State E) (step : Step E (Unit {0}))
      → write_packets ps rounds s ≡ some step
      → Sent ps s step.state
  unfolding write_packets
  write_packets-Sent [] rounds s step h = record {
    count = 0;
    sent_is = ground (arith, h, append-nil {A = Bytes} s.sent);
  }
  write_packets-Sent (p ∷ ps) [] s step h = absurd (ground (arith, h))
  write_packets-Sent (p ∷ ps) (not_written e ∷ rounds) s step h = record {
    count = 0;
    sent_is = ground (arith, h, append-nil {A = Bytes} s.sent);
  }
  write_packets-Sent (p ∷ ps) (written outcome error ∷ rounds) s step h =
      let s' : State E = record s {
        sent = s.sent ++ p ∷ [];
        progress = record_outcome s.progress outcome;
      } in
      elim (Result-cases (write_result outcome error)) [
        | inr (_, e) ↦
            let sent = write_packets-Sent ps rounds s' step (ground (arith, h, e)) in
            record {
              count = suc sent.count;
              sent_is = ground (
                arith,
                sent.sent_is,
                append_assoc {A = Bytes} s.sent (p ∷ []) (take sent.count ps),
              );
            }
        | inl (_, e) ↦ record { count = 1; sent_is = ground (arith, h, e) }
      ]

  read_message-sent :
      (mark : Progress → Progress) (channel command : ℕ) (s : State E) (step : Step E Bytes)
      → read_message mark channel command s ≡ some step
      → step.state.sent ≡ s.sent
  unfolding read_message
  read_message-sent mark channel command s step h = ground (arith, h)

  -- However the exchange ends, the connection was handed the first packets of the message, each once.
  pub exchange_hid_message-Sent :
      (mark : Progress → Progress) (channel command : ℕ) (payload : Bytes) (packets : List Bytes)
      (s : State E) (step : Step E Bytes)
      → packets_for s.report_size channel command payload ≡ ok packets
      → exchange_hid_message mark channel command payload s ≡ some step
      → Sent packets s step.state
  unfolding exchange_hid_message write_message
  exchange_hid_message-Sent mark channel command payload packets s step e h =
      elim (Option-cases (write_packets packets s.writes s)) [
        | inl none_is ↦ absurd (ground (arith, h, e, none_is))
        | inr (w, some_is) ↦
            let sent = write_packets-Sent packets s.writes s w some_is in
            elim (Result-cases w.result) [
              | inl (_, failed_is) ↦ record {
                count = sent.count;
                sent_is = ground (arith, h, e, some_is, failed_is, sent.sent_is);
              }
              | inr (_, ok_is) ↦
                  let reads : read_message mark channel command w.state ≡ some step =
                    ground (arith, h, e, some_is, ok_is) in
                  record {
                    count = sent.count;
                    sent_is =
                        read_message-sent mark channel command w.state step reads ∙ sent.sent_is;
                  }
            ]
      ]
