-- ===== src/Transport/Usb/Handshake/Allocated.antt =====
-- The channel that a handshake yields is the one that the device allocated for it.
use fido_go.Base.{
  ℕ, suc, ◌≤◌, ◌≡◌, sym, inl, inr, true, false, ◌||◌, Option, some, List, [], ◌∷◌, arith, ◌==◌,
  Bool-cases, Option-cases, length, take, Bytes, uint32_at, Result-cases, ok,
}
use fido_go.Transport.Usb.State.{
  State, Step, stage_init, stage_ping, new_progress, ◌>>=◌, ◌>>◌, Action, return, fail, begin,
  invalid_channel, invalid_ping_echo,
}
use fido_go.Transport.Usb.Packets.{packets_for, write_message, exchange_hid_message}
use fido_go.Transport.Usb.Handshake.{await_init_response, exchange_init, handshake}
use fido_go.Transport.Usb.Handshake.Await.{
  Awaits, waits, fails, refuses, accepts, skips, await_init-Awaits,
}

module _ {E : Type 0} where
  -- An action ends with a value.
  abbrev pub Yields : {A : Type 0} → Action E A → State E → A → State E → Type 0
  Yields f s a t = f s ≡ some (record { result = ok a; state = t })

  -- INIT with the nonce was written to the broadcast channel, a response to it named the channel, and
  -- an empty PING on that channel was answered by an empty one.
  pub record Allocated (nonce : Bytes) (channel : ℕ) (s t : State E) : Type 0 where
    pub packets : List Bytes
    pub asked : State E
    pub response : Bytes
    pub answered : State E
    pub encoded : packets_for s.report_size 0xffffffff 0x86 nonce ≡ ok packets
    pub written :
        Yields (write_message packets) (record s { progress = new_progress stage_init }) tt asked
    pub heard : Awaits nonce asked (some (record { result = ok response; state = answered }))
    pub whole : 17 ≤ length response
    pub echoes : take 8 response ≡ nonce
    pub named : channel ≡ uint32_at response 8
    pub nonzero : ¬ (channel ≡ 0)
    pub not_broadcast : ¬ (channel ≡ 0xffffffff)
    pub probed :
        Yields
          (exchange_hid_message (λ p. p) channel 0x81 [])
          (record answered { progress = new_progress stage_ping })
          []
          t

  -- A response that the loop returns is one to the nonce.
  Awaits-echoes :
      (nonce : Bytes) (s : State E) (end : Option (Step E Bytes)) (response : Bytes) (t : State E)
      → Awaits nonce s end
      → end ≡ some (record { result = ok response; state = t })
      → (17 ≤ length response) × (take 8 response ≡ nonce)
  Awaits-echoes nonce s end response t (waits _ h) e = absurd (ground (arith, e))
  Awaits-echoes nonce s end response t (fails _ u f h) e = absurd (ground (arith, e))
  Awaits-echoes nonce s end response t (refuses _ u r h l) e = absurd (ground (arith, e))
  Awaits-echoes nonce s end response t (accepts _ u r h l k) e =
      let same : r ≡ response = ground (arith, e) in rw (← same) (l, k)
  Awaits-echoes nonce s end response t (skips _ u r _ h l k later) e =
      Awaits-echoes nonce u end response t later e

  -- An action in sequence that ends with a value does so after its first part.
  first-Yields :
      {A B : Type 0} (f : Action E A) (g : A → Action E B) (s t : State E) (b : B)
      → Yields (f >>= g) s b t
      → (a : A) × (u : State E) × (Yields f s a u × Yields (g a) u b t)
  first-Yields f g s t b h = elim (Option-cases (f s)) [
    | inl silent ↦ absurd (ground (arith, h, silent))
    | inr (step, ends) ↦ elim (Result-cases step.result) [
      | inl (e, refused) ↦ absurd (ground (arith, h, ends, refused))
      | inr (a, made) ↦ (a, step.state, (ground (arith, ends, made), ground (arith, h, ends, made)))
    ]
  ]

  exchange_init-Yields :
      (nonce response : Bytes) (s t : State E)
      → Yields (exchange_init nonce) s response t
      → (packets : List Bytes) × (asked : State E) × ((packets_for s.report_size 0xffffffff 0x86
              nonce
            ≡ ok packets)
          × (Yields (write_message packets) s tt asked
              × Yields (await_init_response nonce) asked response t))
  unfolding exchange_init
  exchange_init-Yields nonce response s t h =
      elim (Result-cases (packets_for s.report_size 0xffffffff 0x86 nonce)) [
        | inl (e, refused) ↦ absurd (ground (arith, h, refused))
        | inr (packets, made) ↦
            let (_, asked, (w, a)) =
              first-Yields (write_message packets) (λ _. await_init_response nonce) s t response
                (ground (arith, h, made)) in
            (packets, asked, (made, (w, a)))
      ]

  -- What `handshake` does with the answer to its PING.
  abbrev accept_echo : ℕ → Bytes → Action E ℕ
  accept_echo channel echo = elim (length echo == 0) [
    | true ↦ return channel
    | false ↦ fail invalid_ping_echo
  ]

  answer_echo :
      (c channel : ℕ) (echo : Bytes) (s u t : State E)
      → Yields (exchange_hid_message (λ p. p) c 0x81 []) s echo u
      → Yields (accept_echo c echo) u channel t
      → (c ≡ channel) × Yields (exchange_hid_message (λ p. p) channel 0x81 []) s [] t
  answer_echo c channel (b ∷ bs) s u t p r = absurd (ground (arith, r))
  answer_echo c channel [] s u t p r =
      let same : c ≡ channel = ground (arith, r) in
      let also : u ≡ t = ground (arith, r) in (same, rw (same, also) at p)

  -- What it does with the response to INIT.
  abbrev probe : Bytes → Action E ℕ
  probe response =
      let channel = uint32_at response 8 in
      elim (channel == 0 || channel == 0xffffffff) [
        | true ↦ fail (invalid_channel channel)
        | false ↦ do
          begin stage_ping
          echo ← exchange_hid_message (λ p. p) channel 0x81 []
          accept_echo channel echo
      ]

  probe-Yields :
      (response : Bytes) (channel : ℕ) (s t : State E)
      → Yields (probe response) s channel t
      → (channel ≡ uint32_at response 8)
        × (¬ (channel ≡ 0)
            × (¬ (channel ≡ 0xffffffff)
                × Yields
                    (exchange_hid_message (λ p. p) channel 0x81 [])
                    (record s { progress = new_progress stage_ping })
                    []
                    t))
  probe-Yields response channel s t h =
      let c = uint32_at response 8 in
      elim (Bool-cases (c == 0 || c == 0xffffffff)) [
        | inl b ↦ absurd (ground (arith, h, b))
        | inr b ↦
            let (echo, u, (p, r)) =
              first-Yields (exchange_hid_message (λ p. p) c 0x81 []) (accept_echo c)
                (record s { progress = new_progress stage_ping }) t channel
                (ground (arith, h, b)) in
            let (same, probed) = answer_echo c channel echo _ u t p r in
            (sym same, (λ z. ground (arith, b, same, z), (λ z. ground (arith, b, same, z), probed)))
      ]

  -- Where a handshake yields a channel, it has written INIT with its nonce to the broadcast channel, the
  -- loop has returned a response of 17 bytes or more that begins with that nonce and names the channel,
  -- neither 0 nor the broadcast channel, and an empty PING on it was answered by an empty one.
  pub handshake-Allocated :
      (nonce : Bytes) (s t : State E) (channel : ℕ)
      → handshake (ok nonce) s ≡ some (record { result = ok channel; state = t })
      → Allocated nonce channel s t
  unfolding handshake await_init_response
  handshake-Allocated nonce s t channel h =
      let begun : State E = record s { progress = new_progress stage_init } in
      let (response, answered, (i, r)) =
        first-Yields (exchange_init nonce) probe begun t channel h in
      let (packets, asked, (e, (w, a))) = exchange_init-Yields nonce response begun answered i in
      let (named, (nonzero, (not_broadcast, probed))) =
        probe-Yields response channel answered t r in
      let heard = await_init-Awaits (suc (length asked.reads)) nonce asked (omega arith) in
      let (whole, echoes) = Awaits-echoes nonce asked _ response answered heard a in
      record {
        packets = packets;
        asked = asked;
        response = response;
        answered = answered;
        encoded = e;
        written = w;
        heard = rw (← a) heard;
        whole = whole;
        echoes = echoes;
        named = named;
        nonzero = nonzero;
        not_broadcast = not_broadcast;
        probed = probed;
      }
