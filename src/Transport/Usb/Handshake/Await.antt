-- ===== src/Transport/Usb/Handshake/Await.antt =====
-- The responses that the loop of exchangeInit hears on the broadcast channel.
use fido_go.Base.{
  ℕ, zero, suc, ◌≤◌, ◌<◌, ◌≡◌, inl, inr, Option, none, some, arith, ltb, Bool-cases, Option-cases,
  length, take, Bytes, equal_bytes, equal_bytes_refl, equal_bytes-eq, Result-cases, err, ok,
}
use fido_go.Transport.Usb.State.{State, Step, Fault, init_too_short}
use fido_go.Transport.Usb.Packets.{read_message}
use fido_go.Transport.Usb.Packets.Shorter.{read_message-shorter}
use fido_go.Transport.Usb.Handshake.{await_init}

module _ {E : Type 0} where
  -- A message is read from the broadcast channel, or the read ends otherwise.
  abbrev pub Heard : State E → Option (Step E Bytes) → Type 0
  Heard s step = read_message (λ p. p) 0xffffffff 0x86 s ≡ step

  -- The end of the loop: nothing where it still waits. A response has at least 17 bytes, and one that does not begin
  -- with the nonce is for another client.
  pub data Awaits (nonce : Bytes) : State E → Option (Step E Bytes) → Type 0 where
    waits : (s : State E) → Heard s none → Awaits nonce s none
    fails :
        (s t : State E) (e : Fault E)
        → Heard s (some (record { result = err e; state = t }))
        → Awaits nonce s (some (record { result = err e; state = t }))
    refuses :
        (s t : State E) (response : Bytes)
        → Heard s (some (record { result = ok response; state = t }))
        → length response < 17
        → Awaits nonce s (some (record { result = err init_too_short; state = t }))
    accepts :
        (s t : State E) (response : Bytes)
        → Heard s (some (record { result = ok response; state = t }))
        → 17 ≤ length response
        → take 8 response ≡ nonce
        → Awaits nonce s (some (record { result = ok response; state = t }))
    skips :
        (s t : State E) (response : Bytes) (end : Option (Step E Bytes))
        → Heard s (some (record { result = ok response; state = t }))
        → 17 ≤ length response
        → ¬ (take 8 response ≡ nonce)
        → Awaits nonce t end
        → Awaits nonce s end

  await_init-Heard :
      (n : ℕ) (nonce : Bytes) (s t : State E) (response : Bytes)
      → Heard s (some (record { result = ok response; state = t }))
      → Awaits nonce t (await_init n nonce t)
      → Awaits nonce s (await_init (suc n) nonce s)
  unfolding await_init
  await_init-Heard n nonce s t response h later = elim (Bool-cases (ltb (length response) 17)) [
    | inl b ↦
        let same : await_init (suc n) nonce s
            ≡ some (record { result = err init_too_short; state = t }) =
          ground (arith, h, b) in
        rw (same) (refuses s t response h (ground (arith, b)))
    | inr b ↦ elim (Bool-cases (equal_bytes (take 8 response) nonce)) [
      | inl echo ↦
          let same : await_init (suc n) nonce s
              ≡ some (record { result = ok response; state = t }) =
            ground (arith, h, b, echo) in
          rw (same) (
            accepts s t response h (ground (arith, b))
              (equal_bytes-eq (take 8 response) nonce echo))
      | inr other ↦
          let same : await_init (suc n) nonce s ≡ await_init n nonce t =
            ground (arith, h, b, other) in
          rw (same) (
            skips s t response _ h (ground (arith, b))
              (λ e. ground (arith, other, e, equal_bytes_refl nonce)) later)
    ]
  ]

  -- For every session and every number of rounds above that of its reports, the loop ends as the messages
  -- say: it goes past the responses with another nonce, returns the first with its own, ends with an error
  -- at a response of fewer than 17 bytes and at a failing read, and otherwise waits.
  pub await_init-Awaits :
      (n : ℕ) (nonce : Bytes) (s : State E)
      → length s.reads < n
      → Awaits nonce s (await_init n nonce s)
  unfolding await_init
  await_init-Awaits zero nonce s h = absurd (omega arith)
  await_init-Awaits (suc n) nonce s h =
      elim (Option-cases (read_message (λ p. p) 0xffffffff 0x86 s)) [
        | inl silent ↦
            let same : await_init (suc n) nonce s ≡ none = ground (arith, silent) in
            rw (same) (waits s silent)
        | inr (step, ends) ↦ elim (Result-cases step.result) [
          | inl (e, refused) ↦
              let same : await_init (suc n) nonce s
                  ≡ some (record { result = err e; state = step.state }) =
                ground (arith, ends, refused) in
              rw (same) (fails s step.state e (ground (arith, ends, refused)))
          | inr (response, read) ↦
              let shorter =
                read_message-shorter (λ p. p) 0xffffffff 0x86 s step response ends read in
              await_init-Heard n nonce s step.state response (ground (arith, ends, read))
                (await_init-Awaits n nonce step.state (omega (arith, shorter)))
        ]
      ]
