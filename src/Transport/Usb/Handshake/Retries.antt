-- ===== src/Transport/Usb/Handshake/Retries.antt =====
-- The bound on the handshake's attempts, and the channel that it allocates.
use fido_go.Base.{ℕ, zero, suc, ◌≡◌, refl, inl, inr, List, [], ◌∷◌, arith, Option-cases, take}
use fido_go.Transport.Usb.State.{State, ◌>>=◌, return, Action}
use fido_go.Transport.Usb.Handshake.{Round, handshake, retry_handshake, initialize_channel}

module _ {E : Type 0} where
  retry_handshake-take :
      (n : ℕ) (rounds : List (Round E)) (s : State E)
      → retry_handshake n (take (suc n) rounds) s ≡ retry_handshake n rounds s
  unfolding retry_handshake
  retry_handshake-take n [] s = refl
  retry_handshake-take zero (round ∷ rounds) s = refl
  retry_handshake-take (suc n) (round ∷ rounds) s = elim (Option-cases (handshake round.nonce s)) [
    | inl waits ↦ ground (arith, waits)
    | inr (step, ends) ↦ ground (arith, ends, retry_handshake-take n rounds step.state)
  ]

  same_first :
      {A B : Type 0} (f g : Action E A) (next : A → Action E B) (s : State E)
      → f s ≡ g s
      → (f >>= next) s ≡ (g >>= next) s
  same_first f g next s h = ground (arith, h)

  -- At most 21 attempts are made: what would follow them has no effect.
  pub initialize_channel-take :
      (rounds : List (Round E)) (s : State E)
      → initialize_channel (take 21 rounds) s ≡ initialize_channel rounds s
  unfolding initialize_channel
  initialize_channel-take rounds s =
      same_first (retry_handshake 20 (take 21 rounds)) (retry_handshake 20 rounds)
        (λ channel s'. return tt (record s' { channel_id = channel })) s
        (retry_handshake-take 20 rounds s)
