-- ===== src/ClientCtap2/Management/Retries.antt =====
-- Which commands run when credential management fails and is tried again.
use fido_go.Base.{
  ℕ, ◌≡◌, ◌⊎◌, inl, inr, Bool, true, false, ◌&&◌, Option, some, arith, ◌==◌, ==_iff, Bool-cases,
  Option-cases, Result, Result-cases, err, ok,
}
use fido_go.ClientCtap2.Platform.{Platform, Error, Action, status_of}
use fido_go.ClientCtap2.Pins.{Info, option_enabled, should_retry}
use fido_go.ClientCtap2.Management.{
  option_credential_mgmt_preview, is_preview_status, should_retry_with_preview, try_preview,
  with_retries,
}

-- The status codes after which the preview command is worth a try.
abbrev pub IsPreviewCode : ℕ → Type 0
IsPreviewCode c =
    (c ≡ 0x01)
    ⊎ ((c ≡ 0x02)
        ⊎ ((c ≡ 0x12)
            ⊎ ((c ≡ 0x14)
                ⊎ ((c ≡ 0x2b) ⊎ ((c ≡ 0x2c) ⊎ ((c ≡ 0x36) ⊎ ((c ≡ 0x3e) ⊎ (c ≡ 0x40))))))))

module _ {World X Priv Pub A : Type 0} (p : Platform World X Priv Pub) (info : Option Info)
    (supports_preview : Bool) (code : ℕ) (run : ℕ → Action World X A) where
  -- The preview command is due after an error: the standard command was chosen, the source of tokens
  -- supports the other and the authenticator advertises it, and the error is one of those statuses.
  abbrev pub IsPreviewDue : Error X → Type 0
  IsPreviewDue e =
      (code ≡ 0x0a)
      × ((supports_preview ≡ true)
          × ((option_enabled info option_credential_mgmt_preview ≡ true)
              × ((c : ℕ) × ((status_of p e ≡ some c) × IsPreviewCode c))))

  -- The outcome of the command that runs last in a world.
  pub data EndsLast (w : World) : Result (Error X) A × World → Type 0 where
    succeeds : (a : A) → (run code w).0 ≡ ok a → EndsLast w (run code w)
    fails : (e : Error X) → (run code w).0 ≡ err e → ¬ IsPreviewDue e → EndsLast w (run code w)
    previews :
        (e : Error X)
        → (run code w).0 ≡ err e
        → IsPreviewDue e
        → EndsLast w (run 0x41 (run code w).1)

  -- The command is the last, or it fails with the status 0x12 and runs a second time.
  pub data Ends (w : World) : Result (Error X) A × World → Type 0 where
    once :
        (r : Result (Error X) A × World)
        → ((e : Error X) → (run code w).0 ≡ err e → ¬ (status_of p e ≡ some 0x12))
        → EndsLast w r
        → Ends w r
    twice :
        (r : Result (Error X) A × World) (e : Error X)
        → (run code w).0 ≡ err e
        → status_of p e ≡ some 0x12
        → EndsLast (run code w).1 r
        → Ends w r

  preview_status-IsPreviewCode :
      (c : ℕ)
      → ((is_preview_status c ≡ true) × IsPreviewCode c)
        ⊎ ((is_preview_status c ≡ false) × ¬ IsPreviewCode c)
  preview_status-IsPreviewCode c = ground arith

  abbrev may_preview : Bool
  may_preview =
      code == 0x0a && (supports_preview && option_enabled info option_credential_mgmt_preview)

  try_preview-cases :
      (e : Error X) (w : World)
      → ((try_preview p info supports_preview code run e w ≡ (err e, w)) × ¬ IsPreviewDue e)
        ⊎ ((try_preview p info supports_preview code run e w ≡ run 0x41 w) × IsPreviewDue e)
  unfolding try_preview should_retry_with_preview
  try_preview-cases e w = elim (Option-cases (status_of p e)) [
    | inl other ↦
        inl (ground (arith, other), λ (_, (_, (_, (c, (h, _))))). ground (arith, other, h))
    | inr (c, h) ↦ elim (preview_status-IsPreviewCode c) [
      | inr (unknown, not_code) ↦ inl (
        ground (arith, h, unknown),
        λ (_, (_, (_, (d, (k, is_code))))).
            let same : c ≡ d = ground (arith, h, k) in not_code (rw (same) is_code),
      )
      | inl (known, is_code) ↦ elim (Bool-cases may_preview) [
        | inl b ↦ inr (
          ground (arith, h, known, b, ==_iff code 0x0a),
          (
            ground (arith, b, ==_iff code 0x0a),
            (ground (arith, b), (ground (arith, b), (c, (h, is_code)))),
          ),
        )
        | inr b ↦ inl (
          ground (arith, h, known, b),
          λ (k, (y, (o, _))). ground (arith, b, k, y, o, ==_iff code 0x0a),
        )
      ]
    ]
  ]

  -- What runs after the last error.
  try_preview-EndsLast :
      (w : World) (e : Error X)
      → (run code w).0 ≡ err e
      → EndsLast w (try_preview p info supports_preview code run e (run code w).1)
  try_preview-EndsLast w e h = elim (try_preview-cases e (run code w).1) [
    | inl (t, undue) ↦
        let same : (Result.err e, (run code w).1) ≡ run code w = ground (arith, h) in
        rw (t, same) (fails e h undue)
    | inr (t, due) ↦ rw (t) (previews e h due)
  ]

  should_retry_iff :
      (e : Error X)
      → ((should_retry p e ≡ true) × (status_of p e ≡ some 0x12))
        ⊎ ((should_retry p e ≡ false) × ¬ (status_of p e ≡ some 0x12))
  unfolding should_retry
  should_retry_iff e = elim (Option-cases (status_of p e)) [
    | inl other ↦ inr (ground (arith, other), λ h. ground (arith, other, h))
    | inr (c, h) ↦ elim (Bool-cases (c == 0x12)) [
      | inl b ↦ inl (ground (arith, h, b, ==_iff c 0x12), ground (arith, h, b, ==_iff c 0x12))
      | inr b ↦ inr (ground (arith, h, b), λ k. ground (arith, h, b, k))
    ]
  ]

  -- Whatever the command does, its outcome is that of the last command that runs: the command itself,
  -- run a second time exactly after the status 0x12, or the preview command, exactly where it is due
  -- after the last error.
  pub with_retries-Ends : (w : World) → Ends w (with_retries p info supports_preview code run w)
  unfolding with_retries
  with_retries-Ends w = elim (Result-cases (run code w).0) [
    | inr (a, h) ↦
        let same : with_retries p info supports_preview code run w ≡ run code w =
          ground (arith, h) in
        rw (same) (once (run code w) (λ e k. ground (arith, h, k)) (succeeds a h))
    | inl (e, h) ↦ elim (should_retry_iff e) [
      | inr (r, other) ↦
          let same : with_retries p info supports_preview code run w
              ≡ try_preview p info supports_preview code run e (run code w).1 =
            ground (arith, h, r) in
          rw (same) (
            once _ (λ f k. let eq : e ≡ f = ground (arith, h, k) in rw (← eq) other)
              (try_preview-EndsLast w e h))
      | inl (r, locked) ↦ elim (Result-cases (run code (run code w).1).0) [
        | inr (a, i) ↦
            let same : with_retries p info supports_preview code run w ≡ run code (run code w).1 =
              ground (arith, h, r, i) in
            rw (same) (twice _ e h locked (succeeds a i))
        | inl (f, i) ↦
            let same : with_retries p info supports_preview code run w
                ≡ try_preview p info supports_preview code run f (run code (run code w).1).1 =
              ground (arith, h, r, i) in
            rw (same) (twice _ e h locked (try_preview-EndsLast (run code w).1 f i))
      ]
    ]
  ]
