-- ===== src/Transport/Usb/Reader/Shorter.antt =====
-- A message that is read leaves fewer answers than there were.
use fido_go.Base.{
  ℕ, ◌≤◌, ◌<◌, ◌≡◌, inl, inr, List, [], ◌∷◌, arith, Bool-cases, length, Bytes, Result-cases, err,
  ok,
}
use fido_go.Wire.Hid.{Codec, Assembler, add, new_assembler, new_codec}
use fido_go.Transport.Usb.Reader.{
  Answer, Outcome, message, is_foreign, is_hid_command_packet, collect, start, finish_message,
  finish_error, read_first, discard, read_hid_message, with_command, hid_command_keepalive,
  hid_command_error,
}

module _ {E : Type 0} where
  -- What follows a message's last packet consumes nothing.
  abbrev pub IsIdle : (Assembler → List (Answer E) → Outcome E) → Type 0
  IsIdle finish =
      (a : Assembler) (answers : List (Answer E)) (body : Bytes) (rest : List (Answer E))
      → finish a answers ≡ message body rest
      → rest ≡ answers

  finish_message-IsIdle : IsIdle (finish_message {E = E})
  unfolding finish_message
  finish_message-IsIdle a answers body rest h = ground (arith, h)

  finish_error-IsIdle : IsIdle (finish_error {E = E})
  unfolding finish_error
  finish_error-IsIdle a answers body rest h = ground (arith, h)

  collect-shorter :
      (c : Codec) (finish : Assembler → List (Answer E) → Outcome E) (a : Assembler)
      (answers : List (Answer E)) (body : Bytes) (rest : List (Answer E))
      → IsIdle finish
      → collect c finish a answers ≡ message body rest
      → length rest < length answers
  unfolding collect
  collect-shorter c finish a [] body rest idle h = absurd (ground (arith, h))
  collect-shorter c finish a (err e ∷ answers) body rest idle h = absurd (ground (arith, h))
  collect-shorter c finish a (ok packet ∷ answers) body rest idle h =
      elim (Bool-cases (is_foreign c packet)) [
        | inl other ↦
            let later =
              collect-shorter c finish a answers body rest idle (ground (arith, h, other)) in
            omega (arith, later)
        | inr own ↦ elim (Result-cases (add a packet)) [
          | inl (_, refused) ↦ absurd (ground (arith, h, own, refused))
          | inr (b, added) ↦ elim (Bool-cases b.done) [
            | inl done ↦
                let same = idle b answers body rest (ground (arith, h, own, added, done)) in
                rw same (omega arith)
            | inr more ↦
                let later =
                  collect-shorter c finish b answers body rest idle
                    (ground (arith, h, own, added, more)) in
                omega (arith, later)
          ]
        ]
      ]

  start-shorter :
      (c : Codec) (finish : Assembler → List (Answer E) → Outcome E) (packet : Bytes)
      (answers : List (Answer E)) (body : Bytes) (rest : List (Answer E))
      → IsIdle finish
      → start c finish packet answers ≡ message body rest
      → length rest ≤ length answers
  unfolding start
  start-shorter c finish packet answers body rest idle h =
      elim (Result-cases (add (new_assembler c) packet)) [
        | inl (_, refused) ↦ absurd (ground (arith, h, refused))
        | inr (b, added) ↦ elim (Bool-cases b.done) [
          | inl done ↦
              let same = idle b answers body rest (ground (arith, h, added, done)) in
              rw same (omega arith)
          | inr more ↦
              let later =
                collect-shorter c finish b answers body rest idle
                  (ground (arith, h, added, more)) in
              omega (arith, later)
        ]
      ]

  mutual
    unfolding read_first discard

    read_first-shorter :
        (c : Codec) (answers : List (Answer E)) (body : Bytes) (rest : List (Answer E))
        → read_first c answers ≡ message body rest
        → length rest < length answers
    read_first-shorter c [] body rest h = absurd (ground (arith, h))
    read_first-shorter c (err e ∷ answers) body rest h = absurd (ground (arith, h))
    read_first-shorter c (ok packet ∷ answers) body rest h =
        elim (Bool-cases (is_foreign c packet)) [
          | inl other ↦
              let later = read_first-shorter c answers body rest (ground (arith, h, other)) in
              omega (arith, later)
          | inr own ↦ elim (Bool-cases (is_hid_command_packet c hid_command_keepalive packet)) [
            | inl busy ↦
                elim (Result-cases
                  (add (new_assembler (with_command c hid_command_keepalive)) packet)) [
                    | inl (_, refused) ↦ absurd (ground (arith, h, own, busy, refused))
                    | inr (b, added) ↦ elim (Bool-cases b.done) [
                      | inl done ↦
                          let later =
                            read_first-shorter c answers body rest
                              (ground (arith, h, own, busy, added, done)) in
                          omega (arith, later)
                      | inr more ↦
                          let later =
                            discard-shorter c b answers body rest
                              (ground (arith, h, own, busy, added, more)) in
                          omega (arith, later)
                    ]
                  ]
            | inr answer ↦ elim (Bool-cases (is_hid_command_packet c hid_command_error packet)) [
              | inl error ↦
                  let later =
                    start-shorter (with_command c hid_command_error) finish_error packet answers
                      body rest finish_error-IsIdle (ground (arith, h, own, answer, error)) in
                  omega (arith, later)
              | inr plain ↦
                  let later =
                    start-shorter c finish_message packet answers body rest finish_message-IsIdle
                      (ground (arith, h, own, answer, plain)) in
                  omega (arith, later)
            ]
          ]
        ]

    discard-shorter :
        (c : Codec) (a : Assembler) (answers : List (Answer E)) (body : Bytes)
        (rest : List (Answer E))
        → discard c a answers ≡ message body rest
        → length rest < length answers
    discard-shorter c a [] body rest h = absurd (ground (arith, h))
    discard-shorter c a (err e ∷ answers) body rest h = absurd (ground (arith, h))
    discard-shorter c a (ok packet ∷ answers) body rest h =
        elim (Bool-cases (is_foreign c packet)) [
          | inl other ↦
              let later = discard-shorter c a answers body rest (ground (arith, h, other)) in
              omega (arith, later)
          | inr own ↦ elim (Result-cases (add a packet)) [
            | inl (_, refused) ↦ absurd (ground (arith, h, own, refused))
            | inr (b, added) ↦ elim (Bool-cases b.done) [
              | inl done ↦
                  let later =
                    read_first-shorter c answers body rest (ground (arith, h, own, added, done)) in
                  omega (arith, later)
              | inr more ↦
                  let later =
                    discard-shorter c b answers body rest (ground (arith, h, own, added, more)) in
                  omega (arith, later)
            ]
          ]
        ]

  -- Reading a message consumes at least one answer.
  pub read_hid_message-shorter :
      (report_size channel command : ℕ) (answers : List (Answer E)) (body : Bytes)
      (rest : List (Answer E))
      → read_hid_message report_size channel command answers ≡ message body rest
      → length rest < length answers
  unfolding read_hid_message
  read_hid_message-shorter report_size channel command answers body rest h =
      elim (Result-cases (new_codec channel command report_size)) [
        | inl (_, refused) ↦ absurd (ground (arith, h, refused))
        | inr (c, made) ↦ read_first-shorter c answers body rest (ground (arith, h, made))
      ]
