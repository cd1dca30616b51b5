-- ===== src/Transport/Usb/Reader/Delivery.antt =====
-- A reader returns the message that arrives for it.
use fido_go.Base.{◌≡◌, refl, ◌≢◌, true, false, List, [], ◌∷◌, arith, Bytes, ok}
use fido_go.Wire.Hid.Order.{IsPacket}
use fido_go.Wire.Hid.Messages.{last, more, add_all-Taken, add_all-nil}
use fido_go.Wire.Hid.{Codec, Assembler, new_assembler, add_all}
use fido_go.Transport.Usb.Reader.Stream.{Arrives, arrived, packet, foreign}
use fido_go.Transport.Usb.Reader.{
  Answer, Outcome, is_hid_command_packet, hid_command_keepalive, hid_command_error, collect, start,
  finish_message, read_first,
}

pub Arrives-nil :
    {E : Type 0} {c : Codec} {rest : List (Answer E)} {ps : List Bytes} {answers : List (Answer E)}
    → ps ≡ []
    → Arrives c rest ps answers
    → answers ≡ rest
Arrives-nil e arrived = refl
Arrives-nil e (packet own later) = cc
Arrives-nil e (foreign other later) = cc

module _ {E : Type 0} (c : Codec) (rest : List (Answer E)) (b : Assembler)
    (b_done : b.done ≡ true) where
  -- The loop takes a message's remaining packets and drops what is foreign.
  collect-Arrives :
      {ps : List Bytes} {answers : List (Answer E)}
      (finish : Assembler → List (Answer E) → Outcome E) (a : Assembler)
      → a.done ≡ false
      → add_all a ps ≡ ok b
      → Arrives c rest ps answers
      → collect c finish a answers ≡ finish b rest
  unfolding collect
  collect-Arrives finish a unfinished h arrived = cc (add_all-nil a b h)
  collect-Arrives finish a unfinished h (foreign f later) =
      rw (f, collect) (collect-Arrives finish a unfinished h later)
  collect-Arrives finish a unfinished h (packet {p} {ps} own later) =
      elim (add_all-Taken a b p ps h b_done) [
        | last e none_left ↦ ground (arith, own, e, b_done, Arrives-nil none_left later)
        | more m e not_yet adds ↦
            ground (arith, own, e, not_yet, collect-Arrives finish m not_yet adds later)
      ]

  pub start-Arrives :
      {ps : List Bytes} {answers : List (Answer E)} (p : Bytes)
      (finish : Assembler → List (Answer E) → Outcome E)
      → add_all (new_assembler c) (p ∷ ps) ≡ ok b
      → Arrives c rest ps answers
      → start c finish p answers ≡ finish b rest
  unfolding start
  start-Arrives {ps} p finish h later = elim (add_all-Taken (new_assembler c) b p ps h b_done) [
    | last e none_left ↦ ground (arith, e, b_done, Arrives-nil none_left later)
    | more m e not_yet adds ↦
        ground (arith, e, not_yet, collect-Arrives finish m not_yet adds later)
  ]

  -- A message that is neither a keepalive nor an error, whichever codec it is read for.
  pub read_first-Arrives :
      {p : Bytes} {ps : List Bytes} {answers : List (Answer E)}
      → IsPacket c c.command p
      → c.command ≢ hid_command_keepalive
      → c.command ≢ hid_command_error
      → add_all (new_assembler c) (p ∷ ps) ≡ ok b
      → Arrives c rest (p ∷ ps) answers
      → read_first c answers ≡ finish_message b rest
  unfolding read_first is_hid_command_packet
  read_first-Arrives is quiet fine h (foreign f later) =
      rw (f, read_first) (read_first-Arrives is quiet fine h later)
  read_first-Arrives is quiet fine h (packet {p} own later) =
      ground (arith, own, start-Arrives p finish_message h later)
