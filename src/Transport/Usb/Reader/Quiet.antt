-- ===== src/Transport/Usb/Reader/Quiet.antt =====
-- Keepalive messages and device errors in front of a response.
use fido_go.Base.{
  ℕ, ◌^◌, ◌≤◌, ◌<◌, bit_and, ◌≡◌, refl, ◌∙◌, ◌≢◌, true, false, List, [], ◌∷◌, arith, length, Bytes,
  IsByte, ok,
}
use fido_go.Wire.Hid.RoundTrip.{IsValid}
use fido_go.Wire.Hid.Order.{IsPacket}
use fido_go.Wire.Hid.Messages.{
  Fragments, fragment-Fragments, last, more, add_all-Taken, add_all-nil,
}
use fido_go.Wire.Hid.{Codec, Assembler, max_payload_size, fragment, new_assembler, add_all}
use fido_go.Transport.Usb.Reader.Delivery.{Arrives-nil, start-Arrives}
use fido_go.Transport.Usb.Reader.Stream.{Arrives, arrived, packet, foreign}
use fido_go.Transport.Usb.Reader.{
  Answer, is_foreign, is_hid_command_packet, hid_command_keepalive, hid_command_error, finish_error,
  with_command, read_first, discard,
}

abbrev pub keepalive_codec : Codec → Codec
keepalive_codec c = with_command c hid_command_keepalive

abbrev pub error_codec : Codec → Codec
error_codec c = with_command c hid_command_error

module _ {E : Type 0} (c : Codec) (rest : List (Answer E)) (b : Assembler)
    (b_done : b.done ≡ true) where
  discard-Arrives :
      {ps : List Bytes} {answers : List (Answer E)} (a : Assembler)
      → a.done ≡ false
      → add_all a ps ≡ ok b
      → Arrives c rest ps answers
      → discard c a answers ≡ read_first c rest
  unfolding discard
  discard-Arrives a unfinished h arrived = cc (add_all-nil a b h)
  discard-Arrives a unfinished h (foreign f later) =
      rw (f, discard) (discard-Arrives a unfinished h later)
  discard-Arrives a unfinished h (packet {p} {ps} own later) =
      elim (add_all-Taken a b p ps h b_done) [
        | last e none_left ↦ ground (arith, own, e, b_done, Arrives-nil none_left later)
        | more m e not_yet adds ↦
            ground (arith, own, e, not_yet, discard-Arrives m not_yet adds later)
      ]

  -- A keepalive message is dropped.
  read_first-keepalive :
      {p : Bytes} {ps : List Bytes} {answers : List (Answer E)}
      → IsPacket c hid_command_keepalive p
      → add_all (new_assembler (keepalive_codec c)) (p ∷ ps) ≡ ok b
      → Arrives c rest (p ∷ ps) answers
      → read_first c answers ≡ read_first c rest
  unfolding read_first is_hid_command_packet
  read_first-keepalive is h (foreign f later) = rw (f, read_first) (read_first-keepalive is h later)
  read_first-keepalive is h (packet {p} {ps} own later) =
      elim (add_all-Taken (new_assembler (keepalive_codec c)) b p ps h b_done) [
        | last e none_left ↦ ground (arith, own, e, b_done, Arrives-nil none_left later)
        | more m e not_yet adds ↦
            ground (arith, own, e, not_yet, discard-Arrives m not_yet adds later)
      ]

Arrives-with_command :
    {E : Type 0} {c : Codec} {rest : List (Answer E)} {ps : List Bytes} {answers : List (Answer E)}
    (command : ℕ)
    → Arrives c rest ps answers
    → Arrives (with_command c command) rest ps answers
unfolding is_foreign
Arrives-with_command command arrived = arrived
Arrives-with_command command (packet own later) = packet own (Arrives-with_command command later)
Arrives-with_command command (foreign other later) =
    foreign other (Arrives-with_command command later)

module _ {E : Type 0} (c : Codec) (rest : List (Answer E)) (b : Assembler)
    (b_done : b.done ≡ true) where
  pub read_first-error :
      {p : Bytes} {ps : List Bytes} {answers : List (Answer E)}
      → IsPacket c hid_command_error p
      → add_all (new_assembler (error_codec c)) (p ∷ ps) ≡ ok b
      → Arrives c rest (p ∷ ps) answers
      → read_first c answers ≡ finish_error b rest
  unfolding read_first is_hid_command_packet
  read_first-error is h (foreign f later) = rw (f, read_first) (read_first-error is h later)
  read_first-error is h (packet {p} own later) = ground (
    arith,
    own,
    start-Arrives (error_codec c) rest b b_done p finish_error h
        (Arrives-with_command hid_command_error later),
  )

-- Keepalive messages of any content, and reports of other channels among them, in front of `tail`.
pub data Quiet {E : Type 0} (c : Codec) (tail : List (Answer E)) : List (Answer E) → Type 0 where
  quiet : Quiet c tail tail
  keepalive :
      (status : Bytes) (packets : List Bytes) {after answers : List (Answer E)}
      → length status ≤ max_payload_size c.report_size
      → length status < 2 ^ 16
      → fragment (with_command c hid_command_keepalive) status ≡ ok packets
      → Arrives c after packets answers
      → Quiet c tail after
      → Quiet c tail answers

pub with_command-IsValid :
    (c : Codec) (command : ℕ)
    → IsValid c
    → IsByte command
    → bit_and command 0x80 ≢ 0
    → IsValid (with_command c command)
with_command-IsValid c command v byte bit = record {
  report_size_fits = v.report_size_fits;
  command_bit = bit;
  channel_fits = v.channel_fits;
  command_fits = byte;
}

module _ {E : Type 0} (c : Codec) (v : IsValid c) where
  one_keepalive :
      (status : Bytes) (packets : List Bytes) {after answers : List (Answer E)}
      → length status ≤ max_payload_size c.report_size
      → length status < 2 ^ 16
      → fragment (keepalive_codec c) status ≡ ok packets
      → Arrives c after packets answers
      → read_first c answers ≡ read_first c after
  one_keepalive status packets {after} small short e arrives =
      let valid = with_command-IsValid c hid_command_keepalive v (omega arith) (λ z. cc) in
      let (b, f) = fragment-Fragments (keepalive_codec c) status packets valid small short e in
      by_packets packets b f arrives
    where
      by_packets :
          (ps : List Bytes) (b : Assembler) {answers : List (Answer E)}
          → Fragments (keepalive_codec c) status ps b
          → Arrives c after ps answers
          → read_first c answers ≡ read_first c after
      by_packets [] b f _ = absurd f.is_message
      by_packets (p ∷ ps) b f arrives =
          read_first-keepalive c after b f.done f.is_message.0 f.adds arrives

  pub read_first-Quiet :
      {tail answers : List (Answer E)}
      → Quiet c tail answers
      → read_first c answers ≡ read_first c tail
  read_first-Quiet quiet = refl
  read_first-Quiet (keepalive status packets small short e arrives later) =
      one_keepalive status packets small short e arrives ∙ read_first-Quiet later
