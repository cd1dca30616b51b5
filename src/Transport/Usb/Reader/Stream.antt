-- ===== src/Transport/Usb/Reader/Stream.antt =====
-- Streams of answers that carry given packets, with reports of other channels in between.
use fido_go.Base.{◌≡◌, true, false, List, [], ◌∷◌, Bytes, ok}
use fido_go.Wire.Hid.{Codec}
use fido_go.Transport.Usb.Reader.{Answer, is_foreign}

-- `answers` hold the packets in order, then `rest`.
pub data Arrives {E : Type 0} (c : Codec) (rest : List (Answer E))
    : List Bytes → List (Answer E) → Type 0 where
  arrived : Arrives c rest [] rest
  packet :
      {p : Bytes} {ps : List Bytes} {answers : List (Answer E)}
      → is_foreign c p ≡ false
      → Arrives c rest ps answers
      → Arrives c rest (p ∷ ps) (ok p ∷ answers)
  foreign :
      {p q : Bytes} {ps : List Bytes} {answers : List (Answer E)}
      → is_foreign c p ≡ true
      → Arrives c rest (q ∷ ps) answers
      → Arrives c rest (q ∷ ps) (ok p ∷ answers)
