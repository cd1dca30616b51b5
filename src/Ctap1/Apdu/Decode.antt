-- ===== src/Ctap1/Apdu/Decode.antt =====
-- How a card reads a command APDU (ISO 7816-4, cases 1 to 4, short and extended), as an independent
-- description of the encoding.
use fido_go.Base.{
  ℕ, ◌+◌, ◌*◌, ◌^◌, Option, none, some, [], ◌∷◌, ◌==◌, if◌then◌else◌, take, drop, Bytes,
}

pub record Apdu : Type 0 where
  pub class : ℕ
  pub instruction : ℕ
  pub p1 : ℕ
  pub p2 : ℕ
  pub body : Bytes
  -- the number of response bytes that are expected at most
  pub expected : ℕ

-- The length field for the response: absent is 0, and all zero is the maximum.
abbrev pub short_expected : Bytes → Option ℕ
short_expected [] = some 0
short_expected (le ∷ []) = some (if le == 0 then 256 else le)
short_expected (_ ∷ _ ∷ _) = none

abbrev pub extended_expected : Bytes → Option ℕ
extended_expected [] = some 0
extended_expected (h ∷ []) = none
extended_expected (h ∷ l ∷ []) = some (if h * 2 ^ 8 + l == 0 then 65536 else h * 2 ^ 8 + l)
extended_expected (_ ∷ _ ∷ _ ∷ _) = none

abbrev pub with_body : (Bytes → Option ℕ) → ℕ → Bytes → Option (Bytes × ℕ)
with_body read size rest = elim (read (drop size rest)) [
  | none ↦ none
  | some n ↦ some (take size rest, n)
]

-- What follows the header. A first byte 0 with two more behind it begins an extended field.
abbrev pub read_fields : Bytes → Option (Bytes × ℕ)
read_fields [] = some ([], 0)
read_fields (le ∷ []) = some ([], if le == 0 then 256 else le)
read_fields (lc ∷ b ∷ []) = with_body short_expected lc (b ∷ [])
read_fields (lc ∷ h ∷ l ∷ []) =
    if lc == 0
    then with_body extended_expected 0 (h ∷ l ∷ [])
    else with_body short_expected lc (h ∷ l ∷ [])
read_fields (lc ∷ h ∷ l ∷ b ∷ rest) =
    if lc == 0
    then with_body extended_expected (h * 2 ^ 8 + l) (b ∷ rest)
    else with_body short_expected lc (h ∷ l ∷ b ∷ rest)

unfoldable pub read_apdu : Bytes → Option Apdu
read_apdu (class ∷ instruction ∷ p1 ∷ p2 ∷ fields) = elim (read_fields fields) [
  | none ↦ none
  | some (body, expected) ↦ some (record {
    class = class;
    instruction = instruction;
    p1 = p1;
    p2 = p2;
    body = body;
    expected = expected;
  })
]
read_apdu _ = none
