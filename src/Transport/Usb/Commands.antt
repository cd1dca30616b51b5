-- ===== src/Transport/Usb/Commands.antt =====
-- pkg/transport/usb/hid.go and the end of hid_session.go: which CTAPHID commands a caller may send,
-- and which one carries a request of `Exchange`.
use fido_go.Base.{
  ℕ, bit_and, ◌≡◌, refl, ◌⊎◌, inl, inr, Bool, false, not, ◌||◌, ltb, ◌==◌, if◌then◌else◌,
  Bool-cases, length, Bytes, byte_at, Result, ◌>>◌, reject_if,
}

abbrev pub hid_command_msg : ℕ
hid_command_msg = 0x83

abbrev pub hid_command_cbor : ℕ
hid_command_cbor = 0x90

-- *InvalidHIDCommandError
pub record InvalidHidCommand : Type 0 where
  pub command : ℕ

-- `case 0x06, 0x11, 0x3b, 0x3f`: INIT, CANCEL, KEEPALIVE, ERROR.
is_session_command : ℕ → Bool
is_session_command command =
    command == 0x06 || (command == 0x11 || (command == 0x3b || command == 0x3f))

pub validate_hid_command : ℕ → Result InvalidHidCommand (Unit {0})
validate_hid_command command = do
  reject_if (command == 0 || not (bit_and command 0x80 == 0)) (record { command = command })
  reject_if (is_session_command command) (record { command = command })

unfoldable pub is_ctap1_apdu : Bytes → Bool
is_ctap1_apdu req =
    if ltb (length req) 4 || not (byte_at req 0 == 0)
    then false
    else byte_at req 1 == 1 || (byte_at req 1 == 2 || byte_at req 1 == 3)

unfoldable pub hid_command_for_request : Bytes → ℕ
hid_command_for_request req = if is_ctap1_apdu req then hid_command_msg else hid_command_cbor

pub hid_command_for_request_lem :
    (req : Bytes)
    → (hid_command_for_request req ≡ hid_command_msg)
      ⊎ (hid_command_for_request req ≡ hid_command_cbor)
unfolding hid_command_for_request
hid_command_for_request_lem req = elim (Bool-cases (is_ctap1_apdu req)) [
  | inl e ↦ inl (rw e refl)
  | inr e ↦ inr (rw e refl)
]
