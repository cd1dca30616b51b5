-- ===== src/Client/AuthData.antt =====
-- pkg/client/operations.go: the data that an authenticator signs.
pub mod RoundTrip
mod Tests
use fido_go.Base.{
  ℕ, ◌+◌, bit_and, Bool, not, [], ltb, ◌==◌, if◌then◌else◌, length, slice, Bytes, byte_at,
  uint16_at, uint32_at, Result, err, ok,
}
use fido_go.Client.Types.{Error, auth_data_too_short, attested_data_missing, credential_id_too_long}

abbrev pub authenticator_data_minimum_length : ℕ
authenticator_data_minimum_length = 37

abbrev pub attested_credential_data_header_length : ℕ
attested_credential_data_header_length = 18

abbrev pub flag_user_present : ℕ
flag_user_present = 0x01

abbrev pub flag_user_verified : ℕ
flag_user_verified = 0x04

abbrev pub flag_attested_cred : ℕ
flag_attested_cred = 0x40

pub record ParsedAuthenticatorData : Type 0 where
  pub user_present : Bool
  pub user_verified : Bool
  pub sign_count : ℕ
  pub credential_id : Bytes

-- `flags&flag != 0`
abbrev pub is_set : ℕ → ℕ → Bool
is_set flags flag = not (bit_and flags flag == 0)

-- The header without the credential.
unfoldable pub parse_header : Bytes → ParsedAuthenticatorData
parse_header content = record {
  user_present = is_set (byte_at content 32) flag_user_present;
  user_verified = is_set (byte_at content 32) flag_user_verified;
  sign_count = uint32_at content 33;
  credential_id = [];
}

unfoldable pub parse_authenticator_data :
    {X : Type 0} → Bytes → Result (Error X) ParsedAuthenticatorData
parse_authenticator_data content =
    let credential_id_length = uint16_at content 53 in
    if ltb (length content) authenticator_data_minimum_length
    then err auth_data_too_short
    else if not (is_set (byte_at content 32) flag_attested_cred)
    then ok (parse_header content)
    else if ltb (length content)
        (authenticator_data_minimum_length + attested_credential_data_header_length)
    then err attested_data_missing
    else if ltb (length content) (55 + credential_id_length)
    then err credential_id_too_long
    else ok (record (parse_header content) {
      credential_id = slice content 55 (55 + credential_id_length);
    })
