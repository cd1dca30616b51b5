-- ===== src/Ctap2/Types.antt =====
-- pkg/ctap2/types.go: the structures that the commands share. A Go string is its bytes.
use fido_go.Base.{ℕ, Bool, List, Bytes, ℤ, pos, negsuc}

-- COSEKey
pub record CoseKey : Type 0 where
  pub key_type : ℤ
  pub algorithm : ℤ
  pub curve : ℤ
  pub x : Bytes
  pub y : Bytes

abbrev pub cose_key_type_ec2 : ℤ
cose_key_type_ec2 = pos 2

-- -25
abbrev pub cose_algorithm_ecdh_es_hkdf_256 : ℤ
cose_algorithm_ecdh_es_hkdf_256 = negsuc 24

abbrev pub cose_curve_p256 : ℤ
cose_curve_p256 = pos 1

pub record RelyingPartyEntity : Type 0 where
  pub id : Bytes
  pub name : Bytes

pub record UserEntity : Type 0 where
  pub id : Bytes
  pub name : Bytes
  pub display_name : Bytes

pub record CredentialParameter : Type 0 where
  pub type : Bytes
  pub alg : ℤ

pub record CredentialDescriptor : Type 0 where
  pub type : Bytes
  pub id : Bytes
  pub transports : List Bytes

pub record MakeCredentialOptions : Type 0 where
  pub resident_key : Bool
  pub user_presence : Bool
  pub user_verification : Bool

pub record GetAssertionOptions : Type 0 where
  pub user_presence : Bool
  pub user_verification : Bool

abbrev pub permission_make_credential : ℕ
permission_make_credential = 0x01

abbrev pub permission_get_assertion : ℕ
permission_get_assertion = 0x02

abbrev pub permission_credential_management : ℕ
permission_credential_management = 0x04
