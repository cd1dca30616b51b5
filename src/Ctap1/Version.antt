-- ===== src/Ctap1/Version.antt =====
-- pkg/ctap1/version.go: U2F_VERSION. A response target is a value that decoding returns anew; that
-- the caller passes a target of the right type is Go's dynamic check and not modelled.
use fido_go.Base.{ℕ, [], Bytes, Result, ok, err}
use fido_go.Ctap1.Apdu.{encode_raw, decode_response}
use fido_go.Ctap1.Errors.{Error}

abbrev pub command_version : ℕ
command_version = 0x03

pub record VersionResponse : Type 0 where
  pub version : Bytes

unfoldable pub encode : Result Error Bytes
encode = encode_raw command_version []

unfoldable pub decode : Bytes → VersionResponse → VersionResponse × Result Error (Unit {0})
decode response target = elim (decode_response response) [
  | err e ↦ (target, err e)
  | ok payload ↦ (record { version = payload }, ok tt)
]
