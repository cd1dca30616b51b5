-- ===== src/Ctap2/Cose.antt =====
-- The COSE key of pkg/ctap2/types.go.
use fido_go.Base.{not, ◌&&◌, ◌||◌, ltb, ◌==◌, length, Result, ◌>>◌, reject_if, equal_int, pos}
use fido_go.Ctap2.Types.{
  CoseKey, cose_key_type_ec2, cose_algorithm_ecdh_es_hkdf_256, cose_curve_p256,
}
use fido_go.Ctap2.Cbor.{CoseError, key_type, algorithm, curve, missing_coordinate, long_coordinate}

-- `ValidateEC2` of a key that is not nil
unfoldable pub validate_ec2 : CoseKey → Result CoseError (Unit {0})
validate_ec2 key = do
  reject_if (not (equal_int key.key_type cose_key_type_ec2)) key_type
  reject_if
      (not (equal_int key.algorithm (pos 0))
        && not (equal_int key.algorithm cose_algorithm_ecdh_es_hkdf_256))
      algorithm
  reject_if (not (equal_int key.curve cose_curve_p256)) curve
  reject_if (length key.x == 0 || length key.y == 0) missing_coordinate
  reject_if (ltb 32 (length key.x) || ltb 32 (length key.y)) long_coordinate
