-- ===== src/Enip/Cip.antt =====
-- CIP requests: the services on the identity and on the assemblies.
use Prim.Native.Nat.{bit_or}
use cursus.Prelude.{
  ℕ, ◌+◌, ◌*◌, not, ◌&&◌, Option, none, some, [], ◌∷◌, ◌++◌, ltb, ◌==◌, length, drop, if◌then◌else◌,
}
use cursus.Prelude.Dict.{lookup}
use cursus.Wire.{Result, ◌>>=◌, ok, raised, key_error, value_error, Bytes, byte, index, slice}
use cursus.Enip.Objects.{EnipServer}
use cursus.Enip.Identity.{pack_identity_attribute, join_attributes}
use cursus.Enip.Path.{parse_cip_path}

-- `except KeyError`
unfoldable pub identity_attribute_or_status : Result Bytes → Result (Bytes × ℕ)
identity_attribute_or_status (ok value) = ok (value, 0x00)
identity_attribute_or_status (raised key_error) = ok ([], 0x14)
identity_attribute_or_status (raised e) = raised e

unfoldable pub get_attribute : EnipServer → ℕ → ℕ → ℕ → Result (Bytes × ℕ)
get_attribute s class_code instance_number attribute =
    if class_code == 0x01 && instance_number == 1
    then identity_attribute_or_status (pack_identity_attribute s.config.identity attribute)
    else if class_code == 0x04
    then (if not (attribute == 3)
        then ok ([], 0x14)
        else (elim (lookup instance_number s.assemblies) [
          | none ↦ ok ([], 0x05)
          | some value ↦ ok (value, 0x00)
        ]))
    else ok ([], 0x05)

unfoldable pub joined_or_raised : Result Bytes → Result (Bytes × ℕ)
joined_or_raised (ok value) = ok (value, 0x00)
joined_or_raised (raised e) = raised e

unfoldable pub get_attributes_all : EnipServer → ℕ → ℕ → Result (Bytes × ℕ)
get_attributes_all s class_code instance_number =
    if class_code == 0x01 && instance_number == 1
    then joined_or_raised (join_attributes s.config.identity (1 ∷ 2 ∷ 3 ∷ 4 ∷ 5 ∷ 6 ∷ 7 ∷ []))
    else if class_code == 0x04
    then get_attribute s class_code instance_number 3
    else ok ([], 0x05)

-- `bytes([service | 0x80, 0x00, status, 0x00]) + data`
unfoldable pub build_cip_response : ℕ → ℕ → Bytes → Result Bytes
build_cip_response service status reply = do
  first ← byte (bit_or service 0x80)
  third ← byte status
  ok (first ++ 0x00 ∷ (third ++ 0x00 ∷ reply))

-- The classification of a request before its service is looked at: not enough data, a path that
-- does not parse, or the service, the path and the data behind it.
pub data CipRequest : Type 0 where
  not_enough_data : ℕ → CipRequest
  bad_path : ℕ → CipRequest
  addressed : ℕ → ℕ × ℕ × Option ℕ → Bytes → CipRequest

-- `except ValueError`
unfoldable pub path_or_error : ℕ → Bytes → Result (ℕ × ℕ × Option ℕ) → Result CipRequest
path_or_error service request_data (ok path) = ok (addressed service path request_data)
path_or_error service request_data (raised value_error) = ok (bad_path service)
path_or_error service request_data (raised e) = raised e

unfoldable pub parse_cip_request : Bytes → Result CipRequest
parse_cip_request request = if ltb (length request) 2 then ok (not_enough_data 0) else (do
  service ← index request 0
  path_words ← index request 1
  let path_length = path_words * 2
  if ltb (length request) (2 + path_length)
      then ok (not_enough_data service)
      else path_or_error service (drop (2 + path_length) request)
          (parse_cip_path (slice request 2 (2 + path_length))))
