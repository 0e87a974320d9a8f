-- ===== src/Enip/CipService.antt =====
-- CIP services: what `_handle_cip_request` answers, and what it changes.
use cursus.Prelude.{ℕ, not, ◌&&◌, Option, none, some, [], ◌==◌, if◌then◌else◌}
use cursus.Prelude.Dict.{has_key, put}
use cursus.Wire.{ok, Bytes}
use cursus.Wire.Exec.{Exec, lift, reads, ◌>>=◌}
use cursus.Enip.Objects.{EnipServer}
use cursus.Enip.Cip.{
  CipRequest, not_enough_data, bad_path, addressed, parse_cip_request, build_cip_response,
  get_attribute, get_attributes_all,
}

abbrev pub Action : Type 0 → Type 0
Action A = Exec EnipServer A

unfoldable pub set_attribute : ℕ → ℕ → ℕ → Bytes → Action ℕ
set_attribute class_code instance_number attribute value s =
    if class_code == 0x04
    then (if not (attribute == 3)
        then (ok 0x14, s)
        else if not (has_key instance_number s.assemblies)
        then (ok 0x05, s)
        else (ok 0x00, record s { assemblies = put instance_number value s.assemblies }))
    else if class_code == 0x01 && instance_number == 1
    then (ok 0x0e, s)
    else (ok 0x05, s)

-- Services on one attribute of an object; without an attribute the destination is unknown.
unfoldable pub get_single : ℕ → ℕ → ℕ → Option ℕ → Action Bytes
get_single service class_code instance_number none = lift (build_cip_response service 0x05 [])
get_single service class_code instance_number (some attribute) = do
  (reply, status) ← reads (λ s. get_attribute s class_code instance_number attribute)
  lift (build_cip_response service status reply)

unfoldable pub set_single : ℕ → ℕ → ℕ → Option ℕ → Bytes → Action Bytes
set_single service class_code instance_number none request_data =
    lift (build_cip_response service 0x05 [])
set_single service class_code instance_number (some attribute) request_data = do
  status ← set_attribute class_code instance_number attribute request_data
  lift (build_cip_response service status [])

-- The service on an object that the path names.
unfoldable pub serve_cip : ℕ → ℕ × ℕ × Option ℕ → Bytes → Action Bytes
serve_cip service (class_code, instance_number, attribute) request_data =
    if service == 0x01
    then (do
      (reply, status) ← reads (λ s. get_attributes_all s class_code instance_number)
      lift (build_cip_response service status reply))
    else if service == 0x0e
    then get_single service class_code instance_number attribute
    else if service == 0x10
    then set_single service class_code instance_number attribute request_data
    else lift (build_cip_response service 0x08 [])

unfoldable pub answer_cip : CipRequest → Action Bytes
answer_cip (not_enough_data service) = lift (build_cip_response service 0x13 [])
answer_cip (bad_path service) = lift (build_cip_response service 0x04 [])
answer_cip (addressed service path request_data) = serve_cip service path request_data

unfoldable pub handle_cip_request : Bytes → Action Bytes
handle_cip_request request = do parsed ← lift (parse_cip_request request); answer_cip parsed
