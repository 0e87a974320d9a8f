-- ===== src/Enip/CipKeeps.antt =====
-- What SetAttributeSingle keeps of the server, every CIP request keeps.
use cursus.Prelude.{ℕ, Option, none, some}
use cursus.Wire.{Bytes}
use cursus.Wire.Keeps.{Keeps, keeps_rules}
use cursus.Enip.Objects.{EnipServer}
use cursus.Enip.Cip.{CipRequest, not_enough_data, bad_path, addressed}
use cursus.Enip.CipService.{
  set_attribute, get_single, set_single, serve_cip, answer_cip, handle_cip_request,
}

module _ (P : EnipServer → Type 0)
    (set_attribute-Keeps : (class_code instance_number attribute : ℕ) (value : Bytes)
      → Keeps P (set_attribute class_code instance_number attribute value)) where
  get_single-Keeps :
      (service class_code instance_number : ℕ) (attribute : Option ℕ)
      → Keeps P (get_single service class_code instance_number attribute)
  unfolding get_single
  get_single-Keeps service class_code instance_number none = search keeps_rules
  get_single-Keeps service class_code instance_number (some attribute) = search keeps_rules

  set_single-Keeps :
      (service class_code instance_number : ℕ) (attribute : Option ℕ) (value : Bytes)
      → Keeps P (set_single service class_code instance_number attribute value)
  unfolding set_single
  set_single-Keeps service class_code instance_number none value = search keeps_rules
  set_single-Keeps service class_code instance_number (some attribute) value =
      search (keeps_rules, set_attribute-Keeps)

  serve_cip-Keeps :
      (service : ℕ) (path : ℕ × ℕ × Option ℕ) (value : Bytes)
      → Keeps P (serve_cip service path value)
  unfolding serve_cip
  serve_cip-Keeps service (class_code, instance_number, attribute) value =
      search (keeps_rules, get_single-Keeps, set_single-Keeps)

  answer_cip-Keeps : (request : CipRequest) → Keeps P (answer_cip request)
  unfolding answer_cip
  answer_cip-Keeps (not_enough_data service) = search keeps_rules
  answer_cip-Keeps (bad_path service) = search keeps_rules
  answer_cip-Keeps (addressed service path value) = serve_cip-Keeps service path value

  pub handle_cip_request-Keeps : (request : Bytes) → Keeps P (handle_cip_request request)
  unfolding handle_cip_request
  handle_cip_request-Keeps request = search (keeps_rules, answer_cip-Keeps)
