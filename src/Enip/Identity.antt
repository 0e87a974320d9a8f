-- ===== src/Enip/Identity.antt =====
-- What `EnipServer` reports of itself: ListServices, ListIdentity and the identity's attributes.
use cursus.Prelude.{ℕ, not, none, some, [], ◌∷◌, ◌++◌, List, length, replicate, if◌then◌else◌}
use cursus.Prelude.Dict.{Dict, lookup}
use cursus.Wire.{
  Result, ok, raised, key_error, ◌>>=◌, Bytes, Text, pack_big, pack_little, encode_ascii,
}
use cursus.Enip.Objects.{EnipIdentity, EnipServer, Sockets, pack_string}
use cursus.Wire.Texts.{text_eq}

-- `struct.pack` of several fields, each with its width, with `<`.
unfoldable pub pack_fields : List (ℕ × ℕ) → Result Bytes
pack_fields [] = ok []
pack_fields ((width, v) ∷ fields) = do
  first ← pack_little width v
  rest ← pack_fields fields
  ok (first ++ rest)

-- b"Communications"
abbrev communications : Bytes
communications =
    b'C' ∷ b'o' ∷ b'm' ∷ b'm' ∷ b'u' ∷ b'n' ∷ b'i' ∷ b'c' ∷ b'a' ∷ b't' ∷ b'i' ∷ b'o' ∷ b'n' ∷ b's'
    ∷ []

unfoldable pub build_list_services_payload : Result Bytes
build_list_services_payload = do
  head ← pack_fields ((2, 0x0100) ∷ (2, 20) ∷ (2, 1) ∷ (2, 0x0020) ∷ [])
  count ← pack_fields ((2, 1) ∷ [])
  ok (count ++ (head ++ pack_string 16 communications))

-- "0.0.0.0" and "127.0.0.1"
abbrev bind_all_interfaces : Text
bind_all_interfaces = b'0' ∷ b'.' ∷ b'0' ∷ b'.' ∷ b'0' ∷ b'.' ∷ b'0' ∷ []

abbrev loopback_address : Text
loopback_address = b'1' ∷ b'2' ∷ b'7' ∷ b'.' ∷ b'0' ∷ b'.' ∷ b'0' ∷ b'.' ∷ b'1' ∷ []

module _ (net : Sockets) where
  open net use {inet_aton}

  unfoldable pub build_list_identity_payload : EnipServer → Result Bytes
  build_list_identity_payload s = do
    let identity = s.config.identity
    product_name ← encode_ascii identity.product_name
    let address = if not (text_eq s.ip bind_all_interfaces) then s.ip else loopback_address
    host ← inet_aton address
    family ← pack_big 2 2
    port ← pack_big 2 s.port
    let socket_address = family ++ (port ++ (pack_string 4 host ++ replicate 8 0))
    version ← pack_fields ((2, 1) ∷ [])
    numbers ← pack_fields (
        (2, identity.vendor_id)
        ∷ (2, identity.device_type)
        ∷ (2, identity.product_code)
        ∷ (1, identity.revision_major)
        ∷ (1, identity.revision_minor)
        ∷ (2, identity.status)
        ∷ (4, identity.serial_number)
        ∷ [])
    name_length ← pack_fields ((1, length product_name) ∷ [])
    device_state ← pack_fields ((1, identity.device_state) ∷ [])
    let item_data =
        version ++ (socket_address ++ (numbers ++ (name_length ++ (product_name ++ device_state))))
    item_header ← pack_fields ((2, 0x000c) ∷ (2, length item_data) ∷ [])
    count ← pack_fields ((2, 1) ∷ [])
    ok (count ++ (item_header ++ item_data))

-- The dictionary that `_pack_identity_attribute` builds: every value is packed before one is chosen.
unfoldable pub identity_attributes : EnipIdentity → Result (Dict Bytes)
identity_attributes identity = do
  product_name ← encode_ascii identity.product_name
  vendor_id ← pack_fields ((2, identity.vendor_id) ∷ [])
  device_type ← pack_fields ((2, identity.device_type) ∷ [])
  product_code ← pack_fields ((2, identity.product_code) ∷ [])
  revision ← pack_fields ((1, identity.revision_major) ∷ (1, identity.revision_minor) ∷ [])
  status ← pack_fields ((2, identity.status) ∷ [])
  serial_number ← pack_fields ((4, identity.serial_number) ∷ [])
  name_length ← pack_fields ((1, length product_name) ∷ [])
  device_state ← pack_fields ((1, identity.device_state) ∷ [])
  ok (
      (1, vendor_id)
      ∷ (2, device_type)
      ∷ (3, product_code)
      ∷ (4, revision)
      ∷ (5, status)
      ∷ (6, serial_number)
      ∷ (7, name_length ++ product_name)
      ∷ (8, device_state)
      ∷ [])

unfoldable pub pack_identity_attribute : EnipIdentity → ℕ → Result Bytes
pack_identity_attribute identity attribute = do
  attributes ← identity_attributes identity
  elim (lookup attribute attributes) [ none ↦ raised key_error | some value ↦ ok value ]

-- `b"".join(… for attribute in attributes)`
unfoldable pub join_attributes : EnipIdentity → List ℕ → Result Bytes
join_attributes identity [] = ok []
join_attributes identity (attribute ∷ attributes) = do
  first ← pack_identity_attribute identity attribute
  rest ← join_attributes identity attributes
  ok (first ++ rest)
