-- ===== src/Bacnet/Replies.antt =====
-- The methods of `BacnetServer` that only read: Who-Is, ReadProperty and the frames of replies.
use cursus.Prelude.{
  ℕ, ◌+◌, Bool, false, not, ◌&&◌, Option, none, some, [], ◌∷◌, ◌++◌, ltb, ◌==◌, length, drop,
  if◌then◌else◌,
}
use cursus.Prelude.Dict.{Dict, lookup}
use cursus.Wire.{Result, ok, ◌>>=◌, Bytes, byte, index, pack_big}
use cursus.Bacnet.Objects.{Floats, BacnetDevice, BacnetAnalogValue, BacnetServer}
use cursus.Bacnet.Encode.{
  encode_application_unsigned, encode_application_enumerated, encode_application_character_string,
  encode_application_bit_string, encode_application_object_identifier, encode_application_real,
  encode_context_unsigned, encode_context_object_identifier, encode_opening_tag, encode_closing_tag,
}
use cursus.Bacnet.Requests.{parse_who_is_limits, parse_property_reference}

-- The dictionary that `_read_device_property` builds: every value is encoded before one is chosen.
unfoldable pub device_properties : BacnetDevice → Result (Dict Bytes)
device_properties device = do
  object_identifier ← encode_application_object_identifier 8 device.instance_number
  object_name ← encode_application_character_string device.object_name
  object_type ← encode_application_enumerated 8
  description ← encode_application_character_string device.description
  vendor_name ← encode_application_character_string device.vendor_name
  vendor_identifier ← encode_application_unsigned device.vendor_identifier
  model_name ← encode_application_character_string device.model_name
  max_apdu ← encode_application_unsigned device.max_apdu_length_accepted
  segmentation ← encode_application_enumerated device.segmentation_supported
  protocol_version ← encode_application_unsigned device.protocol_version
  protocol_revision ← encode_application_unsigned device.protocol_revision
  object_list ← encode_application_object_identifier 8 device.instance_number
  ok (
      (75, object_identifier)
      ∷ (77, object_name)
      ∷ (79, object_type)
      ∷ (28, description)
      ∷ (121, vendor_name)
      ∷ (120, vendor_identifier)
      ∷ (70, model_name)
      ∷ (62, max_apdu)
      ∷ (107, segmentation)
      ∷ (98, protocol_version)
      ∷ (99, protocol_revision)
      ∷ (76, object_list)
      ∷ [])

unfoldable pub read_device_property : BacnetDevice → ℕ → Result (Option Bytes)
read_device_property device property = do
  properties ← device_properties device
  ok (lookup property properties)

unfoldable pub build_i_am_apdu : BacnetDevice → Result Bytes
build_i_am_apdu device = do
  object_identifier ← encode_application_object_identifier 8 device.instance_number
  max_apdu ← encode_application_unsigned device.max_apdu_length_accepted
  segmentation ← encode_application_enumerated device.segmentation_supported
  vendor_identifier ← encode_application_unsigned device.vendor_identifier
  ok (
      (0x10 ∷ 0x00 ∷ [])
      ++ (object_identifier ++ (max_apdu ++ (segmentation ++ vendor_identifier))))

-- `bytes([0x81, function]) + struct.pack(">H", 4 + len(npdu)) + npdu`
unfoldable pub build_bvlc : ℕ → Bytes → Result Bytes
build_bvlc function npdu = do
  kind ← byte function
  total_length ← pack_big 2 (4 + length npdu)
  ok ((0x81 ∷ kind) ++ (total_length ++ npdu))

-- The end of `handle_datagram`: a response goes out in a unicast frame.
unfoldable pub frame_npdu : Option Bytes → Result (Option Bytes)
frame_npdu none = ok none
frame_npdu (some npdu) = do datagram ← build_bvlc 0x0a npdu; ok (some datagram)

-- Whether the device's instance lies within the limits that a Who-Is gives.
unfoldable pub within_limits : Option ℕ → Option ℕ → ℕ → Bool
within_limits lower_limit upper_limit device_instance =
    not (elim lower_limit [ none ↦ false | some lower ↦ ltb device_instance lower ])
    && not (elim upper_limit [ none ↦ false | some upper ↦ ltb upper device_instance ])

unfoldable pub handle_unconfirmed_request : BacnetDevice → Bytes → Result (Option Bytes)
handle_unconfirmed_request device apdu = do
  service_choice ← index apdu 1
  if not (service_choice == 0x08) then ok none else (do
    (lower_limit, upper_limit) ← parse_who_is_limits (drop 2 apdu)
    if not (within_limits lower_limit upper_limit device.instance_number)
        then ok none
        else (do reply ← build_i_am_apdu device; ok (some reply)))

module _ (fl : Floats) where
  open fl use {Float}

  unfoldable pub analog_value_properties : BacnetAnalogValue Float → Result (Dict Bytes)
  analog_value_properties value = do
    object_identifier ← encode_application_object_identifier 2 value.instance_number
    object_name ← encode_application_character_string value.object_name
    object_type ← encode_application_enumerated 2
    description ← encode_application_character_string value.description
    present_value ← encode_application_real fl value.present_value
    units ← encode_application_enumerated value.units
    status_flags ← encode_application_bit_string (0x00 ∷ [])
    ok (
        (75, object_identifier)
        ∷ (77, object_name)
        ∷ (79, object_type)
        ∷ (28, description)
        ∷ (85, present_value)
        ∷ (117, units)
        ∷ (111, status_flags)
        ∷ [])

  unfoldable pub read_analog_value_property : BacnetServer Float → ℕ → ℕ → Result (Option Bytes)
  read_analog_value_property s instance_number property =
      elim (lookup instance_number s.analog_values) [
        | none ↦ ok none
        | some value ↦ (do
          properties ← analog_value_properties value
          ok (lookup property properties))
      ]

  unfoldable pub read_property : BacnetServer Float → ℕ → ℕ → ℕ → Result (Option Bytes)
  read_property s object_type instance_number property =
      if object_type == 8 && instance_number == s.config.device.instance_number
      then read_device_property s.config.device property
      else if object_type == 2
      then read_analog_value_property s instance_number property
      else ok none

  -- The ComplexACK around a value that was read.
  unfoldable pub read_property_ack : ℕ → ℕ → ℕ → ℕ → Bytes → Result Bytes
  read_property_ack invoke_id object_type instance_number property property_value = do
    object_identifier ← encode_context_object_identifier 0 object_type instance_number
    property_identifier ← encode_context_unsigned 1 property
    opening_tag ← encode_opening_tag 3
    closing_tag ← encode_closing_tag 3
    invoke ← byte invoke_id
    ok (
        (0x30 ∷ (invoke ++ 0x0c ∷ []))
        ++ (object_identifier
            ++ (property_identifier ++ (opening_tag ++ (property_value ++ closing_tag)))))

  unfoldable pub handle_read_property : BacnetServer Float → ℕ → Bytes → Result (Option Bytes)
  handle_read_property s invoke_id payload = do
    parsed ← parse_property_reference payload
    elim parsed [
      | none ↦ ok none
      | some (object_type, instance_number, property) ↦ (do
        value ← read_property s object_type instance_number property
        elim value [
          | none ↦ ok none
          | some property_value ↦ (do
            ack ← read_property_ack invoke_id object_type instance_number property property_value
            ok (some ack))
        ])
    ]
