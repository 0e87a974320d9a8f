-- ===== src/Bacnet/Requests.antt =====
-- The `_parse_*` methods of `BacnetServer`: the bodies of Who-Is, ReadProperty and WriteProperty.
use cursus.Prelude.{ℕ, ◌+◌, not, Option, none, some, ltb, leb, ◌==◌, length, if◌then◌else◌}
use cursus.Wire.{Result, ok, ◌>>=◌, Bytes, index, slice, find}
use cursus.Bacnet.Encode.{encode_opening_tag, encode_closing_tag}
use cursus.Bacnet.Decode.{
  is_context_tag, decode_application_unsigned, decode_context_unsigned,
  decode_context_object_identifier,
}

unfoldable pub parse_who_is_limits : Bytes → Result (Option ℕ × Option ℕ)
parse_who_is_limits payload = if length payload == 0 then ok (none, none) else (do
  (lower_limit, offset) ← decode_application_unsigned payload 0
  elim lower_limit [
    | none ↦ ok (none, none)
    | some lower ↦ (do
      (upper_limit, _) ← decode_application_unsigned payload offset
      ok (some lower, upper_limit))
  ])

-- The offset behind an optional array index.
unfoldable pub skip_array_index : Bytes → ℕ → Result ℕ
skip_array_index payload offset = if not (ltb offset (length payload)) then ok offset else (do
  tag_byte ← index payload offset
  if not (is_context_tag tag_byte 2)
      then ok offset
      else (do (_, after) ← decode_context_unsigned payload offset 2; ok after))

-- The object type, the instance and the property.
unfoldable pub parse_property_reference : Bytes → Result (Option (ℕ × ℕ × ℕ))
parse_property_reference payload = do
  (object_identifier, offset) ← decode_context_object_identifier payload 0 0
  elim object_identifier [
    | none ↦ ok none
    | some (object_type, instance_number) ↦ (do
      (property_identifier, offset') ← decode_context_unsigned payload offset 1
      elim property_identifier [
        | none ↦ ok none
        | some property ↦ (do
          last ← skip_array_index payload offset'
          if not (last == length payload)
              then ok none
              else ok (some (object_type, instance_number, property)))
      ])
  ]

-- What stands between the opening tag at the offset and the first closing tag behind it.
unfoldable pub enclosed_value : Bytes → ℕ → Result (Option Bytes)
enclosed_value payload offset = if leb (length payload) offset then ok none else (do
  tag_byte ← index payload offset
  opening_tag ← encode_opening_tag 3
  expected ← index opening_tag 0
  if not (tag_byte == expected) then ok none else (do
    closing_tag ← encode_closing_tag 3
    elim (find payload closing_tag (offset + 1)) [
      | none ↦ ok none
      | some property_value_end ↦ ok (some (slice payload (offset + 1) property_value_end))
    ]))

unfoldable pub parse_write_property_request : Bytes → Result (Option (ℕ × ℕ × ℕ × Bytes))
parse_write_property_request payload = do
  (object_identifier, offset) ← decode_context_object_identifier payload 0 0
  elim object_identifier [
    | none ↦ ok none
    | some (object_type, instance_number) ↦ (do
      (property_identifier, offset') ← decode_context_unsigned payload offset 1
      elim property_identifier [
        | none ↦ ok none
        | some property ↦ (do
          start ← skip_array_index payload offset'
          value ← enclosed_value payload start
          elim value [
            | none ↦ ok none
            | some property_value ↦
                ok (some (object_type, instance_number, property, property_value))
          ])
      ])
  ]
