-- ===== src/Bacnet/Encode.antt =====
-- The `_encode_*` methods of `BacnetServer`.
use Prim.Native.Nat.{bit_or, max}
use cursus.Prelude.{
  ℕ, zero, suc, ◌+◌, ◌*◌, ◌/◌, ◌^◌, Bool, true, false, [], ◌∷◌, ◌++◌, ltb, leb, ◌==◌, length,
  if◌then◌else◌,
}
use cursus.Wire.{
  Result, ok, raised, overflow_error, ◌>>=◌, Bytes, Text, byte, big_endian, pack_big, encode_ascii,
}
use cursus.Bacnet.Objects.{Floats}

-- `v.bit_length()`; a number is a bound on the count of its binary digits.
unfoldable pub binary_digits : ℕ → ℕ → ℕ
binary_digits zero v = 0
binary_digits (suc fuel) v = let rest = binary_digits fuel (v / 2) in if v == 0 then 0 else suc rest

unfoldable pub bit_length : ℕ → ℕ
unfolding binary_digits
bit_length v = binary_digits v v

-- `v.to_bytes(n, byteorder="big")`
unfoldable pub to_bytes : ℕ → ℕ → Result Bytes
to_bytes n v = if ltb v (256 ^ n) then ok (big_endian n v) else raised overflow_error

unfoldable pub encode_unsigned_value : ℕ → Result Bytes
encode_unsigned_value value =
    if value == 0
    then ok (0x00 ∷ [])
    else (let byte_length = max 1 ((bit_length value + 7) / 8) in to_bytes byte_length value)

unfoldable pub encode_tag_header : ℕ → Bool → ℕ → Result Bytes
encode_tag_header tag_number is_context len =
    let class_bit : ℕ = if is_context then 0x08 else 0x00 in
    if leb len 4 then byte (bit_or (bit_or (tag_number * 2 ^ 4) class_bit) len) else (do
      first ← byte (bit_or (bit_or (tag_number * 2 ^ 4) class_bit) 5)
      extended ← byte len
      ok (first ++ extended))

-- A header for the encoded value, and the value.
abbrev tagged : ℕ → Bool → Bytes → Result Bytes
tagged tag_number is_context encoded_value = do
  header ← encode_tag_header tag_number is_context (length encoded_value)
  ok (header ++ encoded_value)

unfoldable pub encode_application_unsigned : ℕ → Result Bytes
encode_application_unsigned value = do
  encoded_value ← encode_unsigned_value value
  tagged 2 false encoded_value

unfoldable pub encode_application_enumerated : ℕ → Result Bytes
encode_application_enumerated value = do
  encoded_value ← encode_unsigned_value value
  tagged 9 false encoded_value

unfoldable pub encode_application_character_string : Text → Result Bytes
encode_application_character_string value = do
  encoded ← encode_ascii value
  tagged 7 false (0x00 ∷ encoded)

unfoldable pub encode_application_bit_string : Bytes → Result Bytes
encode_application_bit_string value = tagged 8 false (0x00 ∷ value)

-- `struct.pack(">I", (object_type << 22) | instance)`
unfoldable pub pack_object_identifier : ℕ → ℕ → Result Bytes
pack_object_identifier object_type instance_number =
    pack_big 4 (bit_or (object_type * 2 ^ 22) instance_number)

unfoldable pub encode_application_object_identifier : ℕ → ℕ → Result Bytes
encode_application_object_identifier object_type instance_number = do
  encoded_value ← pack_object_identifier object_type instance_number
  tagged 12 false encoded_value

unfoldable pub encode_context_unsigned : ℕ → ℕ → Result Bytes
encode_context_unsigned tag_number value = do
  encoded_value ← encode_unsigned_value value
  tagged tag_number true encoded_value

unfoldable pub encode_context_object_identifier : ℕ → ℕ → ℕ → Result Bytes
encode_context_object_identifier tag_number object_type instance_number = do
  encoded_value ← pack_object_identifier object_type instance_number
  tagged tag_number true encoded_value

unfoldable pub encode_opening_tag : ℕ → Result Bytes
encode_opening_tag tag_number = byte (bit_or (tag_number * 2 ^ 4) 0x0e)

unfoldable pub encode_closing_tag : ℕ → Result Bytes
encode_closing_tag tag_number = byte (bit_or (tag_number * 2 ^ 4) 0x0f)

module _ (fl : Floats) where
  open fl use {Float, pack_float}

  unfoldable pub encode_application_real : Float → Result Bytes
  encode_application_real value = do
    header ← encode_tag_header 4 false 4
    encoded ← pack_float value
    ok (header ++ encoded)
