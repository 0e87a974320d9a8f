-- ===== src/Bacnet/Decode.antt =====
-- The `_decode_*` and `_is_context_tag` methods of `BacnetServer`. Each takes the payload and an
-- offset; a decoder that finds no value returns `none` and the offset it was given.
use Prim.Native.Nat.{bit_and}
use cursus.Prelude.{
  ℕ, ◌+◌, ◌/◌, ◌^◌, Bool, false, not, ◌&&◌, ◌||◌, Option, none, some, ltb, leb, ◌==◌, length,
  if◌then◌else◌,
}
use cursus.Wire.{Result, ok, ◌>>=◌, Bytes, index, slice, from_big}
use cursus.Bacnet.Objects.{Floats}
use cursus.Bacnet.Encode.{encode_tag_header}

unfoldable pub is_context_tag : ℕ → ℕ → Bool
is_context_tag tag_byte tag_number = tag_byte / 2 ^ 4 == tag_number && bit_and tag_byte 0x08 == 0x08

-- The length of the value and the size of the header before it.
unfoldable pub decode_tag_length : Bytes → ℕ → Result (ℕ × ℕ)
decode_tag_length payload offset = do
  tag_byte ← index payload offset
  let len = bit_and tag_byte 0x07
  if not (len == 5)
      then ok (len, 1)
      else (do extended ← index payload (offset + 1); ok (extended, 2))

-- What both unsigned decoders do behind their test of the tag.
abbrev pub decode_value : Bytes → ℕ → Result (Option ℕ × ℕ)
decode_value payload offset = do
  (len, header_size) ← decode_tag_length payload offset
  let value_offset = offset + header_size
  let value_end = value_offset + len
  if ltb (length payload) value_end
      then ok (none, offset)
      else ok (some (from_big (slice payload value_offset value_end)), value_end)

unfoldable pub decode_application_unsigned : Bytes → ℕ → Result (Option ℕ × ℕ)
decode_application_unsigned payload offset =
    if leb (length payload) offset then ok (none, offset) else (do
      tag_byte ← index payload offset
      if not (tag_byte / 2 ^ 4 == 2) || not (bit_and tag_byte 0x08 == 0)
          then ok (none, offset)
          else decode_value payload offset)

unfoldable pub decode_context_unsigned : Bytes → ℕ → ℕ → Result (Option ℕ × ℕ)
decode_context_unsigned payload offset tag_number =
    if leb (length payload) offset then ok (none, offset) else (do
      tag_byte ← index payload offset
      if not (is_context_tag tag_byte tag_number)
          then ok (none, offset)
          else decode_value payload offset)

unfoldable pub decode_context_object_identifier : Bytes → ℕ → ℕ → Result (Option (ℕ × ℕ) × ℕ)
decode_context_object_identifier payload offset tag_number =
    if leb (length payload) offset then ok (none, offset) else (do
      tag_byte ← index payload offset
      if not (is_context_tag tag_byte tag_number) then ok (none, offset) else (do
        (len, header_size) ← decode_tag_length payload offset
        if not (len == 4)
            then ok (none, offset)
            else (let value_offset = offset + header_size in
                let value_end = value_offset + len in
                if ltb (length payload) value_end
                then ok (none, offset)
                else (let raw_value = from_big (slice payload value_offset value_end) in
                    ok (some (raw_value / 2 ^ 22, bit_and raw_value 0x3fffff), value_end)))))

module _ (fl : Floats) where
  open fl use {Float, unpack_float}

  unfoldable pub decode_application_real : Bytes → Result (Option Float)
  decode_application_real payload = if not (length payload == 5) then ok none else (do
    tag_byte ← index payload 0
    header ← encode_tag_header 4 false 4
    expected ← index header 0
    if not (tag_byte == expected) then ok none else ok (some (unpack_float (slice payload 1 5))))
