-- ===== src/Bacnet/Runs.antt =====
-- Runs of the BACnet emulator at concrete datagrams, and its theorems at concrete inputs.
use cursus.Bacnet.Requests.{
  enclosed_value, skip_array_index, parse_write_property_request, parse_property_reference,
  parse_who_is_limits,
}
use cursus.Bacnet.Replies.{
  analog_value_properties, read_analog_value_property, device_properties, read_device_property,
  read_property_ack, read_property, handle_read_property, build_i_am_apdu, within_limits,
  handle_unconfirmed_request, build_bvlc, frame_npdu,
}
use cursus.Bacnet.Envelope.{framed_apdu, skip_source, skip_destination, locate_apdu, accepts_bvlc}
use cursus.Prelude.{
  ◌+◌, refl, ◌++◌, some, ℕ, ◌^◌, ◌≡◌, subst, Option, none, [], ◌∷◌, arith, ltb, if◌then◌else◌,
  length, All,
}
use cursus.Wire.{
  index_error, starts_with, find_from, find, encode_ascii, pack_big, byte, index, Result, ok,
  raised, overflow_error, Error, Bytes, IsByte, big_endian, from_big,
}
use cursus.Wire.Ints.{length-big_endian, big_endian-IsByte}
use cursus.Wire.Texts.{text}
use cursus.Bacnet.Objects.{Floats, BacnetServer, init}
use cursus.Prelude.Dict.{lookup}
use cursus.Bacnet.Objects.{BacnetAnalogValue}
use cursus.Bacnet.Server.{
  write_property, handle_write_property, handle_confirmed_request, handle_apdu, handle_npdu,
  store_present_value, handle_datagram,
}
use cursus.Bacnet.Encode.{
  binary_digits, bit_length, to_bytes, encode_unsigned_value, encode_tag_header, encode_closing_tag,
  encode_opening_tag, pack_object_identifier, encode_application_object_identifier,
  encode_application_bit_string, encode_application_character_string, encode_application_real,
  encode_application_enumerated, encode_application_unsigned, encode_context_unsigned,
  encode_context_object_identifier,
}
use cursus.Bacnet.Decode.{
  is_context_tag, decode_tag_length, decode_application_unsigned, decode_application_real,
  decode_context_unsigned, decode_context_object_identifier,
}
use cursus.Bacnet.RoundTrip.{
  decode_application_unsigned-encode, decode_context_unsigned-encode,
  decode_context_object_identifier-encode,
}
use cursus.Bacnet.Parsing.{write_body}
use cursus.Bacnet.Datagram.{IsLocal, client_datagram}
use cursus.Bacnet.Write.{
  write_apdu, write_ack, real_value, handle_datagram-write, handle_datagram-write_closed,
}

-- Floats that are their own bit patterns.
unfoldable pub pack_pattern : ℕ → Result Bytes
pack_pattern v = if ltb v (2 ^ 32) then ok (big_endian 4 v) else raised overflow_error

pub pack_pattern_width : (v : ℕ) (bs : Bytes) → pack_pattern v ≡ ok bs → length bs ≡ 4
unfolding pack_pattern
pack_pattern_width v bs h = ground (arith, length-big_endian 4 v)

pub pack_pattern_bytes : (v : ℕ) (bs : Bytes) → pack_pattern v ≡ ok bs → All IsByte bs
unfolding pack_pattern
pack_pattern_bytes v bs h = subst (All IsByte) bytes (big_endian-IsByte 4 v)
  where
    bytes : big_endian 4 v ≡ bs
    bytes = ground arith

pub pack_pattern_error : (v : ℕ) (e : Error) → pack_pattern v ≡ raised e → e ≡ overflow_error
unfolding pack_pattern
pack_pattern_error v e h = ground arith

abbrev pub patterns : Floats
patterns = record {
  Float = ℕ;
  zero_float = 0;
  pack_float = pack_pattern;
  unpack_float = from_big;
  pack_float_width = pack_pattern_width;
  pack_float_bytes = pack_pattern_bytes;
  pack_float_error = pack_pattern_error;
}

abbrev pub emulator : BacnetServer ℕ
emulator = init patterns (text "127.0.0.1") 47808 none

pub IsLocal-zero : IsLocal 0x00
IsLocal-zero = record { no_destination = refl; no_source = refl; no_message = refl }

-- The answer of the default server, unfolded all the way down.
answer : Bytes → Result (Option Bytes)
unfolding init lookup client_datagram handle_datagram handle_npdu handle_apdu
    handle_confirmed_request handle_write_property write_property store_present_value accepts_bvlc
    locate_apdu skip_destination skip_source framed_apdu frame_npdu build_bvlc
    handle_unconfirmed_request within_limits build_i_am_apdu handle_read_property read_property
    read_property_ack read_device_property device_properties read_analog_value_property
    analog_value_properties parse_who_is_limits parse_property_reference
    parse_write_property_request skip_array_index enclosed_value decode_application_real
    decode_application_unsigned decode_context_unsigned decode_context_object_identifier
    decode_tag_length is_context_tag encode_application_unsigned encode_application_enumerated
    encode_application_real encode_application_character_string encode_application_bit_string
    encode_application_object_identifier pack_object_identifier encode_context_unsigned
    encode_context_object_identifier encode_opening_tag encode_closing_tag encode_tag_header
    encode_unsigned_value to_bytes bit_length binary_digits index byte big_endian from_big pack_big
    encode_ascii find find_from starts_with pack_pattern
answer payload = (handle_datagram patterns payload emulator).0

-- The default server answers the readiness probe with its I-Am.
who_is_run :
    answer (0x81 ∷ 0x0a ∷ 0x00 ∷ 0x08 ∷ 0x01 ∷ 0x00 ∷ 0x10 ∷ 0x08 ∷ [])
    ≡ ok (
        some (
          0x81 ∷ 0x0a ∷ 0 ∷ 21 ∷ 1 ∷ 0 ∷ 0x10 ∷ 0 ∷ 0xc4 ∷ 2 ∷ 0 ∷ 4 ∷ 210 ∷ 0x22 ∷ 5 ∷ 196 ∷ 0x91
          ∷ 3 ∷ 0x22 ∷ 3 ∷ 231 ∷ []))
unfolding answer
who_is_run = refl

-- A ReadProperty of the first analog value's units.
read_run :
    answer (
      0x81 ∷ 0x0a ∷ 0x00 ∷ 17 ∷ 0x01 ∷ 0x00 ∷ 0x00 ∷ 0x05 ∷ 7 ∷ 0x0c ∷ 0x0c ∷ 0 ∷ 0x80 ∷ 0 ∷ 1
      ∷ 0x19 ∷ 117 ∷ [])
    ≡ ok (
        some (
          0x81 ∷ 0x0a ∷ 0 ∷ 20 ∷ 1 ∷ 0 ∷ 0x30 ∷ 7 ∷ 0x0c ∷ 0x0c ∷ 0 ∷ 0x80 ∷ 0 ∷ 1 ∷ 0x19 ∷ 117
          ∷ 0x3e ∷ 0x91 ∷ 95 ∷ 0x3f ∷ []))
unfolding answer
read_run = refl

-- A Who-Is that ends inside a tag header raises.
truncated_tag_run :
    answer (0x81 ∷ 0x0a ∷ 0x00 ∷ 0x09 ∷ 0x01 ∷ 0x00 ∷ 0x10 ∷ 0x08 ∷ 0x25 ∷ []) ≡ raised index_error
unfolding answer
truncated_tag_run = refl

decode_context_unsigned-encode_example :
    (encoded : Bytes) × (encode_context_unsigned 1 85 ≡ ok encoded)
    × (decode_context_unsigned ((7 ∷ []) ++ (encoded ++ [])) 1 1 ≡ ok (some 85, 1 + length encoded))
decode_context_unsigned-encode_example =
    decode_context_unsigned-encode (7 ∷ []) [] 1 85 (omega arith) (omega arith)

decode_context_object_identifier-encode_example :
    (encoded : Bytes) × (encode_context_object_identifier 0 2 1 ≡ ok encoded)
    × (decode_context_object_identifier ([] ++ (encoded ++ [])) 0 0
        ≡ ok (some (2, 1), 0 + length encoded))
decode_context_object_identifier-encode_example =
    decode_context_object_identifier-encode [] [] 0 2 1 (omega arith) (omega arith) (omega arith)

abbrev pub first_value : BacnetAnalogValue ℕ
first_value = record {
  instance_number = 1;
  object_name = text "AV-1";
  description = text "Analog Value 1";
  present_value = 0;
  units = 95;
}

pub first_value_found : lookup 1 emulator.analog_values ≡ some first_value
unfolding init lookup
first_value_found = refl

-- A write of 2.0, whose bytes are 40 00 00 00.
handle_datagram-write_example :
    handle_datagram patterns
      (client_datagram 0x00
        (write_apdu 5 9 (write_body 2 1 85 (real_value (0x40 ∷ 0 ∷ 0 ∷ 0 ∷ [])) [])))
      emulator
    ≡ (
      ok (some (write_ack 9)),
      store_present_value patterns 1 (from_big (0x40 ∷ 0 ∷ 0 ∷ 0 ∷ [])) emulator,
    )
handle_datagram-write_example =
    handle_datagram-write patterns emulator 0x00 5 9 1 (0x40 ∷ 0 ∷ 0 ∷ 0 ∷ []) first_value
      IsLocal-zero first_value_found refl (omega arith) (omega arith) (omega arith)

-- A write of 1.0, whose bytes are 3f 80 00 00.
handle_datagram-write_closed_example :
    handle_datagram patterns
      (client_datagram 0x00
        (write_apdu 5 9 (write_body 2 1 85 (real_value (0x3f ∷ 0x80 ∷ 0 ∷ 0 ∷ [])) [])))
      emulator
    ≡ (ok none, emulator)
handle_datagram-write_closed_example =
    handle_datagram-write_closed patterns emulator 0x00 5 9 1 [] (0x80 ∷ 0 ∷ 0 ∷ []) IsLocal-zero
      refl tt (omega arith)

decode_application_unsigned-encode_example :
    (encoded : Bytes) × (encode_application_unsigned 1234 ≡ ok encoded)
    × (decode_application_unsigned ((7 ∷ []) ++ (encoded ++ [])) 1
        ≡ ok (some 1234, 1 + length encoded))
decode_application_unsigned-encode_example =
    decode_application_unsigned-encode (7 ∷ []) [] 1234 (omega arith)
