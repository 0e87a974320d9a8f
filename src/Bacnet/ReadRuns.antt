-- ===== src/Bacnet/ReadRuns.antt =====
-- The theorems on ReadProperty and Who-Is at concrete inputs.
use cursus.Prelude.{◌≡◌, refl, some, [], ◌∷◌, arith}
use cursus.Prelude.Dict.{Dict}
use cursus.Wire.Texts.{text}
use cursus.Bacnet.Encode.{
  binary_digits, bit_length, to_bytes, encode_unsigned_value, encode_tag_header,
  pack_object_identifier, encode_application_object_identifier, encode_application_bit_string,
  encode_application_character_string, encode_application_real, encode_application_enumerated,
}
use cursus.Wire.{byte, big_endian, pack_big, encode_ascii, ok, Bytes, from_big}
use cursus.Bacnet.Runs.{
  pack_pattern, patterns, emulator, IsLocal-zero, first_value, first_value_found,
}
use cursus.Bacnet.Replies.{read_property, analog_value_properties}
use cursus.Bacnet.Server.{handle_datagram}
use cursus.Bacnet.Parsing.{read_body, write_body}
use cursus.Bacnet.Datagram.{client_datagram, enveloped}
use cursus.Bacnet.Write.{write_apdu, real_value}
use cursus.Bacnet.Read.{read_apdu, read_ack, read_reply, handle_datagram-read}
use cursus.Bacnet.ReadBack.{handle_datagram-read_back}
use cursus.Bacnet.WhoIs.{who_is_apdu, who_is_reply, handle_datagram-who_is}

handle_datagram-who_is_example :
    handle_datagram patterns (client_datagram 0x00 (who_is_apdu 1 2000)) emulator
    ≡ (who_is_reply patterns 1 2000 emulator, emulator)
handle_datagram-who_is_example =
    handle_datagram-who_is patterns emulator 0x00 1 2000 IsLocal-zero (omega arith) (omega arith)

handle_datagram-read_example :
    handle_datagram patterns (client_datagram 0x00 (read_apdu 5 7 (read_body 2 1 117))) emulator
    ≡ (read_reply 7 2 1 117 (read_property patterns emulator 2 1 117), emulator)
handle_datagram-read_example =
    handle_datagram-read patterns 2 1 117 7 (omega arith) (omega arith) (omega arith) (omega arith)
      emulator 0x00 5 IsLocal-zero

abbrev first_properties : Dict Bytes
first_properties =
    (75, 196 ∷ 0 ∷ 128 ∷ 0 ∷ 1 ∷ [])
    ∷ (77, 117 ∷ 5 ∷ 0 ∷ text "AV-1")
    ∷ (79, 145 ∷ 2 ∷ [])
    ∷ (28, 117 ∷ 15 ∷ 0 ∷ text "Analog Value 1")
    ∷ (85, 68 ∷ 0 ∷ 0 ∷ 0 ∷ 0 ∷ [])
    ∷ (117, 145 ∷ 95 ∷ [])
    ∷ (111, 130 ∷ 0 ∷ 0 ∷ [])
    ∷ []

first_readable : analog_value_properties patterns first_value ≡ ok first_properties
unfolding analog_value_properties encode_application_enumerated encode_application_real
    encode_application_character_string encode_application_bit_string
    encode_application_object_identifier pack_object_identifier encode_tag_header
    encode_unsigned_value to_bytes bit_length binary_digits byte big_endian pack_big encode_ascii
    pack_pattern
first_readable = refl

packs_two :
    patterns.pack_float (patterns.unpack_float (0x40 ∷ 0 ∷ 0 ∷ 0 ∷ [])) ≡ ok (0x40 ∷ 0 ∷ 0 ∷ 0 ∷ [])
unfolding pack_pattern from_big big_endian
packs_two = refl

handle_datagram-read_back_example :
    let (_, s') =
      handle_datagram patterns
        (client_datagram 0x00
          (write_apdu 5 9 (write_body 2 1 85 (real_value (0x40 ∷ 0 ∷ 0 ∷ 0 ∷ [])) [])))
        emulator in
    (handle_datagram patterns (client_datagram 0x00 (read_apdu 5 10 (read_body 2 1 85))) s').0
    ≡ enveloped (some (read_ack 10 2 1 85 (real_value (0x40 ∷ 0 ∷ 0 ∷ 0 ∷ []))))
handle_datagram-read_back_example =
    handle_datagram-read_back patterns emulator 0x00 5 9 10 1 (0x40 ∷ 0 ∷ 0 ∷ 0 ∷ []) first_value
      first_properties IsLocal-zero first_value_found first_readable packs_two refl
      (omega arith, (omega arith, (omega arith, (omega arith, tt)))) (omega arith) (omega arith)
      (omega arith)
