-- ===== src/Bacnet/ReadBack.antt =====
-- A present value that was written is read back.
use cursus.Prelude.{==_refl, ℕ, ◌<◌, ◌^◌, ◌≡◌, ◌≢◌, refl, some, [], ◌∷◌, arith, length, All}
use cursus.Prelude.Dict.{Dict, lookup}
use cursus.Wire.{Result, ok, raised, Bytes, byte, ◌>>=◌}
use cursus.Bacnet.Objects.{Floats, BacnetAnalogValue, BacnetServer}
use cursus.Bacnet.Encode.{
  encode_application_object_identifier, encode_application_character_string,
  encode_application_enumerated, encode_application_bit_string, encode_tag_header,
  encode_application_real,
}
use cursus.Bacnet.Replies.{analog_value_properties, read_analog_value_property, read_property}
use cursus.Bacnet.Server.{store_present_value, handle_datagram}
use cursus.Bacnet.Parsing.{read_body, write_body}
use cursus.Bacnet.Datagram.{IsLocal, client_datagram, enveloped}
use cursus.Bacnet.Write.{write_apdu, real_value, handle_datagram-write, store_present_value_lem}
use cursus.Bacnet.Read.{read_apdu, read_ack, handle_datagram-read}

-- The properties of an analog value from its encoded fields.
abbrev collected :
    (object_identifier object_name object_type description present_value units status_flags : Result
      Bytes)
    → Result (Dict Bytes)
collected object_identifier object_name object_type description present_value units status_flags =
    do
      a ← object_identifier
      b ← object_name
      c ← object_type
      d ← description
      e ← present_value
      f ← units
      g ← status_flags
      ok ((75, a) ∷ (77, b) ∷ (79, c) ∷ (28, d) ∷ (85, e) ∷ (117, f) ∷ (111, g) ∷ [])

-- The present value is found in them.
abbrev Shows : Bytes → Result (Dict Bytes) → Type 0
Shows bs r = (r >>= λ properties. ok (lookup 85 properties)) ≡ ok (some bs)

collected-Shows :
    (a b c d p p' f g : Result Bytes) (properties : Dict Bytes) (bs : Bytes)
    → collected a b c d p f g ≡ ok properties
    → p' ≡ ok bs
    → Shows bs (collected a b c d p' f g)
unfolding lookup
collected-Shows (raised e) b c d p p' f g properties bs h k = absurd (cc)
collected-Shows (ok a) (raised e) c d p p' f g properties bs h k = absurd (cc)
collected-Shows (ok a) (ok b) (raised e) d p p' f g properties bs h k = absurd (cc)
collected-Shows (ok a) (ok b) (ok c) (raised e) p p' f g properties bs h k = absurd (cc)
collected-Shows (ok a) (ok b) (ok c) (ok d) (raised e) p' f g properties bs h k = absurd (cc)
collected-Shows (ok a) (ok b) (ok c) (ok d) (ok p) p' (raised e) g properties bs h k = absurd (cc)
collected-Shows (ok a) (ok b) (ok c) (ok d) (ok p) p' (ok f) (raised e) properties bs h k =
    absurd (cc)
collected-Shows (ok a) (ok b) (ok c) (ok d) (ok p) p' (ok f) (ok g) properties bs h k = rw k refl

module _ (fl : Floats) where
  open fl use {Float, pack_float, unpack_float}

  encode_application_real-ok :
      (v : Float) (bs : Bytes)
      → pack_float v ≡ ok bs
      → encode_application_real fl v ≡ ok (real_value bs)
  unfolding encode_application_real encode_tag_header byte
  encode_application_real-ok v bs h = rw h refl

  read_analog_value_property-found :
      (s : BacnetServer Float) (instance_number : ℕ) (value : BacnetAnalogValue Float)
      → lookup instance_number s.analog_values ≡ some value
      → read_analog_value_property fl s instance_number 85
        ≡ (analog_value_properties fl value >>= λ properties. ok (lookup 85 properties))
  unfolding read_analog_value_property
  read_analog_value_property-found s instance_number value found =
      rw (found, read_analog_value_property) refl

  read_property-found :
      (s : BacnetServer Float) (instance_number : ℕ) (value : BacnetAnalogValue Float)
      → lookup instance_number s.analog_values ≡ some value
      → read_property fl s 2 instance_number 85
        ≡ (analog_value_properties fl value >>= λ properties. ok (lookup 85 properties))
  unfolding read_property
  read_property-found s instance_number value found =
      let analog : read_property fl s 2 instance_number 85
          ≡ read_analog_value_property fl s instance_number 85 =
        refl in
      rw (analog, read_analog_value_property-found s instance_number value found) refl

  read_property-stored :
      (s : BacnetServer Float) (instance_number : ℕ) (value : BacnetAnalogValue Float)
      (properties : Dict Bytes) (v : Float) (bs : Bytes)
      → lookup instance_number s.analog_values ≡ some value
      → analog_value_properties fl value ≡ ok properties
      → encode_application_real fl v ≡ ok (real_value bs)
      → read_property fl (store_present_value fl instance_number v s) 2 instance_number 85
        ≡ ok (some (real_value bs))
  unfolding analog_value_properties
  read_property-stored s instance_number value properties v bs found readable real =
      let (stored, _, _, _) =
        store_present_value_lem fl s instance_number instance_number v value found in
      let there : lookup instance_number (store_present_value fl instance_number v s).analog_values
          ≡ some (record value { present_value = v }) =
        rw ==_refl at stored in
      rw
        (read_property-found (store_present_value fl instance_number v s) instance_number
          (record value { present_value = v }) there)
        (collected-Shows (encode_application_object_identifier 2 value.instance_number)
          (encode_application_character_string value.object_name) (encode_application_enumerated 2)
          (encode_application_character_string value.description)
          (encode_application_real fl value.present_value) (encode_application_real fl v)
          (encode_application_enumerated value.units) (encode_application_bit_string (0x00 ∷ []))
          properties (real_value bs) readable real)

  -- A client writes a present value, whose four bytes do not include 0x3f, of an analog value whose
  -- properties could be read, and reads it: where packing the float of the four bytes gives them
  -- again, the ComplexACK has the four bytes that were written.
  pub handle_datagram-read_back :
      (s : BacnetServer Float) (control segments invoke_id later_id instance_number : ℕ)
      (bs : Bytes) (value : BacnetAnalogValue Float) (properties : Dict Bytes)
      → IsLocal control
      → lookup instance_number s.analog_values ≡ some value
      → analog_value_properties fl value ≡ ok properties
      → pack_float (unpack_float bs) ≡ ok bs
      → length bs ≡ 4
      → All (λ x. x ≢ 0x3f) bs
      → invoke_id < 256
      → later_id < 256
      → instance_number < 2 ^ 22
      → (let (_, s') =
            handle_datagram fl
              (client_datagram control (
                write_apdu segments invoke_id (write_body 2 instance_number 85 (real_value bs) [])))
              s in
          (handle_datagram fl
            (client_datagram control (read_apdu segments later_id (read_body 2 instance_number 85)))
            s').0
          ≡ enveloped (some (read_ack later_id 2 instance_number 85 (real_value bs))))
  handle_datagram-read_back s control segments invoke_id later_id instance_number bs value
        properties local found readable packs width plain hv hl hi =
      rw
        (
          handle_datagram-write fl s control segments invoke_id instance_number bs value local found
              width plain hv hi,
          handle_datagram-read fl 2 instance_number 85 later_id (omega arith) hi (omega arith) hl
              (store_present_value fl instance_number (unpack_float bs) s) control segments local,
          read_property-stored s instance_number value properties (unpack_float bs) bs found
              readable (encode_application_real-ok (unpack_float bs) bs packs),
        )
        refl
