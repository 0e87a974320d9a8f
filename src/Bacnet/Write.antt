-- ===== src/Bacnet/Write.antt =====
-- WriteProperty of a present value, from the datagram to the stored float.
use cursus.Prelude.{
  ℕ, ◌+◌, ◌≤◌, ◌<◌, ◌^◌, ◌≡◌, ◌≢◌, refl, sym, Option, none, some, [], ◌∷◌, ◌++◌, append_assoc,
  arith, length, length-append, All, ◌==◌, if◌then◌else◌, le→ltb, lt→ltb, false, suc, take,
  take-length,
}
use cursus.Prelude.Dict.{lookup, lookup-put}
use cursus.Wire.{ok, Bytes, byte, index, big_endian, pack_big}
use cursus.Bacnet.Objects.{Floats, BacnetAnalogValue, BacnetServer}
use cursus.Bacnet.Envelope.{framed_apdu}
use cursus.Bacnet.Replies.{frame_npdu, build_bvlc}
use cursus.Bacnet.Encode.{encode_tag_header}
use cursus.Bacnet.Decode.{decode_application_real}
use cursus.Bacnet.Server.{
  store_present_value, write_property, handle_write_property, handle_confirmed_request, handle_apdu,
  handle_datagram,
}
use cursus.Bacnet.RoundTrip.{
  context_object_identifier, context_unsigned, length-context_object_identifier,
  length-context_unsigned,
}
use cursus.Bacnet.Parsing.{write_body, parse_write_property_request-write_body}
use cursus.Bacnet.Datagram.{IsLocal, client_datagram, enveloped, handle_datagram-client_datagram}

-- A WriteProperty request as a confirmed APDU; `segments` is the byte of size limits.
abbrev pub write_apdu : ℕ → ℕ → Bytes → Bytes
write_apdu segments invoke_id body = 0x00 ∷ segments ∷ invoke_id ∷ 0x0f ∷ body

real_header : encode_tag_header 4 false 4 ≡ ok (0x44 ∷ [])
unfolding encode_tag_header byte
real_header = refl

-- The SimpleACK of a write, in its frames.
abbrev pub write_ack : ℕ → Bytes
write_ack invoke_id = 0x81 ∷ 0x0a ∷ 0x00 ∷ 0x09 ∷ 0x01 ∷ 0x00 ∷ 0x20 ∷ invoke_id ∷ 0x0f ∷ []

enveloped-ack :
    (invoke_id : ℕ)
    → enveloped (some (0x20 ∷ invoke_id ∷ 0x0f ∷ [])) ≡ ok (some (write_ack invoke_id))
unfolding framed_apdu frame_npdu build_bvlc byte pack_big big_endian
enveloped-ack invoke_id = refl

-- A real as a client writes it: the application tag and four bytes.
abbrev pub real_value : Bytes → Bytes
real_value bs = 0x44 ∷ bs

module _ (fl : Floats) where
  open fl use {Float, unpack_float}

  decode_application_real-ok :
      (bs : Bytes)
      → length bs ≡ 4
      → decode_application_real fl (real_value bs) ≡ ok (some (unpack_float bs))
  unfolding decode_application_real index
  decode_application_real-ok bs h =
      let whole : take 4 bs ≡ bs = rw h at (take-length bs) in rw (h, real_header, whole)

  decode_application_real_short :
      (shown : Bytes) → length shown ≢ 5 → decode_application_real fl shown ≡ ok none
  unfolding decode_application_real
  decode_application_real_short shown h = ground arith

  handle_apdu-write :
      (segments invoke_id : ℕ) (body : Bytes) (s : BacnetServer Float)
      → handle_apdu fl (write_apdu segments invoke_id body) s
        ≡ handle_write_property fl invoke_id body s
  unfolding handle_apdu handle_confirmed_request index
  handle_apdu-write segments invoke_id body s =
      let n : ℕ = suc (suc (suc (suc (length body)))) in
      rw (le→ltb n 2 (omega arith), le→ltb n 4 (omega arith))

  -- A request whose value, up to the first closing byte, is a real for an object that is there.
  handle_write_property-known :
      (s : BacnetServer Float) (invoke_id instance_number : ℕ) (bs rest : Bytes)
      (value : BacnetAnalogValue Float)
      → lookup instance_number s.analog_values ≡ some value
      → length bs ≡ 4
      → All (λ x. x ≢ 0x3f) bs
      → invoke_id < 256
      → instance_number < 2 ^ 22
      → handle_write_property fl invoke_id (write_body 2 instance_number 85 (real_value bs) rest) s
        ≡ (
          ok (some (0x20 ∷ invoke_id ∷ 0x0f ∷ [])),
          store_present_value fl instance_number (unpack_float bs) s,
        )
  unfolding handle_write_property write_property byte lookup store_present_value
  handle_write_property-known s invoke_id instance_number bs rest value found width plain hv hi =
      rw (
        parse_write_property_request-write_body 2 instance_number 85 (omega arith) hi (omega arith)
            (real_value bs) rest (λ (e : 0x44 ≡ 0x3f). absurd (omega arith), plain),
        decode_application_real-ok bs width,
        found,
        lt→ltb invoke_id 256 hv,
      )

  -- A request whose value shows the four bytes of a real only up to a closing byte.
  handle_write_property-closed :
      (s : BacnetServer Float) (invoke_id instance_number : ℕ) (shown rest : Bytes)
      → All (λ x. x ≢ 0x3f) shown
      → length shown ≢ 5
      → instance_number < 2 ^ 22
      → handle_write_property fl invoke_id (write_body 2 instance_number 85 shown rest) s
        ≡ (ok none, s)
  unfolding handle_write_property write_property
  handle_write_property-closed s invoke_id instance_number shown rest plain width hi = rw (
    parse_write_property_request-write_body 2 instance_number 85 (omega arith) hi (omega arith)
        shown rest plain,
    decode_application_real_short shown width,
  )

length-write_body :
    (object_type instance_number property : ℕ) (value : Bytes)
    → property < 2 ^ 32
    → length (write_body object_type instance_number property value []) ≤ 13 + length value
length-write_body object_type instance_number property value h =
    let o = context_object_identifier 0 object_type instance_number in
    let p = context_unsigned 1 property in
    omega (
      arith,
      length-context_object_identifier 0 object_type instance_number,
      length-context_unsigned 1 property h,
      length-append value (0x3f ∷ []),
      length-append o (p ++ 0x3e ∷ (value ++ 0x3f ∷ [])),
      length-append p (0x3e ∷ (value ++ 0x3f ∷ [])),
    )

-- The value of such a body ends at the first closing byte.
closes_early :
    (instance_number : ℕ) (before after : Bytes)
    → write_body 2 instance_number 85 (real_value (before ++ 0x3f ∷ after)) []
      ≡ write_body 2 instance_number 85 (0x44 ∷ before) (after ++ 0x3f ∷ [])
closes_early instance_number before after = rw (append_assoc before (0x3f ∷ after) (0x3f ∷ []))

module _ (fl : Floats) where
  open fl use {Float, unpack_float}

  answer-write :
      (s s' : BacnetServer Float) (control segments invoke_id instance_number : ℕ) (value : Bytes)
      (reply : Option Bytes)
      → IsLocal control
      → length value < 60000
      → handle_write_property fl invoke_id (write_body 2 instance_number 85 value []) s
        ≡ (ok reply, s')
      → handle_datagram fl
          (client_datagram control
            (write_apdu segments invoke_id (write_body 2 instance_number 85 value [])))
          s
        ≡ (enveloped reply, s')
  answer-write s s' control segments invoke_id instance_number value reply local width h =
      let body = write_body 2 instance_number 85 value [] in
      let small : length (write_apdu segments invoke_id body) < 65530 =
        omega (arith, length-write_body 2 instance_number 85 value) in
      rw (
        handle_datagram-client_datagram fl control (write_apdu segments invoke_id body) s local
            small,
        handle_apdu-write fl segments invoke_id body s,
        h,
      )

  -- A unicast WriteProperty datagram for the present value of an analog value that the server has,
  -- whose four bytes of the real do not include 0x3f: the reply is the SimpleACK with the request's
  -- invoke id, and the value stored is the float of the four bytes.
  pub handle_datagram-write :
      (s : BacnetServer Float) (control segments invoke_id instance_number : ℕ) (bs : Bytes)
      (value : BacnetAnalogValue Float)
      → IsLocal control
      → lookup instance_number s.analog_values ≡ some value
      → length bs ≡ 4
      → All (λ x. x ≢ 0x3f) bs
      → invoke_id < 256
      → instance_number < 2 ^ 22
      → handle_datagram fl
          (client_datagram control
            (write_apdu segments invoke_id (write_body 2 instance_number 85 (real_value bs) [])))
          s
        ≡ (
          ok (some (write_ack invoke_id)),
          store_present_value fl instance_number (unpack_float bs) s,
        )
  handle_datagram-write s control segments invoke_id instance_number bs value local found width
        plain hv hi =
      rw (sym (enveloped-ack invoke_id)) (
        answer-write s (store_present_value fl instance_number (unpack_float bs) s) control segments
          invoke_id instance_number (real_value bs) (some (0x20 ∷ invoke_id ∷ 0x0f ∷ [])) local
          (omega arith)
          (handle_write_property-known fl s invoke_id instance_number bs [] value found width plain
            hv hi))

  -- A unicast WriteProperty datagram for a present value, whose real has the byte 0x3f among its
  -- four bytes (as 1.0 has), behind `before`: there is no reply, and the server is as it was.
  pub handle_datagram-write_closed :
      (s : BacnetServer Float) (control segments invoke_id instance_number : ℕ)
      (before after : Bytes)
      → IsLocal control
      → length (before ++ 0x3f ∷ after) ≡ 4
      → All (λ x. x ≢ 0x3f) before
      → instance_number < 2 ^ 22
      → handle_datagram fl
          (client_datagram control (
            write_apdu segments invoke_id
              (write_body 2 instance_number 85 (real_value (before ++ 0x3f ∷ after)) [])))
          s
        ≡ (ok none, s)
  unfolding frame_npdu framed_apdu
  handle_datagram-write_closed s control segments invoke_id instance_number before after local width
        plain hi =
      answer-write s s control segments invoke_id instance_number
        (real_value (before ++ 0x3f ∷ after)) none local (omega arith)
        (rw (closes_early instance_number before after) (
          handle_write_property-closed fl s invoke_id instance_number (0x44 ∷ before)
            (after ++ 0x3f ∷ []) (λ (e : 0x44 ≡ 0x3f). absurd (omega arith), plain)
            (omega (arith, length-append before (0x3f ∷ after))) hi))

  -- After a present value is stored for an instance, that instance has the object it had with the
  -- new value, every other instance has the object it had, and the rest of the server is unchanged.
  pub store_present_value_lem :
      (s : BacnetServer Float) (instance_number other : ℕ) (v : Float)
      (value : BacnetAnalogValue Float)
      → lookup instance_number s.analog_values ≡ some value
      → (let s' = store_present_value fl instance_number v s in
          (lookup other s'.analog_values ≡ (
            if instance_number == other
            then some (record value { present_value = v })
            else lookup other s.analog_values))
          × (s'.config ≡ s.config)
          × (s'.ip ≡ s.ip)
          × (s'.port ≡ s.port))
  unfolding store_present_value
  store_present_value_lem s instance_number other v value found =
      rw (found, store_present_value)
        (
          lookup-put instance_number other (record value { present_value = v }) s.analog_values,
          refl,
          refl,
          refl,
        )
