-- ===== src/Bacnet/Read.antt =====
-- ReadProperty, from the datagram to the ComplexACK.
use cursus.Prelude.{
  ℕ, suc, ◌<◌, ◌^◌, ◌≡◌, refl, Option, none, some, [], ◌∷◌, arith, length, length-append, le→ltb,
  lt→ltb,
}
use cursus.Wire.{Result, ok, raised, Bytes, index, byte, ◌>>=◌}
use cursus.Wire.Exec.{proceed, lift}
use cursus.Bacnet.Objects.{Floats, BacnetServer}
use cursus.Bacnet.Envelope.{framed_apdu}
use cursus.Bacnet.Encode.{encode_opening_tag, encode_closing_tag}
use cursus.Bacnet.Replies.{frame_npdu, read_property, read_property_ack, handle_read_property}
use cursus.Bacnet.Server.{handle_confirmed_request, handle_apdu, handle_datagram}
use cursus.Bacnet.RoundTrip.{
  context_object_identifier, context_unsigned, length-context_object_identifier,
  length-context_unsigned, encode_context_object_identifier-ok, encode_context_unsigned-ok,
}
use cursus.Bacnet.Parsing.{read_body, write_body, parse_property_reference-read_body}
use cursus.Bacnet.Datagram.{IsLocal, client_datagram, enveloped, handle_datagram-client_datagram}

-- A ReadProperty request as a confirmed APDU; `segments` is the byte of size limits.
abbrev pub read_apdu : ℕ → ℕ → Bytes → Bytes
read_apdu segments invoke_id body = 0x00 ∷ segments ∷ invoke_id ∷ 0x0c ∷ body

-- The ComplexACK that gives a value: the object and the property again, and the value in tags.
abbrev pub read_ack : ℕ → ℕ → ℕ → ℕ → Bytes → Bytes
read_ack invoke_id object_type instance_number property value =
    0x30 ∷ invoke_id ∷ 0x0c ∷ write_body object_type instance_number property value []

-- What a client gets for what `_read_property` returns.
abbrev pub read_reply : ℕ → ℕ → ℕ → ℕ → Result (Option Bytes) → Result (Option Bytes)
read_reply invoke_id object_type instance_number property (raised e) = raised e
read_reply invoke_id object_type instance_number property (ok none) = ok none
read_reply invoke_id object_type instance_number property (ok (some value)) =
    enveloped (some (read_ack invoke_id object_type instance_number property value))

opening_three : encode_opening_tag 3 ≡ ok (0x3e ∷ [])
unfolding encode_opening_tag byte
opening_three = refl

closing_three : encode_closing_tag 3 ≡ ok (0x3f ∷ [])
unfolding encode_closing_tag byte
closing_three = refl

module _ (fl : Floats) (object_type instance_number property invoke_id : ℕ)
    (ho : object_type < 2 ^ 10) (hi : instance_number < 2 ^ 22) (hp : property < 2 ^ 32)
    (hv : invoke_id < 256) where
  open fl use {Float}

  read_property_ack-ok :
      (value : Bytes)
      → read_property_ack fl invoke_id object_type instance_number property value
        ≡ ok (read_ack invoke_id object_type instance_number property value)
  unfolding read_property_ack byte
  read_property_ack-ok value =
      rw
        (
          encode_context_object_identifier-ok 0 object_type instance_number (omega arith) ho hi,
          encode_context_unsigned-ok 1 property (omega arith) hp,
          opening_three,
          closing_three,
          lt→ltb invoke_id 256 hv,
        )
        refl

  handle_apdu-read :
      (segments : ℕ) (s : BacnetServer Float)
      → handle_apdu fl
          (read_apdu segments invoke_id (read_body object_type instance_number property))
          s
        ≡ (handle_read_property fl s invoke_id (read_body object_type instance_number property), s)
  unfolding handle_apdu handle_confirmed_request index
  handle_apdu-read segments s =
      let n : ℕ = suc (suc (suc (suc (length (read_body object_type instance_number property))))) in
      rw (le→ltb n 2 (omega arith), le→ltb n 4 (omega arith)) refl

  -- A ReadProperty datagram, for an object whose type has 10 bits and whose instance has 22 and a
  -- property below 2 ^ 32: if `_read_property` returns a value, the reply is a ComplexACK, in its
  -- frames, with the invoke id, the object and the property of the request and the value between
  -- the tags 3e and 3f; if it returns None there is no reply, and its exceptions go through; the
  -- server is as it was.
  pub handle_datagram-read :
      (s : BacnetServer Float) (control segments : ℕ)
      → IsLocal control
      → handle_datagram fl
          (client_datagram control
            (read_apdu segments invoke_id (read_body object_type instance_number property)))
          s
        ≡ (
          read_reply invoke_id object_type instance_number property
              (read_property fl s object_type instance_number property),
          s,
        )
  unfolding frame_npdu framed_apdu handle_read_property
  handle_datagram-read s control segments local =
      let small : length
            (read_apdu segments invoke_id (read_body object_type instance_number property))
          < 65530 =
        omega (
          arith,
          length-append (context_object_identifier 0 object_type instance_number)
              (context_unsigned 1 property),
          length-context_object_identifier 0 object_type instance_number,
          length-context_unsigned 1 property hp,
        ) in
      rw
        (
          handle_datagram-client_datagram fl control
              (read_apdu segments invoke_id (read_body object_type instance_number property)) s
              local small,
          handle_apdu-read segments s,
          parse_property_reference-read_body object_type instance_number property ho hi hp,
        )
        (acknowledged (read_property fl s object_type instance_number property))
    where
      acknowledged :
          (r : Result (Option Bytes))
          → proceed
              (r >>= λ value. elim value [
                | none ↦ ok none
                | some property_value ↦
                    (read_property_ack fl invoke_id object_type instance_number property
                        property_value
                      >>= λ ack. ok (some ack))
              ])
              (λ response. lift (enveloped response))
              s
            ≡ (read_reply invoke_id object_type instance_number property r, s)
      acknowledged (raised e) = refl
      acknowledged (ok none) = refl
      acknowledged (ok (some value)) = rw (read_property_ack-ok value) refl
