-- ===== src/Bacnet/RoundTrip.antt =====
-- Tagged values, written by the encoders and read back by the decoders of `BacnetServer`.
use native.Mathlib.Nat.{pow-le-pow_right}
use cursus.Prelude.{
  ℕ, ◌+◌, ◌-◌, ◌*◌, ◌^◌, ◌≤◌, ◌<◌, ◌≡◌, true, false, some, ◌++◌, append_assoc, arith, length,
  length-append, suc, ap, ltb, lt→ltb, Bool-cases, inl, inr,
}
use cursus.Wire.{ok, Bytes, pack_big, big_endian}
use cursus.Wire.Bits.{or_shifted, and_ones}
use cursus.Wire.Ints.{length-big_endian, from_big-big_endian}
use cursus.Bacnet.Encode.{
  encode_application_unsigned, encode_context_unsigned, pack_object_identifier,
  encode_context_object_identifier,
}
use cursus.Bacnet.Decode.{
  decode_application_unsigned, decode_context_unsigned, decode_context_object_identifier,
}
use cursus.Bacnet.Numbers.{
  unsigned_bytes, encode_unsigned_value-ok, from_big-unsigned_bytes, length-unsigned_bytes,
}
use cursus.Bacnet.Tags.{
  header_bytes, encode_tag_header-ok, decode_context_unsigned-tagged,
  decode_application_unsigned-tagged, decode_context_object_identifier-tagged,
}

-- A number below 256 ^ k takes at most k bytes, and one for 0.
pub length-unsigned_bytes_le : (k v : ℕ) → 1 ≤ k → v < 256 ^ k → length (unsigned_bytes v) ≤ k
length-unsigned_bytes_le k v hk hv =
    let n = length (unsigned_bytes v) in
    elim (Bool-cases (ltb k n)) [
      | inl more ↦
          let grows : 256 ^ k ≤ 256 ^ (n - 1) = pow-le-pow_right (omega arith) (ground arith) in
          let two : 256 ^ 1 ≤ 256 ^ k = pow-le-pow_right (omega arith) hk in
          absurd (omega (arith, grows, two, length-unsigned_bytes v))
      | inr fits ↦ ground arith
    ]

-- The bytes of a context-tagged number.
unfoldable pub context_unsigned : ℕ → ℕ → Bytes
context_unsigned t v = header_bytes t true (length (unsigned_bytes v)) ++ unsigned_bytes v

pub encode_context_unsigned-ok :
    (t v : ℕ) → t < 16 → v < 2 ^ 32 → encode_context_unsigned t v ≡ ok (context_unsigned t v)
unfolding encode_context_unsigned context_unsigned
encode_context_unsigned-ok t v ht hv = rw (
  encode_unsigned_value-ok,
  encode_tag_header-ok t true (length (unsigned_bytes v)) ht
      (omega (arith, length-unsigned_bytes_le 4 v)),
)

pub decode_context_unsigned-ok :
    (front rest : Bytes) (t v : ℕ)
    → t < 16
    → v < 2 ^ 32
    → decode_context_unsigned (front ++ (context_unsigned t v ++ rest)) (length front) t
      ≡ ok (some v, length front + length (context_unsigned t v))
unfolding context_unsigned
decode_context_unsigned-ok front rest t v ht hv = rw (
  append_assoc (header_bytes t true (length (unsigned_bytes v))) (unsigned_bytes v) rest,
  decode_context_unsigned-tagged front t (unsigned_bytes v) rest ht
      (omega (arith, length-unsigned_bytes_le 4 v)),
  from_big-unsigned_bytes,
)

-- A number below 2 ^ 32 under a context tag: the encoder succeeds, and the decoder, at the place
-- where the encoding stands in a payload, returns the number and the offset behind it.
pub decode_context_unsigned-encode :
    (front rest : Bytes) (t v : ℕ)
    → t < 16
    → v < 2 ^ 32
    → (encoded : Bytes) × (encode_context_unsigned t v ≡ ok encoded)
      × (decode_context_unsigned (front ++ (encoded ++ rest)) (length front) t
          ≡ ok (some v, length front + length encoded))
decode_context_unsigned-encode front rest t v ht hv = (
  context_unsigned t v,
  encode_context_unsigned-ok t v ht hv,
  decode_context_unsigned-ok front rest t v ht hv,
)

-- A number below 2 ^ 32 under an application tag: the encoder succeeds, and the decoder, at the
-- place where the encoding stands in a payload, returns the number and the offset behind it.
pub decode_application_unsigned-encode :
    (front rest : Bytes) (v : ℕ)
    → v < 2 ^ 32
    → (encoded : Bytes) × (encode_application_unsigned v ≡ ok encoded)
      × (decode_application_unsigned (front ++ (encoded ++ rest)) (length front)
          ≡ ok (some v, length front + length encoded))
unfolding encode_application_unsigned
decode_application_unsigned-encode front rest v hv =
    let value = unsigned_bytes v in
    let header = header_bytes 2 false (length value) in
    let short : length value < 256 = omega (arith, length-unsigned_bytes_le 4 v) in
    (
      header ++ value,
      rw (
        encode_unsigned_value-ok,
        encode_tag_header-ok 2 false (length value) (omega arith) short,
      ),
      rw (
        append_assoc header value rest,
        decode_application_unsigned-tagged front value rest short,
        from_big-unsigned_bytes,
      ),
    )

-- An object type of 10 bits and an instance of 22 bits, as the number that stands for both.
abbrev pub identifier_number : ℕ → ℕ → ℕ
identifier_number object_type instance_number = object_type * 2 ^ 22 + instance_number

pub pack_object_identifier-ok :
    (object_type instance_number : ℕ)
    → object_type < 2 ^ 10
    → instance_number < 2 ^ 22
    → pack_object_identifier object_type instance_number
      ≡ ok (big_endian 4 (identifier_number object_type instance_number))
unfolding pack_object_identifier pack_big
pack_object_identifier-ok object_type instance_number ho hi =
    let e = identifier_number object_type instance_number in
    rw (or_shifted 22 object_type instance_number hi, lt→ltb e (256 ^ 4) (omega arith))

-- The bytes of a context-tagged object identifier.
unfoldable pub context_object_identifier : ℕ → ℕ → ℕ → Bytes
context_object_identifier t object_type instance_number =
    header_bytes t true 4 ++ big_endian 4 (identifier_number object_type instance_number)

module _ (t object_type instance_number : ℕ) (ht : t < 16) (ho : object_type < 2 ^ 10)
    (hi : instance_number < 2 ^ 22) where
  pub encode_context_object_identifier-ok :
      encode_context_object_identifier t object_type instance_number
      ≡ ok (context_object_identifier t object_type instance_number)
  unfolding encode_context_object_identifier context_object_identifier
  encode_context_object_identifier-ok = rw (
    pack_object_identifier-ok object_type instance_number ho hi,
    length-big_endian,
    encode_tag_header-ok t true 4 ht (omega arith),
  )

  pub decode_context_object_identifier-ok :
      (front rest : Bytes)
      → decode_context_object_identifier
          (front ++ (context_object_identifier t object_type instance_number ++ rest))
          (length front)
          t
        ≡ ok (
          some (object_type, instance_number),
          length front + length (context_object_identifier t object_type instance_number),
        )
  unfolding context_object_identifier
  decode_context_object_identifier-ok front rest =
      let e = identifier_number object_type instance_number in
      let width : length (big_endian 4 e) ≡ 4 = length-big_endian 4 e in
      let decoded =
        rw width at
          (decode_context_object_identifier-tagged front t (big_endian 4 e) rest ht width) in
      rw
        (
          append_assoc (header_bytes t true 4) (big_endian 4 e) rest,
          decoded,
          from_big-big_endian 4 e (omega arith),
        )
        (ground (arith, and_ones 22 e))

pub length-context_object_identifier :
    (t object_type instance_number : ℕ)
    → length (context_object_identifier t object_type instance_number) ≡ 5
unfolding context_object_identifier header_bytes
length-context_object_identifier t object_type instance_number =
    ap suc (length-big_endian 4 (identifier_number object_type instance_number))

pub length-context_unsigned : (t v : ℕ) → v < 2 ^ 32 → length (context_unsigned t v) ≤ 6
unfolding context_unsigned header_bytes
length-context_unsigned t v h = ground (
  arith,
  length-append (header_bytes t true (length (unsigned_bytes v))) (unsigned_bytes v),
  length-unsigned_bytes_le 4 v,
)

-- An object identifier whose type has 10 bits and whose instance has 22, under a context tag: the
-- encoder succeeds, and the decoder, at the place where the encoding stands in a payload, returns
-- the type and the instance and the offset behind it.
pub decode_context_object_identifier-encode :
    (front rest : Bytes) (t object_type instance_number : ℕ)
    → t < 16
    → object_type < 2 ^ 10
    → instance_number < 2 ^ 22
    → (encoded : Bytes) × (encode_context_object_identifier t object_type instance_number
        ≡ ok encoded)
      × (decode_context_object_identifier (front ++ (encoded ++ rest)) (length front) t
          ≡ ok (some (object_type, instance_number), length front + length encoded))
decode_context_object_identifier-encode front rest t object_type instance_number ht ho hi = (
  context_object_identifier t object_type instance_number,
  encode_context_object_identifier-ok t object_type instance_number ht ho hi,
  decode_context_object_identifier-ok t object_type instance_number ht ho hi front rest,
)
