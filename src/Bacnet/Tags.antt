-- ===== src/Bacnet/Tags.antt =====
-- What the decoders of `BacnetServer` make of what its encoders write.
use Prim.Native.Nat.{bit_and, bit_or}
use cursus.Prelude.{
  ℕ, ◌+◌, ◌*◌, ◌/◌, ◌^◌, ◌<◌, ◌≡◌, Bool, true, false, some, [], ◌∷◌, ◌++◌, arith, length,
  length-append, leb, if◌then◌else◌, Bool-cases, lt→leb, inl, inr,
}
use cursus.Wire.{ok, Bytes, byte, index, from_big}
use cursus.Wire.Bits.{or_shifted, low_three, class_bit}
use cursus.Wire.Slices.{index-append, index-append_second, slice-append}
use cursus.Bacnet.Encode.{encode_tag_header}
use cursus.Bacnet.Decode.{
  decode_tag_length, decode_value, is_context_tag, decode_context_unsigned,
  decode_application_unsigned, decode_context_object_identifier,
}

abbrev pub class_of : Bool → ℕ
class_of is_context = if is_context then 0x08 else 0x00

-- What `_encode_tag_header` returns.
unfoldable pub header_bytes : ℕ → Bool → ℕ → Bytes
header_bytes tag_number is_context len =
    if leb len 4
    then (tag_number * 16 + class_of is_context + len) ∷ []
    else (tag_number * 16 + class_of is_context + 5) ∷ len ∷ []

first_byte :
    (tag_number : ℕ) (is_context : Bool) (len : ℕ)
    → len < 8
    → bit_or (bit_or (tag_number * 2 ^ 4) (class_of is_context)) len
      ≡ tag_number * 16 + class_of is_context + len
first_byte t true len h =
    let e : t * 2 ^ 4 + 8 ≡ (t * 2 + 1) * 2 ^ 3 = omega arith in
    rw (or_shifted 4 t 8 (omega arith), e, or_shifted 3 (t * 2 + 1) len (omega arith)) (omega arith)
first_byte t false len h =
    let e : t * 2 ^ 4 + 0 ≡ t * 2 ^ 4 = omega arith in
    rw (or_shifted 4 t 0 (omega arith), e, or_shifted 4 t len (omega arith)) (omega arith)

pub encode_tag_header-ok :
    (tag_number : ℕ) (is_context : Bool) (len : ℕ)
    → tag_number < 16
    → len < 256
    → encode_tag_header tag_number is_context len ≡ ok (header_bytes tag_number is_context len)
unfolding encode_tag_header header_bytes byte
encode_tag_header-ok t c len ht hl = elim (Bool-cases (leb len 4)) [
  | inl short ↦ rw (short, first_byte t c len (ground arith)) (ground arith)
  | inr long ↦ rw (long, first_byte t c 5 (omega arith)) (ground arith)
]

pub decode_tag_length-header_bytes :
    (front : Bytes) (t : ℕ) (c : Bool) (len : ℕ) (rest : Bytes)
    → t < 16
    → len < 256
    → decode_tag_length (front ++ (header_bytes t c len ++ rest)) (length front)
      ≡ ok (len, length (header_bytes t c len))
unfolding decode_tag_length header_bytes
decode_tag_length-header_bytes front t c len rest ht hl = elim (Bool-cases (leb len 4)) [
  | inl short ↦
      let b = t * 16 + class_of c + len in
      rw (short, index-append front b rest) (ground (arith, low_three b))
  | inr long ↦
      let b = t * 16 + class_of c + 5 in
      rw (long, index-append front b (len ∷ rest), index-append_second front b len rest)
        (ground (arith, low_three b))
]

-- A header of a value that fills the payload's part behind `front`, decoded from there.
pub decode_value-tagged :
    (front : Bytes) (t : ℕ) (c : Bool) (value rest : Bytes)
    → t < 16
    → length value < 256
    → (let header = header_bytes t c (length value) in
        decode_value (front ++ (header ++ (value ++ rest))) (length front)
        ≡ ok (some (from_big value), length front + length (header ++ value)))
decode_value-tagged front t c value rest ht hl =
    let header = header_bytes t c (length value) in
    rw
      (
        decode_tag_length-header_bytes front t c (length value) (value ++ rest) ht hl,
        slice-append front header value rest,
      )
      (ground (
        arith,
        length-append front (header ++ (value ++ rest)),
        length-append header (value ++ rest),
        length-append value rest,
        length-append header value,
      ))

-- The tag byte, which stands first.
abbrev tag_byte : ℕ → Bool → ℕ → ℕ
tag_byte t c len = t * 16 + class_of c + (if leb len 4 then len else 5)

abbrev behind_tag_byte : ℕ → Bytes
behind_tag_byte len = if leb len 4 then [] else len ∷ []

header_bytes_split :
    (t : ℕ) (c : Bool) (len : ℕ) → header_bytes t c len ≡ tag_byte t c len ∷ behind_tag_byte len
unfolding header_bytes
header_bytes_split t c len = ground arith

tag_byte_fields :
    (t : ℕ) (c : Bool) (len : ℕ)
    → t < 16
    → (tag_byte t c len / 2 ^ 4 ≡ t) × (bit_and (tag_byte t c len) 0x08 ≡ class_of c)
tag_byte_fields t c len h = ground (arith, class_bit (tag_byte t c len))

index-header_bytes :
    (front : Bytes) (t : ℕ) (c : Bool) (len : ℕ) (rest : Bytes)
    → index (front ++ (header_bytes t c len ++ rest)) (length front) ≡ ok (tag_byte t c len)
index-header_bytes front t c len rest =
    rw header_bytes_split (index-append front (tag_byte t c len) (behind_tag_byte len ++ rest))

header_fills :
    (front : Bytes) (t : ℕ) (c : Bool) (len : ℕ) (rest : Bytes)
    → length front < length (front ++ (header_bytes t c len ++ rest))
header_fills front t c len rest =
    rw header_bytes_split
      (omega (arith, length-append front ((tag_byte t c len ∷ behind_tag_byte len) ++ rest)))

is_context_tag-tag_byte : (t len : ℕ) → t < 16 → is_context_tag (tag_byte t true len) t ≡ true
unfolding is_context_tag
is_context_tag-tag_byte t len h = ground (arith, tag_byte_fields t true len h)

-- `_decode_context_unsigned` reads the number of a context tag with its own tag number.
pub decode_context_unsigned-tagged :
    (front : Bytes) (t : ℕ) (value rest : Bytes)
    → t < 16
    → length value < 256
    → decode_context_unsigned
        (front ++ (header_bytes t true (length value) ++ (value ++ rest)))
        (length front)
        t
      ≡ ok (
        some (from_big value),
        length front + length (header_bytes t true (length value) ++ value),
      )
unfolding decode_context_unsigned
decode_context_unsigned-tagged front t value rest ht hl =
    rw
      (
        lt→leb _ _ (header_fills front t true (length value) (value ++ rest)),
        index-header_bytes,
        is_context_tag-tag_byte t (length value) ht,
      )
      (decode_value-tagged front t true value rest ht hl)

-- `_decode_application_unsigned` reads the number of an application tag 2.
pub decode_application_unsigned-tagged :
    (front value rest : Bytes)
    → length value < 256
    → decode_application_unsigned
        (front ++ (header_bytes 2 false (length value) ++ (value ++ rest)))
        (length front)
      ≡ ok (
        some (from_big value),
        length front + length (header_bytes 2 false (length value) ++ value),
      )
unfolding decode_application_unsigned
decode_application_unsigned-tagged front value rest hl =
    let (number, class) = tag_byte_fields 2 false (length value) (omega arith) in
    rw
      (
        lt→leb _ _ (header_fills front 2 false (length value) (value ++ rest)),
        index-header_bytes,
        number,
        class,
      )
      (decode_value-tagged front 2 false value rest (omega arith) hl)

-- The two fields of an object identifier, from its four bytes.
abbrev identifier_fields : Bytes → ℕ × ℕ
identifier_fields value = (from_big value / 2 ^ 22, bit_and (from_big value) 0x3fffff)

pub decode_context_object_identifier-tagged :
    (front : Bytes) (t : ℕ) (value rest : Bytes)
    → t < 16
    → length value ≡ 4
    → decode_context_object_identifier
        (front ++ (header_bytes t true (length value) ++ (value ++ rest)))
        (length front)
        t
      ≡ ok (
        some (identifier_fields value),
        length front + length (header_bytes t true (length value) ++ value),
      )
unfolding decode_context_object_identifier
decode_context_object_identifier-tagged front t value rest ht hl =
    let header = header_bytes t true (length value) in
    rw
      (
        lt→leb _ _ (header_fills front t true (length value) (value ++ rest)),
        index-header_bytes,
        is_context_tag-tag_byte t (length value) ht,
        decode_tag_length-header_bytes front t true (length value) (value ++ rest) ht (omega arith),
        slice-append front header value rest,
      )
      (ground (
        arith,
        length-append front (header ++ (value ++ rest)),
        length-append header (value ++ rest),
        length-append value rest,
        length-append header value,
      ))
