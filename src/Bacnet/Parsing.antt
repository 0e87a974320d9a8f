-- ===== src/Bacnet/Parsing.antt =====
-- The bodies of ReadProperty and WriteProperty as a client writes them, and what the parsers of
-- `BacnetServer` make of them.
use cursus.Prelude.{
  ℕ, suc, ◌+◌, ◌^◌, ◌<◌, ◌≡◌, ◌≢◌, refl, sym, some, [], ◌∷◌, ◌++◌, append-nil, append_assoc, arith,
  length, length-append, drop-append, ==_refl, lt→leb, All,
}
use cursus.Wire.{ok, Bytes, find_from, find, starts_with, byte}
use cursus.Wire.Slices.{index-append, slice-append, drop_add}
use cursus.Bacnet.Encode.{encode_opening_tag, encode_closing_tag}
use cursus.Bacnet.Decode.{is_context_tag}
use cursus.Bacnet.Requests.{
  skip_array_index, parse_property_reference, enclosed_value, parse_write_property_request,
}
use cursus.Bacnet.RoundTrip.{
  context_unsigned, decode_context_unsigned-ok, context_object_identifier,
  decode_context_object_identifier-ok,
}

-- The first position of a byte, counted from `i`.
find_from-append :
    (shown : Bytes) (b : ℕ) (rest : Bytes) (i : ℕ)
    → All (λ x. x ≢ b) shown
    → find_from (shown ++ b ∷ rest) (b ∷ []) i ≡ some (i + length shown)
unfolding find_from starts_with
find_from-append [] b rest i h = ground (arith, ==_refl b)
find_from-append (x ∷ shown) b rest i h =
    ground (arith, find_from-append shown b rest (suc i) h.1, h.0)

-- The first closing byte behind an opening byte.
find_behind :
    (front : Bytes) (a : ℕ) (shown : Bytes) (b : ℕ) (rest : Bytes)
    → All (λ x. x ≢ b) shown
    → find (front ++ a ∷ (shown ++ b ∷ rest)) (b ∷ []) (length front + 1)
      ≡ some (length front + 1 + length shown)
unfolding find
find_behind front a shown b rest h =
    rw (drop_add (length front) 1 (front ++ a ∷ (shown ++ b ∷ rest)), drop-append)
      (find_from-append shown b rest (length front + 1) h)

pub opening_three : encode_opening_tag 3 ≡ ok (0x3e ∷ [])
unfolding encode_opening_tag byte
opening_three = refl

pub closing_three : encode_closing_tag 3 ≡ ok (0x3f ∷ [])
unfolding encode_closing_tag byte
closing_three = refl

enclosed_value-append :
    (front shown rest : Bytes)
    → All (λ x. x ≢ 0x3f) shown
    → enclosed_value (front ++ 0x3e ∷ (shown ++ 0x3f ∷ rest)) (length front) ≡ ok (some shown)
unfolding enclosed_value
enclosed_value-append front shown rest h =
    rw
      (
        lt→leb (length (front ++ 0x3e ∷ (shown ++ 0x3f ∷ rest))) (length front)
            (omega (arith, length-append front (0x3e ∷ (shown ++ 0x3f ∷ rest)))),
        index-append front 0x3e (shown ++ 0x3f ∷ rest),
        opening_three,
        closing_three,
        index-append [] 0x3e [],
      )
      (ground (
        arith,
        find_behind front 0x3e shown 0x3f rest h,
        slice-append front (0x3e ∷ []) shown (0x3f ∷ rest),
      ))

skip_array_index-end :
    (payload : Bytes) → skip_array_index payload (length payload) ≡ ok (length payload)
unfolding skip_array_index
skip_array_index-end payload = ground arith

skip_array_index-opening :
    (front rest : Bytes)
    → skip_array_index (front ++ 0x3e ∷ rest) (length front) ≡ ok (length front)
unfolding skip_array_index is_context_tag
skip_array_index-opening front rest =
    ground (arith, index-append front 0x3e rest, length-append front (0x3e ∷ rest))

-- The body of a ReadProperty request.
abbrev pub read_body : ℕ → ℕ → ℕ → Bytes
read_body object_type instance_number property =
    context_object_identifier 0 object_type instance_number ++ context_unsigned 1 property

-- The body of a WriteProperty request up to the opening tag, and the whole body of one whose value
-- is followed by a closing tag and `rest`.
abbrev pub write_body : ℕ → ℕ → ℕ → Bytes → Bytes → Bytes
write_body object_type instance_number property value rest =
    context_object_identifier 0 object_type instance_number
    ++ (context_unsigned 1 property ++ 0x3e ∷ (value ++ 0x3f ∷ rest))

module _ (object_type instance_number property : ℕ) (ho : object_type < 2 ^ 10)
    (hi : instance_number < 2 ^ 22) (hp : property < 2 ^ 32) where
  -- `_parse_property_reference` returns the object and the property of a ReadProperty body.
  pub parse_property_reference-read_body :
      parse_property_reference (read_body object_type instance_number property)
      ≡ ok (some (object_type, instance_number, property))
  unfolding parse_property_reference
  parse_property_reference-read_body =
      let o = context_object_identifier 0 object_type instance_number in
      let p = context_unsigned 1 property in
      let first =
        decode_context_object_identifier-ok 0 object_type instance_number (omega arith) ho hi []
          p in
      let second = rw append-nil at (decode_context_unsigned-ok o [] 1 property (omega arith) hp) in
      let start : 0 + length o ≡ length o = omega arith in
      rw (first, start, second, sym (length-append o p), skip_array_index-end (o ++ p), ==_refl)

  -- `_parse_write_property_request` returns the object, the property and what stands before the
  -- first closing byte, whatever follows that.
  pub parse_write_property_request-write_body :
      (shown rest : Bytes)
      → All (λ x. x ≢ 0x3f) shown
      → parse_write_property_request (write_body object_type instance_number property shown rest)
        ≡ ok (some (object_type, instance_number, property, shown))
  unfolding parse_write_property_request
  parse_write_property_request-write_body shown rest h =
      let o = context_object_identifier 0 object_type instance_number in
      let p = context_unsigned 1 property in
      let tail = 0x3e ∷ (shown ++ 0x3f ∷ rest) in
      let first =
        decode_context_object_identifier-ok 0 object_type instance_number (omega arith) ho hi []
          (p ++ tail) in
      let second = decode_context_unsigned-ok o tail 1 property (omega arith) hp in
      let start : 0 + length o ≡ length o = omega arith in
      let whole : o ++ (p ++ tail) ≡ (o ++ p) ++ tail = sym (append_assoc o p tail) in
      rw (
        first,
        start,
        second,
        sym (length-append o p),
        whole,
        skip_array_index-opening (o ++ p) (shown ++ 0x3f ∷ rest),
        enclosed_value-append (o ++ p) shown rest h,
      )
