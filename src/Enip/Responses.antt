-- ===== src/Enip/Responses.antt =====
-- What the server sends is what its own framing reads.
use cursus.Prelude.{
  ◌-◌, ℕ, suc, ◌+◌, ◌^◌, ◌<◌, ◌≡◌, refl, some, [], ◌∷◌, ◌++◌, append_assoc, arith, length, drop,
  drop-append, take-append, lt→ltb, le→ltb, length-append,
}
use cursus.Wire.{ok, Bytes, slice, pack_little, little_endian, from_little}
use cursus.Wire.Slices.{drop_add}
use cursus.Wire.Ints.{from_little-little_endian}
use cursus.Enip.Objects.{pack_string}
use cursus.Enip.Identity.{pack_fields}
use cursus.Enip.Encapsulation.{build_encapsulation_response, next_frame}

pack_string_whole : (bs : Bytes) → pack_string (length bs) bs ≡ bs
unfolding pack_string
pack_string_whole [] = refl
pack_string_whole (b ∷ bs) = rw (pack_string_whole bs) refl

-- The bytes of a response.
response_bytes : ℕ → ℕ → Bytes → Bytes → ℕ → Bytes
response_bytes command session_handle sender_context payload status =
    little_endian 2 command
    ++ (little_endian 2 (length payload)
        ++ (little_endian 4 session_handle
            ++ (little_endian 4 status ++ (sender_context ++ (little_endian 4 0 ++ payload)))))

module _ (command session_handle status : ℕ) (sender_context payload : Bytes)
    (hc : command < 2 ^ 16) (hh : session_handle < 2 ^ 32) (hs : status < 2 ^ 32)
    (hx : length sender_context ≡ 8) (hp : length payload < 2 ^ 16) where
  response_parts :
      ok (
        (little_endian 2 command
          ++ (little_endian 2 (length payload)
              ++ (little_endian 4 session_handle ++ (little_endian 4 status ++ []))))
        ++ (sender_context ++ ((little_endian 4 0 ++ []) ++ payload)))
      ≡ ok (response_bytes command session_handle sender_context payload status)
  unfolding response_bytes little_endian
  response_parts = refl

  build_encapsulation_response-ok :
      build_encapsulation_response command session_handle sender_context payload status
      ≡ ok (response_bytes command session_handle sender_context payload status)
  unfolding build_encapsulation_response pack_fields pack_little response_bytes
  build_encapsulation_response-ok =
      let context : pack_string 8 sender_context ≡ sender_context =
        rw hx at (pack_string_whole sender_context) in
      rw
        (
          lt→ltb command (256 ^ 2) hc,
          lt→ltb (length payload) (256 ^ 2) hp,
          lt→ltb session_handle (256 ^ 4) hh,
          lt→ltb status (256 ^ 4) hs,
          context,
        )
        response_parts

  module _ (more : Bytes) where
    -- The response, with what was sent behind it.
    stream : Bytes
    stream = response_bytes command session_handle sender_context payload status ++ more

    -- What stands behind the status field.
    drop_head :
        (n : ℕ)
        → drop (12 + n) stream ≡ drop n (sender_context ++ (little_endian 4 0 ++ (payload ++ more)))
    unfolding stream response_bytes little_endian
    drop_head n =
        let e : 12 + n ≡ suc (suc (suc (suc (suc (suc (suc (suc (suc (suc (suc (suc n))))))))))) =
          omega arith in
        rw (e, append_assoc sender_context (0 ∷ 0 ∷ 0 ∷ 0 ∷ payload) more) refl

    drop_context : (n : ℕ) → drop (24 + n) stream ≡ drop n (payload ++ more)
    unfolding little_endian
    drop_context n =
        let tail : Bytes = 0 ∷ 0 ∷ 0 ∷ 0 ∷ (payload ++ more) in
        let skip : drop 8 (sender_context ++ tail) ≡ tail =
          rw hx at (drop-append sender_context tail) in
        let outer : 24 + n ≡ 12 + (12 + n) = omega arith in
        let inner : 12 + n ≡ 8 + (4 + n) = omega arith in
        let last : 4 + n ≡ suc (suc (suc (suc n))) = omega arith in
        rw
          (
            outer,
            drop_head (12 + n),
            inner,
            drop_add 8 (4 + n) (sender_context ++ tail),
            skip,
            last,
          )
          refl

    command_field : slice stream 0 2 ≡ little_endian 2 command
    unfolding stream response_bytes little_endian
    command_field = refl

    length_field : slice stream 2 4 ≡ little_endian 2 (length payload)
    unfolding stream response_bytes little_endian
    length_field = refl

    handle_field : slice stream 4 8 ≡ little_endian 4 session_handle
    unfolding stream response_bytes little_endian
    handle_field = refl

    context_field : slice stream 12 20 ≡ sender_context
    context_field =
        let rest = little_endian 4 0 ++ (payload ++ more) in
        rw (drop_head 0) (rw hx at (take-append sender_context rest))

    options_field : slice stream 20 24 ≡ little_endian 4 0
    unfolding little_endian
    options_field =
        let tail : Bytes = 0 ∷ 0 ∷ 0 ∷ 0 ∷ (payload ++ more) in
        let skip : drop 8 (sender_context ++ tail) ≡ tail =
          rw hx at (drop-append sender_context tail) in
        rw (drop_head 8, skip) refl

    length-stream : length stream ≡ 24 + length payload + length more
    unfolding stream response_bytes little_endian
    length-stream = omega (
      arith,
      hx,
      length-append sender_context (0 ∷ 0 ∷ 0 ∷ 0 ∷ payload),
      length-append (sender_context ++ (0 ∷ 0 ∷ 0 ∷ 0 ∷ payload)) more,
    )

    next_frame-response :
        next_frame stream
        ≡ some (
          record {
            command = command;
            session_handle = session_handle;
            sender_context = sender_context;
            options = 0;
            payload = payload;
          },
          more,
        )
    unfolding next_frame
    next_frame-response =
        let size : from_little (slice stream 2 4) ≡ length payload =
          rw length_field (from_little-little_endian 2 (length payload) hp) in
        let body : drop 24 stream ≡ payload ++ more = drop_context 0 in
        let width : 24 + length payload - 24 ≡ length payload = omega arith in
        rw
          (
            le→ltb (length stream) 24 (omega (arith, length-stream)),
            size,
            le→ltb (length stream) (24 + length payload) (omega (arith, length-stream)),
            command_field,
            handle_field,
            context_field,
            options_field,
            width,
            from_little-little_endian 2 command hc,
            from_little-little_endian 4 session_handle hh,
            from_little-little_endian 4 0 (omega arith),
            drop_context (length payload),
            drop-append payload more,
          )
          (rw (body, take-append payload more) refl)

-- A response with a status, whose fields fit their widths and whose sender context has eight bytes:
-- it is built, and from a buffer that starts with it the server's own framing takes its command,
-- session handle, sender context and payload, with options zero, and leaves the bytes behind it.
pub next_frame-build :
    (command session_handle status : ℕ) (sender_context payload more : Bytes)
    → command < 2 ^ 16
    → session_handle < 2 ^ 32
    → status < 2 ^ 32
    → length sender_context ≡ 8
    → length payload < 2 ^ 16
    → (response : Bytes) × (build_encapsulation_response command session_handle sender_context
          payload status
        ≡ ok response)
      × (next_frame (response ++ more)
          ≡ some (
            record {
              command = command;
              session_handle = session_handle;
              sender_context = sender_context;
              options = 0;
              payload = payload;
            },
            more,
          ))
unfolding stream
next_frame-build command session_handle status sender_context payload more hc hh hs hx hp = (
  response_bytes command session_handle sender_context payload status,
  build_encapsulation_response-ok command session_handle status sender_context payload hc hh hs hx
      hp,
  next_frame-response command session_handle status sender_context payload hc hh hs hx hp more,
)
