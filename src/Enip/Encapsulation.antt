-- ===== src/Enip/Encapsulation.antt =====
-- The encapsulation header, `struct.Struct("<HHII8sI")`, and the payload of RegisterSession.
use cursus.Prelude.{
  ℕ, ◌+◌, not, ◌&&◌, Bool, false, Option, none, some, [], ◌∷◌, ◌++◌, ltb, ◌==◌, length, drop,
  if◌then◌else◌,
}
use cursus.Wire.{Result, ok, ◌>>=◌, Bytes, slice, from_little}
use cursus.Enip.Objects.{EncapsulationFrame, unpack_from, pack_string}
use cursus.Enip.Identity.{pack_fields}

unfoldable pub build_encapsulation_response : ℕ → ℕ → Bytes → Bytes → ℕ → Result Bytes
build_encapsulation_response command session_handle sender_context payload status = do
  head ← pack_fields ((2, command) ∷ (2, length payload) ∷ (4, session_handle) ∷ (4, status) ∷ [])
  options ← pack_fields ((4, 0) ∷ [])
  ok (head ++ (pack_string 8 sender_context ++ (options ++ payload)))

-- The two tests of `_handle_register_session`.
unfoldable pub register_request_is_valid : Bytes → Result Bool
register_request_is_valid payload = if not (length payload == 4) then ok false else (do
  protocol_version ← unpack_from 2 payload 0
  option_flags ← unpack_from 2 payload 2
  ok (protocol_version == 1 && option_flags == 0))

-- The field of `n` bytes at an offset of a buffer that holds a whole header.
abbrev field_at : ℕ → Bytes → ℕ → ℕ
field_at n buffer offset = from_little (slice buffer offset (offset + n))

-- The first frame of a buffer and the bytes behind it; `none` while the frame is not complete.
unfoldable pub next_frame : Bytes → Option (EncapsulationFrame × Bytes)
next_frame buffer =
    if ltb (length buffer) 24
    then none
    else (let frame_size = 24 + field_at 2 buffer 2 in
        if ltb (length buffer) frame_size
        then none
        else some (
          record {
            command = field_at 2 buffer 0;
            session_handle = field_at 4 buffer 4;
            sender_context = slice buffer 12 20;
            options = field_at 4 buffer 20;
            payload = slice buffer 24 frame_size;
          },
          drop frame_size buffer,
        ))
