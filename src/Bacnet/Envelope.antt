-- ===== src/Bacnet/Envelope.antt =====
-- The layers around an APDU: which BVLC frames `handle_datagram` accepts, and where `_handle_npdu`
-- finds the APDU and what it puts before the response.
use Prim.Native.Nat.{bit_and}
use cursus.Prelude.{
  ℕ, ◌+◌, Bool, false, not, ◌||◌, Option, none, some, [], ◌∷◌, ◌++◌, ltb, ◌==◌, length,
  if◌then◌else◌,
}
use cursus.Wire.{Result, ok, ◌>>=◌, Bytes, index, slice, from_big}

-- The guards of `handle_datagram`, in their order.
unfoldable pub accepts_bvlc : Bytes → Result Bool
accepts_bvlc payload = if ltb (length payload) 4 then ok false else (do
  bvlc_type ← index payload 0
  if not (bvlc_type == 0x81) then ok false else (do
    bvlc_function ← index payload 1
    if not (bvlc_function == 0x0a || bvlc_function == 0x0b)
        then ok false
        else ok (from_big (slice payload 2 4) == length payload)))

-- `if control & 0x20: …`
unfoldable pub skip_destination : Bytes → ℕ → ℕ → Result (Option ℕ)
skip_destination npdu control offset =
    if bit_and control 0x20 == 0
    then ok (some offset)
    else (if ltb (length npdu) (offset + 3) then ok none else (do
      destination_length ← index npdu (offset + 2)
      ok (some (offset + (3 + destination_length + 1)))))

-- `if control & 0x08: …`
unfoldable pub skip_source : Bytes → ℕ → ℕ → Result (Option ℕ)
skip_source npdu control offset =
    if bit_and control 0x08 == 0
    then ok (some offset)
    else (if ltb (length npdu) (offset + 3)
        then ok none
        else (do source_length ← index npdu (offset + 2); ok (some (offset + (3 + source_length)))))

-- The offset of the APDU, `none` where the NPDU is too short.
unfoldable pub locate_apdu : Bytes → Result (Option ℕ)
locate_apdu npdu = do
  control ← index npdu 1
  after_destination ← skip_destination npdu control 2
  elim after_destination [
    | none ↦ ok none
    | some offset ↦ (do
      after_source ← skip_source npdu control offset
      elim after_source [
        | none ↦ ok none
        | some offset' ↦
            (let apdu_offset = if bit_and control 0x80 == 0 then offset' else offset' + 1 in
              if ltb (length npdu) apdu_offset then ok none else ok (some apdu_offset))
      ])
  ]

unfoldable pub framed_apdu : Option Bytes → Option Bytes
framed_apdu none = none
framed_apdu (some response_apdu) = some ((0x01 ∷ 0x00 ∷ []) ++ response_apdu)
