-- ===== src/Bacnet/Datagram.antt =====
-- A datagram as a client frames it: what the layers of `handle_datagram` make of it.
use Prim.Native.Nat.{bit_and}
use cursus.Prelude.{
  ℕ, ◌+◌, ◌<◌, ◌≡◌, refl, Option, some, ◌∷◌, ◌++◌, arith, length, length-append, drop, take, true,
  suc, le→ltb,
}
use cursus.Wire.{Result, ok, raised, Bytes, index, big_endian, slice, from_big}
use cursus.Wire.Ints.{length-big_endian, from_big-big_endian}
use cursus.Wire.Exec.{lift, proceed, ◌>>=◌}
use cursus.Bacnet.Objects.{Floats, BacnetServer}
use cursus.Bacnet.Envelope.{accepts_bvlc, locate_apdu, skip_destination, skip_source, framed_apdu}
use cursus.Bacnet.Replies.{frame_npdu}
use cursus.Bacnet.Server.{handle_apdu, handle_npdu, handle_datagram}

-- An NPDU control byte that announces no destination, no source and no network message.
pub record IsLocal (control : ℕ) : Type 0 where
  pub no_destination : bit_and control 0x20 ≡ 0
  pub no_source : bit_and control 0x08 ≡ 0
  pub no_message : bit_and control 0x80 ≡ 0

-- An APDU in a unicast BVLC frame.
unfoldable pub client_datagram : ℕ → Bytes → Bytes
client_datagram control apdu =
    0x81 ∷ 0x0a ∷ (big_endian 2 (6 + length apdu) ++ 0x01 ∷ control ∷ apdu)

-- The datagram that carries a response.
abbrev pub enveloped : Option Bytes → Result (Option Bytes)
enveloped response = frame_npdu (framed_apdu response)

two_frames :
    {S : Type 0} (r : Result (Option Bytes)) (s : S)
    → (let inner = proceed {S = S} r (λ response. lift (ok (framed_apdu response))) s in
        proceed inner.0 (λ npdu. lift (frame_npdu npdu)) inner.1)
      ≡ proceed r (λ response. lift (enveloped response)) s
two_frames (ok response) s = refl
two_frames (raised e) s = refl

drop-big_endian_two : (v : ℕ) (rest : Bytes) → drop 2 (big_endian 2 v ++ rest) ≡ rest
unfolding big_endian
drop-big_endian_two v rest = refl

take-big_endian_two : (v : ℕ) (rest : Bytes) → take 2 (big_endian 2 v ++ rest) ≡ big_endian 2 v
unfolding big_endian
take-big_endian_two v rest = refl

length-client_datagram :
    (control : ℕ) (apdu : Bytes) → length (client_datagram control apdu) ≡ 6 + length apdu
unfolding client_datagram
length-client_datagram control apdu = omega (
  arith,
  length-append (big_endian 2 (6 + length apdu)) (0x01 ∷ control ∷ apdu),
  length-big_endian 2 (6 + length apdu),
)

first_bytes :
    (control : ℕ) (apdu : Bytes)
    → (index (client_datagram control apdu) 0 ≡ ok 0x81)
      × (index (client_datagram control apdu) 1 ≡ ok 0x0a)
unfolding client_datagram index
first_bytes control apdu = (refl, refl)

length_field :
    (control : ℕ) (apdu : Bytes)
    → length apdu < 65530
    → from_big (slice (client_datagram control apdu) 2 4) ≡ 6 + length apdu
unfolding client_datagram
length_field control apdu h =
    let v = 6 + length apdu in
    rw (take-big_endian_two v (0x01 ∷ control ∷ apdu)) (from_big-big_endian 2 v (omega arith))

drop_headers :
    (control : ℕ) (apdu : Bytes) → drop 4 (client_datagram control apdu) ≡ 0x01 ∷ control ∷ apdu
unfolding client_datagram
drop_headers control apdu = drop-big_endian_two (6 + length apdu) (0x01 ∷ control ∷ apdu)

accepts_bvlc-client_datagram :
    (control : ℕ) (apdu : Bytes)
    → length apdu < 65530
    → accepts_bvlc (client_datagram control apdu) ≡ ok true
unfolding accepts_bvlc
accepts_bvlc-client_datagram control apdu h =
    let (kind, function) = first_bytes control apdu in
    rw (length_field control apdu h, length-client_datagram control apdu, kind, function)
      (ground arith)

locate_apdu-local :
    (control : ℕ) (apdu : Bytes)
    → IsLocal control
    → locate_apdu (0x01 ∷ control ∷ apdu) ≡ ok (some 2)
unfolding locate_apdu skip_destination skip_source index
locate_apdu-local control apdu h = rw (h.no_destination, h.no_source, h.no_message) (ground arith)

module _ (fl : Floats) where
  open fl use {Float}

  handle_npdu-local :
      (control : ℕ) (apdu : Bytes) (s : BacnetServer Float)
      → IsLocal control
      → handle_npdu fl (0x01 ∷ control ∷ apdu) s
        ≡ (handle_apdu fl apdu >>= λ response. lift (ok (framed_apdu response))) s
  unfolding handle_npdu index
  handle_npdu-local control apdu s h =
      rw (le→ltb (suc (suc (length apdu))) 2 (omega arith), locate_apdu-local control apdu h)

  -- A frame with a local NPDU: the datagram is answered as its APDU is, in a frame.
  pub handle_datagram-client_datagram :
      (control : ℕ) (apdu : Bytes) (s : BacnetServer Float)
      → IsLocal control
      → length apdu < 65530
      → handle_datagram fl (client_datagram control apdu) s
        ≡ (handle_apdu fl apdu >>= λ response. lift (enveloped response)) s
  unfolding handle_datagram
  handle_datagram-client_datagram control apdu s h hl =
      rw
        (
          accepts_bvlc-client_datagram control apdu hl,
          drop_headers control apdu,
          handle_npdu-local control apdu s h,
        )
        (two_frames (handle_apdu fl apdu s).0 (handle_apdu fl apdu s).1)
