-- ===== src/Starter/Ready.antt =====
-- A BACnet emulator that can build its I-Am passes the readiness probe.
use cursus.Prelude.{
  suc, sym, ℕ, ◌+◌, ◌<◌, ◌^◌, ◌≡◌, refl, some, [], ◌∷◌, ◌++◌, arith, length, lt→ltb, true, take,
}
use cursus.Wire.{Result, ok, raised, Bytes, index, starts_with, big_endian, pack_big, byte, ◌>>=◌}
use cursus.Bacnet.Objects.{Floats, BacnetDevice, BacnetServer}
use cursus.Bacnet.Envelope.{framed_apdu}
use cursus.Bacnet.Encode.{
  encode_application_object_identifier, encode_application_unsigned, encode_application_enumerated,
}
use cursus.Bacnet.Requests.{parse_who_is_limits}
use cursus.Bacnet.Replies.{
  build_i_am_apdu, build_bvlc, frame_npdu, within_limits, handle_unconfirmed_request,
}
use cursus.Bacnet.Server.{handle_apdu, handle_datagram}
use cursus.Bacnet.Datagram.{client_datagram, enveloped, handle_datagram-client_datagram}
use cursus.Starter.Probe.{who_is_request, response_is_i_am}

who_is_request-local : client_datagram 0x00 (0x10 ∷ 0x08 ∷ []) ≡ who_is_request
unfolding big_endian client_datagram
who_is_request-local = refl

pack_big_two : (v : ℕ) → v < 65536 → pack_big 2 v ≡ ok (big_endian 2 v)
unfolding pack_big
pack_big_two v h = rw (lt→ltb v (256 ^ 2) h) refl

-- A reply stands in the frames of a request.
enveloped-ok :
    (apdu : Bytes)
    → length apdu < 65530
    → enveloped (some apdu) ≡ ok (some (client_datagram 0x00 apdu))
unfolding frame_npdu framed_apdu build_bvlc byte client_datagram
enveloped-ok apdu h =
    let e : 4 + suc (suc (length apdu)) ≡ 6 + length apdu = omega arith in
    rw (e, pack_big_two (6 + length apdu) (omega arith)) refl

headed : (a b c d : Result Bytes) → Result Bytes
headed a b c d = do
  object_identifier ← a
  max_apdu ← b
  segmentation ← c
  vendor_identifier ← d
  ok (
      (0x10 ∷ 0x00 ∷ [])
      ++ (object_identifier ++ (max_apdu ++ (segmentation ++ vendor_identifier))))

headed_starts :
    (a b c d : Result Bytes) (apdu : Bytes)
    → headed a b c d ≡ ok apdu
    → (rest : Bytes) × (apdu ≡ 0x10 ∷ 0x00 ∷ rest)
unfolding headed
headed_starts (raised e) b c d apdu h = absurd (cc)
headed_starts (ok a) (raised e) c d apdu h = absurd (cc)
headed_starts (ok a) (ok b) (raised e) d apdu h = absurd (cc)
headed_starts (ok a) (ok b) (ok c) (raised e) apdu h = absurd (cc)
headed_starts (ok a) (ok b) (ok c) (ok d) apdu h = (a ++ (b ++ (c ++ d)), cc)

build_i_am_apdu_starts :
    (device : BacnetDevice) (apdu : Bytes)
    → build_i_am_apdu device ≡ ok apdu
    → (rest : Bytes) × (apdu ≡ 0x10 ∷ 0x00 ∷ rest)
unfolding build_i_am_apdu headed
build_i_am_apdu_starts device apdu h =
    headed_starts (encode_application_object_identifier 8 device.instance_number)
      (encode_application_unsigned device.max_apdu_length_accepted)
      (encode_application_enumerated device.segmentation_supported)
      (encode_application_unsigned device.vendor_identifier) apdu h

response_is_i_am_reply :
    (rest : Bytes) → response_is_i_am (take 1024 (client_datagram 0x00 (0x10 ∷ 0x00 ∷ rest))) ≡ true
unfolding response_is_i_am client_datagram big_endian starts_with
response_is_i_am_reply rest = ground arith

module _ (fl : Floats) where
  open fl use {Float}

  handle_apdu-probe :
      (s : BacnetServer Float)
      → handle_apdu fl (0x10 ∷ 0x08 ∷ []) s
        ≡ ((build_i_am_apdu s.config.device >>= λ reply. ok (some reply)), s)
  unfolding handle_apdu handle_unconfirmed_request parse_who_is_limits within_limits index
  handle_apdu-probe s = refl

  -- A server whose I-Am can be built, in fewer than 65530 bytes: it answers the readiness probe, and
  -- the first 1024 bytes of the answer pass the starter's test; the server is as it was.
  pub handle_datagram-probe :
      (s : BacnetServer Float) (apdu : Bytes)
      → build_i_am_apdu s.config.device ≡ ok apdu
      → length apdu < 65530
      → (reply : Bytes) × (handle_datagram fl who_is_request s ≡ (ok (some reply), s))
        × (response_is_i_am (take 1024 reply) ≡ true)
  handle_datagram-probe s apdu h small =
      let (rest, starts) = build_i_am_apdu_starts s.config.device apdu h in
      let answered =
        handle_datagram-client_datagram fl 0x00 (0x10 ∷ 0x08 ∷ []) s
          (record { no_destination = refl; no_source = refl; no_message = refl }) (omega arith) in
      (
        client_datagram 0x00 apdu,
        rw (sym who_is_request-local, answered, handle_apdu-probe s, h, enveloped-ok apdu small)
            refl,
        rw starts (response_is_i_am_reply rest),
      )
