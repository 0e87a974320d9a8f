-- ===== src/Bacnet/WhoIs.antt =====
-- Who-Is, from the datagram to the I-Am.
use cursus.Prelude.{
  ◌==◌, Bool, ℕ, ◌+◌, ◌≤◌, ◌<◌, ◌^◌, ◌≡◌, refl, Option, none, some, [], ◌∷◌, ◌++◌, ◌&&◌,
  append_assoc, append-nil, arith, length, length-append, if◌then◌else◌, leb, le→ltb, false, true,
  Bool-cases, inl, inr,
}
use cursus.Wire.{Result, ok, raised, Bytes, index, ◌>>=◌}
use cursus.Bacnet.Objects.{Floats, BacnetDevice, BacnetServer}
use cursus.Bacnet.Requests.{parse_who_is_limits}
use cursus.Wire.Exec.{proceed, lift}
use cursus.Bacnet.Envelope.{framed_apdu}
use cursus.Bacnet.Replies.{frame_npdu, build_i_am_apdu, within_limits, handle_unconfirmed_request}
use cursus.Bacnet.Decode.{decode_application_unsigned}
use cursus.Bacnet.Numbers.{unsigned_bytes, from_big-unsigned_bytes}
use cursus.Bacnet.RoundTrip.{length-unsigned_bytes_le}
use cursus.Bacnet.Tags.{header_bytes, decode_application_unsigned-tagged}
use cursus.Bacnet.Server.{handle_apdu, handle_datagram}
use cursus.Bacnet.Datagram.{IsLocal, client_datagram, enveloped, handle_datagram-client_datagram}

-- A number under its application tag, as `_encode_application_unsigned` writes it.
unfoldable pub application_unsigned : ℕ → Bytes
application_unsigned v = header_bytes 2 false (length (unsigned_bytes v)) ++ unsigned_bytes v

decode_application_unsigned-ok :
    (front rest : Bytes) (v : ℕ)
    → v < 2 ^ 32
    → decode_application_unsigned (front ++ (application_unsigned v ++ rest)) (length front)
      ≡ ok (some v, length front + length (application_unsigned v))
unfolding application_unsigned
decode_application_unsigned-ok front rest v h = rw (
  append_assoc (header_bytes 2 false (length (unsigned_bytes v))) (unsigned_bytes v) rest,
  decode_application_unsigned-tagged front (unsigned_bytes v) rest
      (omega (arith, length-unsigned_bytes_le 4 v)),
  from_big-unsigned_bytes,
)

length-application_unsigned :
    (v : ℕ) → v < 2 ^ 32 → 0 < length (application_unsigned v) × length (application_unsigned v) ≤ 6
unfolding application_unsigned header_bytes
length-application_unsigned v h = (
  ground
      (arith, length-append (header_bytes 2 false (length (unsigned_bytes v))) (unsigned_bytes v)),
  ground (
    arith,
    length-append (header_bytes 2 false (length (unsigned_bytes v))) (unsigned_bytes v),
    length-unsigned_bytes_le 4 v,
  ),
)

-- The APDU of a Who-Is with both limits.
abbrev pub who_is_apdu : ℕ → ℕ → Bytes
who_is_apdu lower upper = 0x10 ∷ 0x08 ∷ (application_unsigned lower ++ application_unsigned upper)

parse_who_is_limits-ok :
    (lower upper : ℕ)
    → lower < 2 ^ 32
    → upper < 2 ^ 32
    → parse_who_is_limits (application_unsigned lower ++ application_unsigned upper)
      ≡ ok (some lower, some upper)
unfolding parse_who_is_limits
parse_who_is_limits-ok lower upper hl hu =
    let l = application_unsigned lower in
    let u = application_unsigned upper in
    let first = decode_application_unsigned-ok [] u lower hl in
    let second = rw append-nil at (decode_application_unsigned-ok l [] upper hu) in
    let start : 0 + length l ≡ length l = omega arith in
    let whole : (length (l ++ u) == 0) ≡ false =
      ground (arith, length-append l u, (length-application_unsigned lower hl).0) in
    rw (whole, first, start, second) refl

within_limits_lem :
    (lower upper device : ℕ)
    → within_limits (some lower) (some upper) device ≡ (leb lower device && leb device upper)
unfolding within_limits
within_limits_lem lower upper device = ground arith

module _ (fl : Floats) where
  open fl use {Float}

  handle_apdu-who_is :
      (lower upper : ℕ) (s : BacnetServer Float)
      → lower < 2 ^ 32
      → upper < 2 ^ 32
      → handle_apdu fl (who_is_apdu lower upper) s
        ≡ (handle_unconfirmed_request s.config.device (who_is_apdu lower upper), s)
  unfolding handle_apdu index
  handle_apdu-who_is lower upper s hl hu =
      rw (le→ltb (length (who_is_apdu lower upper)) 2 (omega arith)) refl

  handle_unconfirmed_request-who_is :
      (lower upper : ℕ) (device : BacnetDevice)
      → lower < 2 ^ 32
      → upper < 2 ^ 32
      → handle_unconfirmed_request device (who_is_apdu lower upper) ≡ (
          if leb lower device.instance_number && leb device.instance_number upper
          then (build_i_am_apdu device >>= λ reply. ok (some reply))
          else ok none)
  unfolding handle_unconfirmed_request index
  handle_unconfirmed_request-who_is lower upper device hl hu =
      elim (Bool-cases (leb lower device.instance_number && leb device.instance_number upper)) [
        | inl e ↦
            rw
              (
                parse_who_is_limits-ok lower upper hl hu,
                within_limits_lem lower upper device.instance_number,
                e,
              )
              refl
        | inr e ↦
            rw
              (
                parse_who_is_limits-ok lower upper hl hu,
                within_limits_lem lower upper device.instance_number,
                e,
              )
              refl
      ]

  -- The I-Am of the device in a frame, for limits that enclose its instance.
  abbrev pub who_is_reply : ℕ → ℕ → BacnetServer Float → Result (Option Bytes)
  who_is_reply lower upper s =
      if leb lower s.config.device.instance_number && leb s.config.device.instance_number upper
      then (do reply ← build_i_am_apdu s.config.device; enveloped (some reply))
      else ok none

  -- A Who-Is datagram with both limits below 2 ^ 32: if the limits enclose the device's instance,
  -- the result is that of building the I-Am of the device and its frames, and if they do not, there
  -- is no reply; the server is as it was.
  pub handle_datagram-who_is :
      (s : BacnetServer Float) (control lower upper : ℕ)
      → IsLocal control
      → lower < 2 ^ 32
      → upper < 2 ^ 32
      → handle_datagram fl (client_datagram control (who_is_apdu lower upper)) s
        ≡ (who_is_reply lower upper s, s)
  unfolding frame_npdu framed_apdu
  handle_datagram-who_is s control lower upper local hl hu =
      let small : length (who_is_apdu lower upper) < 65530 = omega (
        arith,
        length-append (application_unsigned lower) (application_unsigned upper),
        (length-application_unsigned lower hl).1,
        (length-application_unsigned upper hu).1,
      ) in
      rw
        (
          handle_datagram-client_datagram fl control (who_is_apdu lower upper) s local small,
          handle_apdu-who_is lower upper s hl hu,
          handle_unconfirmed_request-who_is lower upper s.config.device hl hu,
        )
        (framed
          (leb lower s.config.device.instance_number && leb s.config.device.instance_number upper)
          (build_i_am_apdu s.config.device))
    where
      framed :
          (b : Bool) (r : Result Bytes)
          → proceed
              (if b then (r >>= λ reply. ok (some reply)) else ok none)
              (λ response. lift (enveloped response))
              s
            ≡ ((if b then (r >>= λ reply. enveloped (some reply)) else ok none), s)
      framed true (ok reply) = refl
      framed true (raised e) = refl
      framed false r = refl
