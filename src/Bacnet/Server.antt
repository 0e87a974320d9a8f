-- ===== src/Bacnet/Server.antt =====
-- The methods of `BacnetServer` on the way of a datagram, and those that write a present value.
use Prim.Native.Nat.{bit_and}
use cursus.Prelude.{
  ℕ, Bool, true, false, not, ◌||◌, Option, none, some, [], ◌∷◌, ◌++◌, ltb, ◌==◌, length, drop,
  if◌then◌else◌,
}
use cursus.Prelude.Dict.{lookup, put}
use cursus.Wire.{ok, raised, key_error, Bytes, byte, index}
use cursus.Wire.Exec.{Exec, lift, reads, ◌>>=◌}
use cursus.Bacnet.Objects.{Floats, BacnetServer}
use cursus.Bacnet.Decode.{decode_application_real}
use cursus.Bacnet.Requests.{parse_write_property_request}
use cursus.Bacnet.Envelope.{accepts_bvlc, locate_apdu, framed_apdu}
use cursus.Bacnet.Replies.{handle_unconfirmed_request, handle_read_property, frame_npdu}

module _ (fl : Floats) where
  open fl use {Float}

  abbrev pub Action : Type 0 → Type 0
  Action A = Exec (BacnetServer Float) A

  unfoldable pub get_present_value : ℕ → Action Float
  get_present_value instance_number s = (
    elim (lookup instance_number s.analog_values) [
      | none ↦ raised key_error
      | some value ↦ ok value.present_value
    ],
    s,
  )

  -- `self._analog_values[instance].present_value = value`
  unfoldable pub store_present_value : ℕ → Float → BacnetServer Float → BacnetServer Float
  store_present_value instance_number v s = elim (lookup instance_number s.analog_values) [
    | none ↦ s
    | some value ↦ record s {
      analog_values = put instance_number (record value { present_value = v }) s.analog_values;
    }
  ]

  unfoldable pub set_present_value : ℕ → Float → Action (Unit {0})
  set_present_value instance_number v s = elim (lookup instance_number s.analog_values) [
    | none ↦ (raised key_error, s)
    | some _ ↦ (ok tt, store_present_value instance_number v s)
  ]

  unfoldable pub write_property : ℕ → ℕ → ℕ → Bytes → Action Bool
  write_property object_type instance_number property property_value =
      if not (object_type == 2) || not (property == 85) then lift (ok false) else (do
        decoded_value ← lift (decode_application_real fl property_value)
        elim decoded_value [
          | none ↦ lift (ok false)
          | some v ↦ λ s. elim (lookup instance_number s.analog_values) [
            | none ↦ (ok false, s)
            | some _ ↦ (ok true, store_present_value instance_number v s)
          ]
        ])

  unfoldable pub handle_write_property : ℕ → Bytes → Action (Option Bytes)
  handle_write_property invoke_id payload = do
    parsed ← lift (parse_write_property_request payload)
    elim parsed [
      | none ↦ lift (ok none)
      | some (object_type, instance_number, property, property_value) ↦ (do
        written ← write_property object_type instance_number property property_value
        if not written then lift (ok none) else (do
          invoke ← lift (byte invoke_id)
          lift (ok (some (0x20 ∷ (invoke ++ 0x0f ∷ []))))))
    ]

  unfoldable pub handle_confirmed_request : Bytes → Action (Option Bytes)
  handle_confirmed_request apdu = if ltb (length apdu) 4 then lift (ok none) else (do
    invoke_id ← lift (index apdu 2)
    service_choice ← lift (index apdu 3)
    if service_choice == 0x0c
        then reads (λ s. handle_read_property fl s invoke_id (drop 4 apdu))
        else if service_choice == 0x0f
        then handle_write_property invoke_id (drop 4 apdu)
        else lift (ok none))

  unfoldable pub handle_apdu : Bytes → Action (Option Bytes)
  handle_apdu apdu = if ltb (length apdu) 2 then lift (ok none) else (do
    first ← lift (index apdu 0)
    let pdu_type = bit_and first 0xf0
    if pdu_type == 0x10
        then reads (λ s. handle_unconfirmed_request s.config.device apdu)
        else if pdu_type == 0x00
        then handle_confirmed_request apdu
        else lift (ok none))

  unfoldable pub handle_npdu : Bytes → Action (Option Bytes)
  handle_npdu npdu = if ltb (length npdu) 2 then lift (ok none) else (do
    version ← lift (index npdu 0)
    if not (version == 0x01) then lift (ok none) else (do
      apdu_offset ← lift (locate_apdu npdu)
      elim apdu_offset [
        | none ↦ lift (ok none)
        | some offset ↦ (do
          response_apdu ← handle_apdu (drop offset npdu)
          lift (ok (framed_apdu response_apdu)))
      ]))

  unfoldable pub handle_datagram : Bytes → Action (Option Bytes)
  handle_datagram payload = do
    accepted ← lift (accepts_bvlc payload)
    if not accepted
        then lift (ok none)
        else (do response_npdu ← handle_npdu (drop 4 payload); lift (frame_npdu response_npdu))
