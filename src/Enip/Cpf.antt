-- ===== src/Enip/Cpf.antt =====
-- `_handle_send_rr_data`: the common packet format around a CIP request.
use cursus.Prelude.{
  ℕ, zero, suc, ◌+◌, true, false, not, Option, none, some, [], ◌∷◌, ◌++◌, ltb, ◌==◌, length,
  if◌then◌else◌,
}
use cursus.Wire.{Result, ok, ◌>>=◌, Bytes, slice}
use cursus.Enip.Objects.{unpack_from}
use cursus.Enip.Identity.{pack_fields}

-- The loop over the items: the data of the last unconnected item, `none` where an item is cut short.
unfoldable pub cpf_items : ℕ → Bytes → ℕ → Option Bytes → Result (Option (Option Bytes))
cpf_items zero payload offset cip_request = ok (some cip_request)
cpf_items (suc item_count) payload offset cip_request = elim (ltb (length payload) (offset + 4)) [
  | true ↦ ok none
  | false ↦ (do
    item_type ← unpack_from 2 payload offset
    item_length ← unpack_from 2 payload (offset + 2)
    let start = offset + 4
    let item_data = slice payload start (start + item_length)
    elim (ltb (length payload) (start + item_length)) [
      | true ↦ ok none
      | false ↦
          cpf_items item_count payload (start + item_length)
            (if item_type == 0x00b2 then some item_data else cip_request)
    ])
]

-- The timeout and the CIP request, `none` where the method returns None before it handles one.
unfoldable pub parse_send_rr_data : Bytes → Result (Option (ℕ × Bytes))
parse_send_rr_data payload = if ltb (length payload) 8 then ok none else (do
  interface_handle ← unpack_from 4 payload 0
  timeout ← unpack_from 2 payload 4
  item_count ← unpack_from 2 payload 6
  if not (interface_handle == 0) then ok none else (do
    items ← cpf_items item_count payload 8 none
    elim items [
      | none ↦ ok none
      | some found ↦ elim found [
        | none ↦ ok none
        | some cip_request ↦ ok (some (timeout, cip_request))
      ]
    ]))

-- The payload around a CIP response.
unfoldable pub wrap_cip_response : ℕ → Bytes → Result Bytes
wrap_cip_response timeout cip_response = do
  head ← pack_fields ((4, 0) ∷ (2, timeout) ∷ (2, 2) ∷ [])
  address_item ← pack_fields ((2, 0x0000) ∷ (2, 0) ∷ [])
  data_item ← pack_fields ((2, 0x00b2) ∷ (2, length cip_response) ∷ [])
  ok (head ++ (address_item ++ (data_item ++ cip_response)))
