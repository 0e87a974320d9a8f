-- ===== src/Starter/Probe.antt =====
-- The readiness probe for BACnet/IP: the request of `_is_bacnet_server_ready` and its test of the
-- response.
use cursus.Prelude.{Bool, ◌&&◌, [], ◌∷◌, length, leb}
use cursus.Wire.{Bytes, slice, starts_with}

-- `_BACNET_IP_WHO_IS_REQUEST`
abbrev pub who_is_request : Bytes
who_is_request = 0x81 ∷ 0x0a ∷ 0x00 ∷ 0x08 ∷ 0x01 ∷ 0x00 ∷ 0x10 ∷ 0x08 ∷ []

-- The slice is compared with the two bytes of the I-Am header, which a shorter slice does not equal.
unfoldable pub response_is_i_am : Bytes → Bool
response_is_i_am response =
    starts_with (0x81 ∷ 0x0a ∷ []) response
    && (leb 8 (length response) && starts_with (0x10 ∷ 0x00 ∷ []) (slice response 6 8))
