-- ===== src/Starter/Names.antt =====
-- The names that `start_server` makes of the protocol, and the choice of the readiness probe.
-- `str.lower` and `str.capitalize` of other texts than ASCII are parameters.
use cursus.Prelude.{
  ℕ, ◌+◌, ◌-◌, ◌≡◌, refl, Bool, true, false, ◌&&◌, [], ◌∷◌, ◌++◌, leb, if◌then◌else◌, arith,
}
use cursus.Wire.{Result, ok, raised, os_error, Bytes, Text}
use cursus.Wire.Texts.{text, text_eq}
use cursus.Starter.Probe.{response_is_i_am}

pub record Unicode : Type 0 where
  pub other_lower : Text → Text
  pub other_capitalize : Text → Text

abbrev lower_char : ℕ → ℕ
lower_char c = if leb 65 c && leb c 90 then c + 32 else c

abbrev upper_char : ℕ → ℕ
upper_char c = if leb 97 c && leb c 122 then c - 32 else c

unfoldable pub is_ascii : Text → Bool
is_ascii [] = true
is_ascii (c ∷ t) = leb c 127 && is_ascii t

unfoldable pub lower_chars : Text → Text
lower_chars [] = []
lower_chars (c ∷ t) = lower_char c ∷ lower_chars t

abbrev pub capitalize_chars : Text → Text
unfolding lower_chars
capitalize_chars [] = []
capitalize_chars (c ∷ t) = upper_char c ∷ lower_chars t

-- What `_is_server_ready` finds: how `create_connection` ends, and what `recvfrom` returns.
pub record Endpoint : Type 0 where
  pub connection : Result (Unit {0})
  pub response : Result Bytes

unfoldable pub is_tcp_server_ready : Endpoint → Result Bool
is_tcp_server_ready endpoint = elim endpoint.connection [
  | ok _ ↦ ok true
  | raised os_error ↦ ok false
  | raised e ↦ raised e
]

unfoldable pub is_bacnet_server_ready : Endpoint → Result Bool
is_bacnet_server_ready endpoint = elim endpoint.response [
  | ok response ↦ ok (response_is_i_am response)
  | raised os_error ↦ ok false
  | raised e ↦ raised e
]

module _ (unicode : Unicode) where
  open unicode use {other_lower, other_capitalize}

  unfoldable pub lower : Text → Text
  unfolding is_ascii lower_chars
  lower t = if is_ascii t then lower_chars t else other_lower t

  unfoldable pub capitalize : Text → Text
  unfolding is_ascii
  capitalize t = if is_ascii t then capitalize_chars t else other_capitalize t

  -- `module_name` and `class_name`
  unfoldable pub server_names : Text → Text × Text
  server_names protocol =
      let name = lower protocol in
      (text "cursus." ++ (name ++ text ".server"), capitalize name ++ text "Server")

  unfoldable pub is_server_ready : Text → Endpoint → Result Bool
  is_server_ready protocol endpoint =
      if text_eq (lower protocol) (text "bacnet")
      then is_bacnet_server_ready endpoint
      else is_tcp_server_ready endpoint

lower_chars-ascii : (t : Text) → is_ascii t ≡ true → is_ascii (lower_chars t) ≡ true
unfolding is_ascii lower_chars
lower_chars-ascii [] h = refl
lower_chars-ascii (c ∷ t) h = ground (arith, lower_chars-ascii t)

lower_chars_twice : (t : Text) → lower_chars (lower_chars t) ≡ lower_chars t
unfolding lower_chars
lower_chars_twice [] = refl
lower_chars_twice (c ∷ t) = ground (arith, lower_chars_twice t)

-- A protocol in ASCII letters of any case names the same module and the same class as in lower case,
-- and is probed in the same way.
server_names-lower :
    (unicode : Unicode) (protocol : Text)
    → is_ascii protocol ≡ true
    → (server_names unicode (lower unicode protocol) ≡ server_names unicode protocol)
      × ((endpoint : Endpoint)
          → is_server_ready unicode (lower unicode protocol) endpoint
            ≡ is_server_ready unicode protocol endpoint)
unfolding server_names is_server_ready lower
server_names-lower unicode protocol h =
    simp (h, lower_chars-ascii protocol h, lower_chars_twice protocol) (refl, λ endpoint. refl)
