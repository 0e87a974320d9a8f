-- ===== src/Enip/Server.antt =====
-- `handle_frame` and the session methods of `EnipServer`. The set of a connection's sessions, which
-- Python passes by reference, is part of the state.
use cursus.Prelude.{ℕ, ◌+◌, not, Bool, Option, none, some, [], ◌∷◌, ◌==◌, if◌then◌else◌}
use cursus.Prelude.Dict.{lookup, put}
use cursus.Prelude.IntSet.{IntSet, member, add, discard, difference}
use cursus.Wire.{Result, ok, raised, key_error, Bytes}
use cursus.Wire.Exec.{Exec, lift, reads, ◌>>=◌}
use cursus.Enip.Objects.{EncapsulationFrame, EnipServer, Sockets}
use cursus.Enip.Identity.{pack_fields, build_list_services_payload, build_list_identity_payload}
use cursus.Enip.CipService.{handle_cip_request}
use cursus.Enip.Cpf.{parse_send_rr_data, wrap_cip_response}
use cursus.Enip.Encapsulation.{build_encapsulation_response, register_request_is_valid}

unfoldable pub set_assembly_data : ℕ → Bytes → EnipServer → EnipServer
set_assembly_data instance_number value s = record s {
  assemblies = put instance_number value s.assemblies;
}

unfoldable pub get_assembly_data : ℕ → EnipServer → Result Bytes
get_assembly_data instance_number s = elim (lookup instance_number s.assemblies) [
  | none ↦ raised key_error
  | some value ↦ ok value
]

-- An empty set returns at once, to the same effect.
unfoldable pub release_sessions : IntSet → EnipServer → EnipServer
release_sessions [] s = s
release_sessions (h ∷ sessions) s = record s {
  active_sessions = difference s.active_sessions (h ∷ sessions);
}

unfoldable pub session_is_active : ℕ → EnipServer → Bool
session_is_active session_handle s = member session_handle s.active_sessions

-- The server and the sessions of the connection that a frame came from.
pub record Attached : Type 0 where
  pub server : EnipServer
  pub sessions : IntSet

abbrev pub Action : Type 0 → Type 0
Action A = Exec Attached A

-- The locked part of `_handle_register_session`: it returns the new handle.
unfoldable pub open_session : Action ℕ
open_session a =
    let handle = a.server.next_session_handle in
    (
      ok handle,
      record {
        server = record a.server {
          next_session_handle = handle + 1;
          active_sessions = add handle a.server.active_sessions;
        };
        sessions = add handle a.sessions;
      },
    )

unfoldable pub handle_register_session : Bytes → Bytes → Action Bytes
handle_register_session sender_context payload = do
  valid ← lift (register_request_is_valid payload)
  if not valid then lift (build_encapsulation_response 0x0065 0 sender_context [] 0x0003) else (do
    session_handle ← open_session
    lift (build_encapsulation_response 0x0065 session_handle sender_context payload 0x0000))

unfoldable pub unregister_session : ℕ → Attached → Attached
unregister_session session_handle a = record {
  server = record a.server { active_sessions = discard session_handle a.server.active_sessions };
  sessions = discard session_handle a.sessions;
}

abbrev pub close_session : ℕ → Action (Option Bytes)
close_session session_handle a = (ok none, unregister_session session_handle a)

-- A method of the server alone.
abbrev pub on_server : {A : Type 0} → Exec EnipServer A → Action A
on_server m a = let (r, s) = m a.server in (r, record a { server = s })

unfoldable pub serve_item : Option (ℕ × Bytes) → Action (Option Bytes)
serve_item none = lift (ok none)
serve_item (some (timeout, cip_request)) = do
  cip_response ← on_server (handle_cip_request cip_request)
  reply ← lift (wrap_cip_response timeout cip_response)
  lift (ok (some reply))

unfoldable pub handle_send_rr_data : Bytes → Action (Option Bytes)
handle_send_rr_data payload = do parsed ← lift (parse_send_rr_data payload); serve_item parsed

-- The session handle, the payload and the status of a response.
abbrev pub Response : Type 0
Response = ℕ × Bytes × ℕ

unfoldable pub rr_data_response : ℕ → Option Bytes → Response
rr_data_response session_handle none = (session_handle, [], 0x0003)
rr_data_response session_handle (some reply) = (session_handle, reply, 0x0000)

unfoldable pub answer_send_rr_data : EncapsulationFrame → Action Response
answer_send_rr_data frame = do
  active ← reads (λ a. ok (session_is_active frame.session_handle a.server))
  if not active then lift (ok (frame.session_handle, [], 0x0064)) else (do
    cip_response ← handle_send_rr_data frame.payload
    lift (ok (rr_data_response frame.session_handle cip_response)))

module _ (net : Sockets) where
  -- The commands from ListServices on.
  unfoldable pub answer_command : EncapsulationFrame → Action Response
  answer_command frame =
      if frame.command == 0x0004
      then (do payload ← lift build_list_services_payload; lift (ok (0, payload, 0x0000)))
      else if frame.command == 0x0063
      then (do
        payload ← reads (λ a. build_list_identity_payload net a.server)
        lift (ok (0, payload, 0x0000)))
      else if frame.command == 0x0064
      then (do payload ← lift (pack_fields ((2, 0) ∷ [])); lift (ok (0, payload, 0x0000)))
      else if frame.command == 0x006f
      then answer_send_rr_data frame
      else lift (ok (frame.session_handle, [], 0x0001))

  unfoldable pub handle_frame : EncapsulationFrame → Action (Option Bytes)
  handle_frame frame =
      if not (frame.options == 0)
      then (do
        reply ← lift (
            build_encapsulation_response frame.command frame.session_handle frame.sender_context []
              0x0003)
        lift (ok (some reply)))
      else if frame.command == 0x0065
      then (do
        reply ← handle_register_session frame.sender_context frame.payload
        lift (ok (some reply)))
      else if frame.command == 0x0066
      then close_session frame.session_handle
      else (do
        (session_handle, payload, status) ← answer_command frame
        reply ← lift (
            build_encapsulation_response frame.command session_handle frame.sender_context payload
              status)
        lift (ok (some reply)))
