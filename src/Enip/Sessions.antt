-- ===== src/Enip/Sessions.antt =====
-- Session handles: who holds them, and that closed connections leave none behind.
use cursus.Prelude.{ℕ, ◌+◌, ◌≤◌, ◌≡◌, refl, Bool, Option, none, some, arith, ltb, if◌then◌else◌}
use cursus.Prelude.IntSet.{member, member-add, member-discard}
use cursus.Wire.{Bytes}
use cursus.Wire.Keeps.{Keeps, Keeps-bind, keeps_rules}
use cursus.Enip.Objects.{EncapsulationFrame, EnipServer, Sockets}
use cursus.Wire.Exec.{Exec}
use cursus.Enip.CipKeeps.{handle_cip_request-Keeps}
use cursus.Enip.CipService.{set_attribute, handle_cip_request}
use cursus.Enip.Server.{
  Attached, open_session, close_session, unregister_session, on_server, serve_item,
  handle_send_rr_data, answer_send_rr_data, answer_command, handle_register_session, handle_frame,
}

abbrev pub bit : Bool → ℕ
bit b = if b then 1 else 0

-- With `others` further holders: an active handle has a holder, and a held handle has one holder
-- and was given out.
pub record IsOwned (others h : ℕ) (a : Attached) : Type 0 where
  pub held : bit (member h a.server.active_sessions) ≤ others + bit (member h a.sessions)
  pub given : others + bit (member h a.sessions) ≤ bit (ltb h a.server.next_session_handle)

-- The sessions of a server are those of another.
record HasSessions (s : EnipServer) (s' : EnipServer) : Type 0 where
  same_active : s'.active_sessions ≡ s.active_sessions
  same_next : s'.next_session_handle ≡ s.next_session_handle

-- CIP services change no sessions.
module _ (s : EnipServer) where
  set_attribute-HasSessions :
      (class_code instance_number attribute : ℕ) (value : Bytes)
      → Keeps (HasSessions s) (set_attribute class_code instance_number attribute value)
  unfolding set_attribute
  set_attribute-HasSessions class_code instance_number attribute value = record {
    at = λ s' v. ground arith;
  }

  handle_cip_request-HasSessions :
      (request : Bytes) → Keeps (HasSessions s) (handle_cip_request request)
  handle_cip_request-HasSessions =
      handle_cip_request-Keeps (HasSessions s) set_attribute-HasSessions

module _ (others h : ℕ) where
  pub open_session-IsOwned : Keeps (IsOwned others h) open_session
  unfolding open_session
  open_session-IsOwned = record {
    at = λ a v. ground (
      arith,
      member-add h a.server.next_session_handle a.server.active_sessions,
      member-add h a.server.next_session_handle a.sessions,
    );
  }

  close_session-IsOwned : (handle : ℕ) → Keeps (IsOwned others h) (close_session handle)
  unfolding unregister_session
  close_session-IsOwned handle = record {
    at = λ a v. ground (
      arith,
      member-discard h handle a.server.active_sessions,
      member-discard h handle a.sessions,
    );
  }

  on_server-IsOwned :
      {A : Type 0} (m : Exec EnipServer A)
      → ((s : EnipServer) → Keeps (HasSessions s) m)
      → Keeps (IsOwned others h) (on_server m)
  on_server-IsOwned m k = record {
    at = λ a v.
        let same = (k a.server).at a.server (record { same_active = refl; same_next = refl }) in
        record { held = rw same.same_active v.held; given = rw same.same_next v.given };
  }

  serve_item-IsOwned : (item : Option (ℕ × Bytes)) → Keeps (IsOwned others h) (serve_item item)
  unfolding serve_item
  serve_item-IsOwned none = search keeps_rules
  serve_item-IsOwned (some (timeout, request)) =
      Keeps-bind _ _
        (on_server-IsOwned (handle_cip_request request)
          (λ s. handle_cip_request-HasSessions s request))
        (λ response. search keeps_rules)

  answer_send_rr_data-IsOwned :
      (frame : EncapsulationFrame) → Keeps (IsOwned others h) (answer_send_rr_data frame)
  unfolding answer_send_rr_data handle_send_rr_data
  answer_send_rr_data-IsOwned frame = search (keeps_rules, serve_item-IsOwned)

  handle_register_session-IsOwned :
      (context payload : Bytes) → Keeps (IsOwned others h) (handle_register_session context payload)
  unfolding handle_register_session
  handle_register_session-IsOwned context payload = search (keeps_rules, open_session-IsOwned)

  answer_command-IsOwned :
      (net : Sockets) (frame : EncapsulationFrame)
      → Keeps (IsOwned others h) (answer_command net frame)
  unfolding answer_command
  answer_command-IsOwned net frame = search (keeps_rules, answer_send_rr_data-IsOwned)

  -- Whatever the frame, handling it keeps every handle owned.
  pub handle_frame-IsOwned :
      (net : Sockets) (frame : EncapsulationFrame)
      → Keeps (IsOwned others h) (handle_frame net frame)
  unfolding handle_frame
  handle_frame-IsOwned net frame =
      search
        (
          keeps_rules, handle_register_session-IsOwned, close_session-IsOwned,
          answer_command-IsOwned,
        )
        depth 9
