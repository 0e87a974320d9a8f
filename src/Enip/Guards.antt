-- ===== src/Enip/Guards.antt =====
-- What a frame cannot change: assemblies without an active session, and the rest of the server.
use cursus.Prelude.{
  Bool-cases, inl, inr, ℕ, ◌≡◌, refl, true, false, Option, none, some, ◌==◌, arith, if◌then◌else◌,
}
use cursus.Prelude.Dict.{has_key, has_key-put}
use cursus.Prelude.IntSet.{member-discard, IntSet, member}
use cursus.Wire.{Bytes}
use cursus.Wire.Exec.{Exec}
use cursus.Wire.Keeps.{Keeps, Keeps-bind, keeps_rules}
use cursus.Enip.Objects.{EncapsulationFrame, EnipServer, Sockets}
use cursus.Enip.CipKeeps.{handle_cip_request-Keeps}
use cursus.Enip.CipService.{set_attribute, handle_cip_request}
use cursus.Enip.Server.{
  Attached, Action, open_session, close_session, unregister_session, on_server, serve_item,
  handle_send_rr_data, answer_send_rr_data, answer_command, handle_register_session, handle_frame,
  session_is_active,
}

-- The server has the address, the configuration and the assembly instances of another.
pub record IsSameDevice (s s' : EnipServer) : Type 0 where
  pub same_ip : s'.ip ≡ s.ip
  pub same_port : s'.port ≡ s.port
  pub same_config : s'.config ≡ s.config
  pub same_instances : (i : ℕ) → has_key i s'.assemblies ≡ has_key i s.assemblies

module _ (s : EnipServer) where
  set_attribute-IsSameDevice :
      (class_code instance_number attribute : ℕ) (value : Bytes)
      → Keeps (IsSameDevice s) (set_attribute class_code instance_number attribute value)
  unfolding set_attribute
  set_attribute-IsSameDevice class_code instance_number attribute value = record {
    at = λ s' v. record {
      same_ip = ground (arith, v.same_ip);
      same_port = ground (arith, v.same_port);
      same_config = ground (arith, v.same_config);
      same_instances = λ i.
          ground (arith, v.same_instances i, has_key-put instance_number i value s'.assemblies);
    };
  }

  handle_cip_request-IsSameDevice :
      (request : Bytes) → Keeps (IsSameDevice s) (handle_cip_request request)
  handle_cip_request-IsSameDevice =
      handle_cip_request-Keeps (IsSameDevice s) set_attribute-IsSameDevice

-- A connection's server is the same device.
record Serves (s : EnipServer) (a : Attached) : Type 0 where
  device : IsSameDevice s a.server

module _ (s : EnipServer) where
  open_session-Serves : Keeps (Serves s) open_session
  unfolding open_session
  open_session-Serves = record {
    at = λ a v. record {
      device = record {
        same_ip = v.device.same_ip;
        same_port = v.device.same_port;
        same_config = v.device.same_config;
        same_instances = v.device.same_instances;
      };
    };
  }

  close_session-Serves : (handle : ℕ) → Keeps (Serves s) (close_session handle)
  unfolding unregister_session
  close_session-Serves handle = record {
    at = λ a v. record {
      device = record {
        same_ip = v.device.same_ip;
        same_port = v.device.same_port;
        same_config = v.device.same_config;
        same_instances = v.device.same_instances;
      };
    };
  }

  on_server-Serves :
      {A : Type 0} (m : Exec EnipServer A)
      → Keeps (IsSameDevice s) m
      → Keeps (Serves s) (on_server m)
  on_server-Serves m k = record { at = λ a v. record { device = k.at a.server v.device } }

  serve_item-Serves : (item : Option (ℕ × Bytes)) → Keeps (Serves s) (serve_item item)
  unfolding serve_item
  serve_item-Serves none = search keeps_rules
  serve_item-Serves (some (timeout, request)) =
      Keeps-bind _ _
        (on_server-Serves (handle_cip_request request) (handle_cip_request-IsSameDevice s request))
        (λ response. search keeps_rules)

  answer_send_rr_data-Serves :
      (frame : EncapsulationFrame) → Keeps (Serves s) (answer_send_rr_data frame)
  unfolding answer_send_rr_data handle_send_rr_data
  answer_send_rr_data-Serves frame = search (keeps_rules, serve_item-Serves)

  handle_register_session-Serves :
      (context payload : Bytes) → Keeps (Serves s) (handle_register_session context payload)
  unfolding handle_register_session
  handle_register_session-Serves context payload = search (keeps_rules, open_session-Serves)

  answer_command-Serves :
      (net : Sockets) (frame : EncapsulationFrame) → Keeps (Serves s) (answer_command net frame)
  unfolding answer_command
  answer_command-Serves net frame = search (keeps_rules, answer_send_rr_data-Serves)

  handle_frame-Serves :
      (net : Sockets) (frame : EncapsulationFrame) → Keeps (Serves s) (handle_frame net frame)
  unfolding handle_frame
  handle_frame-Serves net frame =
      search
        (keeps_rules, handle_register_session-Serves, close_session-Serves, answer_command-Serves)
        depth 9

-- Whatever the frame, the server's address, its configuration and the set of its assembly instances
-- are what they were: a client can change the bytes of an assembly, and add or drop none.
pub handle_frame-IsSameDevice :
    (net : Sockets) (frame : EncapsulationFrame) (a : Attached)
    → IsSameDevice a.server (handle_frame net frame a).1.server
handle_frame-IsSameDevice net frame a =
    ((handle_frame-Serves a.server net frame).at a (record {
      device = record {
        same_ip = refl;
        same_port = refl;
        same_config = refl;
        same_instances = λ i. refl;
      };
    })).device

-- The assemblies are those of a server, and a session is not active.
record IsShut (s : EnipServer) (h : ℕ) (a : Attached) : Type 0 where
  untouched : a.server.assemblies ≡ s.assemblies
  inactive : member h a.server.active_sessions ≡ false

module _ (s : EnipServer) where
  IsUntouched : Attached → Type 0
  IsUntouched a = a.server.assemblies ≡ s.assemblies

  open_session-IsUntouched : Keeps IsUntouched open_session
  unfolding open_session IsUntouched
  open_session-IsUntouched = record { at = λ a v. v }

  handle_register_session-IsUntouched :
      (context payload : Bytes) → Keeps IsUntouched (handle_register_session context payload)
  unfolding handle_register_session
  handle_register_session-IsUntouched context payload =
      search (keeps_rules, open_session-IsUntouched)

module _ (s : EnipServer) (net : Sockets) (frame : EncapsulationFrame) where
  close_session-IsShut : Keeps (IsShut s frame.session_handle) (close_session frame.session_handle)
  unfolding unregister_session
  close_session-IsShut = record {
    at = λ a v. record {
      untouched = v.untouched;
      inactive = ground (
        arith,
        v.inactive,
        member-discard frame.session_handle frame.session_handle a.server.active_sessions,
      );
    };
  }

  answer_send_rr_data-IsShut : Keeps (IsShut s frame.session_handle) (answer_send_rr_data frame)
  unfolding answer_send_rr_data session_is_active
  answer_send_rr_data-IsShut = record { at = λ a v. rw v.inactive v }

  answer_command-IsShut : Keeps (IsShut s frame.session_handle) (answer_command net frame)
  unfolding answer_command
  answer_command-IsShut = search (keeps_rules, answer_send_rr_data-IsShut)

  handle_frame-IsUntouched :
      frame.command == 0x65 ≡ true → Keeps (IsUntouched s) (handle_frame net frame)
  unfolding handle_frame
  handle_frame-IsUntouched e = rw e (search (keeps_rules, handle_register_session-IsUntouched))

  Keeps-else :
      {A : Type 0} (m n : Action A)
      → Keeps (IsShut s frame.session_handle) n
      → Keeps (IsShut s frame.session_handle) (if false then m else n)
  Keeps-else m n k = k

  handle_frame-IsShut :
      frame.command == 0x65 ≡ false → Keeps (IsShut s frame.session_handle) (handle_frame net frame)
  unfolding handle_frame
  handle_frame-IsShut e =
      rw e (search (keeps_rules, close_session-IsShut, answer_command-IsShut, Keeps-else) depth 9)

  -- A frame whose session handle is not active leaves the bytes of every assembly as they were.
  pub handle_frame-inactive :
      (sessions : IntSet)
      → member frame.session_handle s.active_sessions ≡ false
      → (handle_frame net frame (record { server = s; sessions = sessions })).1.server.assemblies
        ≡ s.assemblies
  unfolding IsUntouched
  handle_frame-inactive sessions h = elim (Bool-cases (frame.command == 0x65)) [
    | inl register ↦
        (handle_frame-IsUntouched register).at (record { server = s; sessions = sessions }) refl
    | inr other ↦
        ((handle_frame-IsShut other).at (record { server = s; sessions = sessions })
          (record { untouched = refl; inactive = h })).untouched
  ]
