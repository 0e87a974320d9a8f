-- ===== src/Enip/System.antt =====
-- The server with all its TCP connections. A connection is the set of sessions that its handler
-- keeps; a step is a new connection, one frame of some connection, the end of one, or a call of
-- `set_assembly_data` by the program that runs the emulator. A frame is one step: what two threads
-- interleave inside a frame is not modelled.
use cursus.Prelude.{
  ℕ, ◌+◌, ◌≤◌, ◌≡◌, refl, false, not, ◌&&◌, Option, List, [], ◌∷◌, ◌++◌, arith, ltb,
}
use cursus.Prelude.IntSet.{IntSet, member, member-difference}
use cursus.Wire.{Bytes, Text}
use cursus.Enip.Objects.{EncapsulationFrame, EnipServer, EnipServerConfig, Sockets, init}
use cursus.Enip.Server.{Attached, handle_frame, release_sessions, set_assembly_data}
use cursus.Enip.Sessions.{IsOwned, bit, handle_frame-IsOwned}

pub record System : Type 0 where
  pub server : EnipServer
  pub connections : List IntSet

module _ (net : Sockets) where
  -- A frame of the connection that stands behind `before`.
  abbrev pub frame_step :
      EnipServer → List IntSet → IntSet → List IntSet → EncapsulationFrame → System
  frame_step s before sessions after frame =
      let a = (handle_frame net frame (record { server = s; sessions = sessions })).1 in
      record { server = a.server; connections = before ++ a.sessions ∷ after }

  pub data Step : System → System → Type 0 where
    connect :
        (s : EnipServer) (cs : List IntSet)
        → Step
            (record { server = s; connections = cs })
            (record { server = s; connections = [] ∷ cs })
    receive_frame :
        (s : EnipServer) (before : List IntSet) (sessions : IntSet) (after : List IntSet)
        (frame : EncapsulationFrame)
        → Step
            (record { server = s; connections = before ++ sessions ∷ after })
            (frame_step s before sessions after frame)
    disconnect :
        (s : EnipServer) (before : List IntSet) (sessions : IntSet) (after : List IntSet)
        → Step
            (record { server = s; connections = before ++ sessions ∷ after })
            (record { server = release_sessions sessions s; connections = before ++ after })
    set_assembly :
        (s : EnipServer) (cs : List IntSet) (instance_number : ℕ) (value : Bytes)
        → Step
            (record { server = s; connections = cs })
            (record { server = set_assembly_data instance_number value s; connections = cs })

  pub data Reach (start : System) : System → Type 0 where
    here : Reach start start
    next : {t u : System} → Reach start t → Step t u → Reach start u

-- How many connections hold a handle.
pub holders : ℕ → List IntSet → ℕ
holders h [] = 0
holders h (sessions ∷ cs) = bit (member h sessions) + holders h cs

holders-append :
    (h : ℕ) (before : List IntSet) (sessions : IntSet) (after : List IntSet)
    → holders h (before ++ sessions ∷ after) ≡ holders h (before ++ after) + bit (member h sessions)
unfolding holders
holders-append h [] sessions after = omega arith
holders-append h (b ∷ before) sessions after = omega (arith, holders-append h before sessions after)

-- Every active session handle is held by a connection, and every held one by a single connection,
-- which it was given to.
pub record IsConsistent (t : System) : Type 0 where
  pub active_held : (h : ℕ) → bit (member h t.server.active_sessions) ≤ holders h t.connections
  pub held_given : (h : ℕ) → holders h t.connections ≤ bit (ltb h t.server.next_session_handle)

release_sessions-member :
    (h : ℕ) (sessions : IntSet) (s : EnipServer)
    → member h (release_sessions sessions s).active_sessions
      ≡ (member h s.active_sessions && not (member h sessions))
unfolding release_sessions member
release_sessions-member h [] s = ground arith
release_sessions-member h (x ∷ sessions) s =
    unfold release_sessions in member-difference h s.active_sessions (x ∷ sessions)

release_sessions-next :
    (sessions : IntSet) (s : EnipServer)
    → (release_sessions sessions s).next_session_handle ≡ s.next_session_handle
unfolding release_sessions
release_sessions-next [] s = refl
release_sessions-next (x ∷ sessions) s = refl

module _ (net : Sockets) where
  receive_frame-IsConsistent :
      (s : EnipServer) (before : List IntSet) (sessions : IntSet) (after : List IntSet)
      (frame : EncapsulationFrame)
      → IsConsistent (record { server = s; connections = before ++ sessions ∷ after })
      → IsConsistent (frame_step net s before sessions after frame)
  receive_frame-IsConsistent s before sessions after frame v = record {
    active_held =
        λ h. omega (arith, (owned h).held, holders-append h before attached.sessions after);
    held_given =
        λ h. omega (arith, (owned h).given, holders-append h before attached.sessions after);
  }
    where
      attached : Attached
      attached = (handle_frame net frame (record { server = s; sessions = sessions })).1

      owned : (h : ℕ) → IsOwned (holders h (before ++ after)) h attached
      owned h =
          (handle_frame-IsOwned (holders h (before ++ after)) h net frame).at
            (record { server = s; sessions = sessions })
            (record {
              held = omega (arith, v.active_held h, holders-append h before sessions after);
              given = omega (arith, v.held_given h, holders-append h before sessions after);
            })

  disconnect-IsConsistent :
      (s : EnipServer) (before : List IntSet) (sessions : IntSet) (after : List IntSet)
      → IsConsistent (record { server = s; connections = before ++ sessions ∷ after })
      → IsConsistent
          (record { server = release_sessions sessions s; connections = before ++ after })
  disconnect-IsConsistent s before sessions after v = record {
    active_held = λ h.
        rw release_sessions-member
          (ground (arith, v.active_held h, holders-append h before sessions after));
    held_given = λ h.
        rw release_sessions-next
          (ground (arith, v.held_given h, holders-append h before sessions after));
  }

  Step-IsConsistent : {t u : System} → Step net t u → IsConsistent t → IsConsistent u
  unfolding holders set_assembly_data member
  Step-IsConsistent (connect s cs) v = record {
    active_held = λ h. ground (arith, v.active_held h);
    held_given = λ h. ground (arith, v.held_given h);
  }
  Step-IsConsistent (receive_frame s before sessions after frame) v =
      receive_frame-IsConsistent s before sessions after frame v
  Step-IsConsistent (disconnect s before sessions after) v =
      disconnect-IsConsistent s before sessions after v
  Step-IsConsistent (set_assembly s cs instance_number value) v = record {
    active_held = v.active_held;
    held_given = v.held_given;
  }

  -- A server that was just made, with no connection.
  abbrev pub started : Text → ℕ → Option EnipServerConfig → System
  started ip port config = record { server = init ip port config; connections = [] }

  init-IsConsistent :
      (ip : Text) (port : ℕ) (config : Option EnipServerConfig)
      → IsConsistent (started ip port config)
  unfolding init holders member
  init-IsConsistent ip port config = record {
    active_held = λ h. omega arith;
    held_given = λ h. omega arith;
  }

  -- In every system that connections, frames and disconnections lead to from a new server, each
  -- active session handle is held by a connection, no handle is held by two, and every held handle
  -- is below the next one to be given out.
  pub Reach-IsConsistent :
      (ip : Text) (port : ℕ) (config : Option EnipServerConfig) {t : System}
      → Reach net (started ip port config) t
      → IsConsistent t
  Reach-IsConsistent ip port config here = init-IsConsistent ip port config
  Reach-IsConsistent ip port config (next r step) =
      Step-IsConsistent step (Reach-IsConsistent ip port config r)

  -- Once the last connection has ended, no session is active.
  pub no_session_left :
      (ip : Text) (port : ℕ) (config : Option EnipServerConfig) {t : System} (h : ℕ)
      → Reach net (started ip port config) t
      → t.connections ≡ []
      → member h t.server.active_sessions ≡ false
  unfolding holders
  no_session_left ip port config {t = t} h r e =
      ground (arith, (Reach-IsConsistent ip port config r).active_held h)
