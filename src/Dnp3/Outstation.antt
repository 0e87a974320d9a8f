-- ===== src/Dnp3/Outstation.antt =====
-- `Dnp3OutstationServer`. pydnp3 is a parameter: what it makes of a call, from the calls before;
-- every call is recorded, also one that raises. The listener and the command handler, which only
-- log and return SUCCESS, are pydnp3's to call.
use cursus.Prelude.{ℕ, Bool, true, false, Option, List, [], ◌∷◌, ◌++◌, not, if◌then◌else◌}
use cursus.Wire.{Result, ok, Text}
use cursus.Wire.Texts.{text}
use cursus.Wire.Exec.{Exec, lift, ◌>>=◌}
use cursus.Wire.Progress.{Progress, returned, waiting}
use cursus.Dnp3.Config.{Dnp3OutstationConfig, outstation_config}

-- `_stack_config` as it is handed to `AddOutstation`.
pub record StackConfig : Type 0 where
  pub database_size : ℕ
  pub event_buffer_size : ℕ
  pub allow_unsolicited : Bool
  pub local_addr : ℕ
  pub remote_addr : ℕ

-- The calls of pydnp3, in the order of the source; `Float` is the type of analog values.
pub data Call (Float : Type 0) : Type 0 where
  import_pydnp3 create_logger : Call Float
  create_manager : ℕ → Call Float
  default_retry : Call Float
  create_listener : Call Float
  add_tcp_server : Text → Text → ℕ → Call Float
  database_sizes event_buffer_sizes : ℕ → Call Float
  create_command_handler default_application : Call Float
  add_outstation : Text → StackConfig → Call Float
  enable disable shutdown : Call Float
  apply_binary : ℕ → Bool → Call Float
  apply_analog : ℕ → Float → Call Float

pub record Dnp3OutstationServer : Type 0 where
  pub ip : Text
  pub port : ℕ
  pub config : Dnp3OutstationConfig
  pub running : Bool

-- The server and the calls of pydnp3 so far.
pub record Native (Float : Type 0) : Type 0 where
  pub server : Dnp3OutstationServer
  pub calls : List (Call Float)

-- What happens while `start` sleeps: a second passes, another thread calls `stop`, or the sleep is
-- ended by KeyboardInterrupt.
pub data Round : Type 0 where
  slept stopped interrupted : Round

module _ {Float : Type 0} (pydnp3 : List (Call Float) → Call Float → Result (Unit {0})) where
  unfoldable pub call : Call Float → Exec (List (Call Float)) (Unit {0})
  call c calls = (pydnp3 calls c, calls ++ c ∷ [])

  abbrev pub stack_config : Dnp3OutstationConfig → StackConfig
  stack_config config = record {
    database_size = config.database_size;
    event_buffer_size = config.event_buffer_size;
    allow_unsolicited = true;
    local_addr = config.local_addr;
    remote_addr = config.remote_addr;
  }

  unfoldable pub init :
      Text → ℕ → Option Dnp3OutstationConfig → Exec (List (Call Float)) Dnp3OutstationServer
  init ip port config = do
    _ ← call import_pydnp3
    _ ← call create_logger
    _ ← call (create_manager 1)
    _ ← call default_retry
    _ ← call create_listener
    _ ← call (add_tcp_server (text "cursus-dnp3-outstation") ip port)
    _ ← call (database_sizes (outstation_config config).database_size)
    _ ← call (event_buffer_sizes (outstation_config config).event_buffer_size)
    _ ← call create_command_handler
    _ ← call default_application
    _ ← call (add_outstation (text "cursus-outstation") (stack_config (outstation_config config)))
    lift (ok (record { ip = ip; port = port; config = outstation_config config; running = false }))

  abbrev pub Action : Type 0 → Type 0
  Action A = Exec (Native Float) A

  unfoldable pub perform : Call Float → Action (Unit {0})
  unfolding call
  perform c a = let (r, calls) = call c a.calls in (r, record a { calls = calls })

  abbrev pub set_running : Bool → Action (Unit {0})
  set_running running a = (ok tt, record a { server = record a.server { running = running } })

  unfoldable pub stop : Action (Unit {0})
  stop a =
      (if not a.server.running
          then lift (ok tt)
          else (do _ ← set_running false; _ ← perform disable; perform shutdown))
        a

  -- `while self._running: time.sleep(1)`. What `stop` raises in another thread stays there.
  unfoldable pub sleep_loop : List Round → Native Float → Progress × Native Float
  sleep_loop [] a = if a.server.running then (waiting, a) else (returned, a)
  sleep_loop (round ∷ rounds) a =
      let rest : Progress × Native Float = elim round [
        | slept ↦ sleep_loop rounds a
        | stopped ↦ sleep_loop rounds (stop a).1
        | interrupted ↦ (returned, a)
      ] in
      if a.server.running then rest else (returned, a)

  -- `finally: self.stop()`
  unfoldable pub finish : Progress × Native Float → Result Progress × Native Float
  finish (waiting, a) = (ok waiting, a)
  finish (returned, a) = (do _ ← stop; lift (ok returned)) a

  unfoldable pub start : List Round → Action Progress
  start rounds a =
      (if a.server.running
          then lift (ok returned)
          else (do _ ← set_running true; _ ← perform enable; λ a'. finish (sleep_loop rounds a')))
        a

  unfoldable pub update_binary_input : ℕ → Bool → Action (Unit {0})
  update_binary_input index value = perform (apply_binary index value)

  unfoldable pub update_analog_input : ℕ → Float → Action (Unit {0})
  update_analog_input index value = perform (apply_analog index value)
