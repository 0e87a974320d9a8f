-- ===== src/Starter/Threads.antt =====
-- `Starter`, its server threads and its monitors, as steps of single threads on the shared object.
-- One thread calls `start_server` and `stop_server`; a step of it is one write or one blocking call.
use cursus.Prelude.{
  ℕ, Bool, true, false, Option, none, some, List, [], ◌∷◌, get_elem?, if◌then◌else◌,
}
use cursus.Wire.{Error, Result, ok, raised, runtime_error, attribute_error, Text}

-- A server, a thread and a monitor are named by how many were made before.
pub record Starter : Type 0 where
  pub protocol : Text
  pub port : ℕ
  pub delay : ℕ
  pub server : Option ℕ
  pub server_thread : Option ℕ
  pub server_error : Option Error
  pub ready_event : Bool
  pub ready_monitor_thread : Option ℕ

unfoldable pub init : Text → ℕ → ℕ → Starter
init protocol port delay = record {
  protocol = protocol;
  port = port;
  delay = delay;
  server = none;
  server_thread = none;
  server_error = none;
  ready_event = false;
  ready_monitor_thread = none;
}

-- Where a server thread stands in `_run_server`: not started, at its start, past the test for a
-- server, in `start` of a server, and ended.
pub data ServerThread : Type 0 where
  created entered checked : ServerThread
  serving : ℕ → ServerThread
  ended : Result (Unit {0}) → ServerThread

-- Where a monitor stands in `_monitor_server_readiness`. `died` is an exception of the thread.
pub data Monitor : Type 0 where
  loop_head thread_seen alive_seen probing found sleeping gone announced : Monitor
  died : Error → Monitor

abbrev pub is_alive : ServerThread → Bool
is_alive created = false
is_alive entered = true
is_alive checked = true
is_alive (serving n) = true
is_alive (ended r) = false

abbrev pub is_some {ℓ} : {A : Type ℓ} → Option A → Bool
is_some none = false
is_some (some a) = true

-- `except BaseException`
abbrev pub end_server : Result (Unit {0}) → Starter → Starter × ServerThread
end_server (ok _) s = (s, ended (ok tt))
end_server (raised e) s = (record s { server_error = some e }, ended (raised e))

abbrev pub check_server : Option ℕ → Starter → Starter × ServerThread
check_server none s = end_server (raised runtime_error) s
check_server (some n) s = (s, checked)

abbrev pub call_server : Option ℕ → Starter → Starter × ServerThread
call_server none s = end_server (raised attribute_error) s
call_server (some n) s = (s, serving n)

-- A step of `_run_server`, when the server's `start` ends with the result.
unfoldable pub server_step : Result (Unit {0}) → Starter → ServerThread → Starter × ServerThread
server_step result s created = (s, created)
server_step result s entered = check_server s.server s
server_step result s checked = call_server s.server s
server_step result s (serving n) = end_server result s
server_step result s (ended r) = (s, ended r)

abbrev pub thread_alive : Option ServerThread → Bool
thread_alive none = false
thread_alive (some thread) = is_alive thread

abbrev pub see_thread : Option ℕ → Monitor
see_thread none = gone
see_thread (some t) = thread_seen

abbrev pub see_alive : List ServerThread → Option ℕ → Monitor
see_alive threads none = died attribute_error
see_alive threads (some t) = if thread_alive (get_elem? threads t) then alive_seen else gone

abbrev pub see_probe : Result Bool → Monitor
see_probe (ok true) = found
see_probe (ok false) = sleeping
see_probe (raised e) = died e

-- A step of `_monitor_server_readiness`, when `_is_server_ready` ends with the result.
unfoldable pub monitor_step :
    List ServerThread → Result Bool → Starter → Monitor → Starter × Monitor
monitor_step threads result s loop_head = (s, see_thread s.server_thread)
monitor_step threads result s thread_seen = (s, see_alive threads s.server_thread)
monitor_step threads result s alive_seen = (s, if is_some s.server_error then gone else probing)
monitor_step threads result s probing = (s, see_probe result)
monitor_step threads result s found = (record s { ready_event = true }, announced)
monitor_step threads result s sleeping = (s, loop_head)
monitor_step threads result s gone = (s, gone)
monitor_step threads result s announced = (s, announced)
monitor_step threads result s (died e) = (s, died e)

-- What is left to do of `start_server` or `stop_server`; `reraise` ends its `finally`.
pub data Instruction : Type 0 where
  store_server create_thread start_thread start_monitor : ℕ → Instruction
  clear_ready clear_error check_error call_stop join clear_server clear_thread clear_monitor :
      Instruction
  reraise : Error → Instruction

abbrev pub start_program : ℕ → ℕ → List Instruction
start_program thread monitor =
    store_server thread
    ∷ clear_ready
    ∷ clear_error
    ∷ create_thread thread
    ∷ start_thread thread
    ∷ start_monitor monitor
    ∷ check_error
    ∷ []

-- The `finally` of `stop_server`.
abbrev pub clean_up : List Instruction → List Instruction
clean_up rest = clear_ready ∷ clear_server ∷ clear_thread ∷ clear_monitor ∷ clear_error ∷ rest

-- Without a server there is no `stop` to be found; every server of the package has one.
abbrev pub stop_program : Option ℕ → List Instruction
stop_program none = []
stop_program (some n) = call_stop ∷ join ∷ clean_up []

-- What an instruction writes to the starter.
unfoldable pub write : Instruction → Starter → Starter
write (store_server n) s = record s { server = some n }
write (create_thread t) s = record s { server_thread = some t }
write (start_thread t) s = s
write (start_monitor m) s = record s { ready_monitor_thread = some m }
write clear_ready s = record s { ready_event = false }
write clear_error s = record s { server_error = none }
write check_error s = s
write call_stop s = s
write join s = s
write clear_server s = record s { server = none }
write clear_thread s = record s { server_thread = none }
write clear_monitor s = record s { ready_monitor_thread = none }
write (reraise e) s = s
