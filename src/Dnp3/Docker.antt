-- ===== src/Dnp3/Docker.antt =====
-- `Dnp3DockerServer`. `subprocess.run` is a parameter: what it makes of a command, from the commands
-- that were run before; every command is recorded, also one that raises.
use cursus.Prelude.{ℕ, Bool, true, false, Option, List, [], ◌∷◌, ◌++◌, if◌then◌else◌, not}
use cursus.Wire.{Result, ok, raised, timeout_expired, Text}
use cursus.Wire.Texts.{text, Environment, set_variable}
use cursus.Wire.Decimal.{decimal}
use cursus.Wire.Exec.{Exec, lift, ◌>>=◌}
use cursus.Dnp3.Config.{Dnp3OutstationConfig, outstation_config}

pub record Dnp3DockerServer : Type 0 where
  pub ip : Text
  pub port : ℕ
  pub config : Dnp3OutstationConfig
  pub running : Bool

unfoldable pub init : Text → ℕ → Option Dnp3OutstationConfig → Dnp3DockerServer
init ip port config = record {
  ip = ip;
  port = port;
  config = outstation_config config;
  running = false;
}

-- A call of `subprocess.run` with `check=True`.
pub record ComposeRun : Type 0 where
  pub command : List Text
  pub environment : Environment
  pub timeout : ℕ

unfoldable pub project_name : Dnp3DockerServer → Text
project_name s = text "cursus-dnp3-" ++ decimal s.port

-- The path of the compose file is the first argument: where the package lies is not the code's.
unfoldable pub compose_command : Text → List Text → Dnp3DockerServer → List Text
compose_command compose_file arguments s =
    text "docker"
    ∷ text "compose"
    ∷ text "-p"
    ∷ project_name s
    ∷ text "-f"
    ∷ compose_file
    ∷ arguments

-- The argument is a copy of `os.environ`.
unfoldable pub compose_environment : Environment → Dnp3DockerServer → Environment
compose_environment environment s =
    set_variable (text "DNP3_REMOTE_ADDR") (decimal s.config.remote_addr) (
      set_variable (text "DNP3_LOCAL_ADDR") (decimal s.config.local_addr) (
        set_variable (text "DNP3_EVENT_BUFFER_SIZE") (decimal s.config.event_buffer_size) (
          set_variable (text "DNP3_DATABASE_SIZE") (decimal s.config.database_size) (
            set_variable (text "DNP3_PORT") (decimal s.port)
              (set_variable (text "DNP3_HOST") (text "0.0.0.0") environment)))))

-- The server and the commands that were run.
pub record Hosted : Type 0 where
  pub server : Dnp3DockerServer
  pub runs : List ComposeRun

abbrev pub Action : Type 0 → Type 0
Action A = Exec Hosted A

abbrev pub set_running : Bool → Action (Unit {0})
set_running running h = (ok tt, record h { server = record h.server { running = running } })

abbrev pub timed_out : Result (Unit {0}) → Bool
timed_out (raised timeout_expired) = true
timed_out _ = false

-- What the process has around it.
pub record Host : Type 0 where
  pub compose_file : Text
  pub environment : Environment
  pub subprocess_run : List ComposeRun → ComposeRun → Result (Unit {0})

module _ (host : Host) where
  open host use {compose_file, environment, subprocess_run}

  unfoldable pub compose_run : List Text → ℕ → Dnp3DockerServer → ComposeRun
  compose_run arguments timeout s = record {
    command = compose_command compose_file arguments s;
    environment = compose_environment environment s;
    timeout = timeout;
  }

  unfoldable pub run_compose : List Text → ℕ → Action (Unit {0})
  run_compose arguments timeout h =
      let run = compose_run arguments timeout h.server in
      (subprocess_run h.runs run, record h { runs = h.runs ++ run ∷ [] })

  unfoldable pub start : Action (Unit {0})
  start h =
      (if h.server.running then lift (ok tt) else (do
        _ ← run_compose (text "up" ∷ text "--build" ∷ text "-d" ∷ []) 60
        set_running true))
        h

  -- `except subprocess.TimeoutExpired`
  unfoldable pub kill_on_timeout : Result (Unit {0}) → Action (Unit {0})
  kill_on_timeout r =
      if timed_out r
      then (do
        _ ← run_compose (text "kill" ∷ []) 10
        run_compose (text "down" ∷ text "--remove-orphans" ∷ []) 20)
      else lift r

  unfoldable pub take_down : Action (Unit {0})
  take_down h =
      let (r, h') = run_compose (text "down" ∷ text "--remove-orphans" ∷ []) 20 h in
      kill_on_timeout r h'

  -- `finally` runs whatever was raised.
  unfoldable pub stop : Action (Unit {0})
  stop h =
      if not h.server.running
      then (ok tt, h)
      else (let (r, h') = take_down h in (r, (set_running false h').1))
