-- ===== src/Dnp3/Runtime.antt =====
-- `Dnp3Server`, the entry point that chooses the Docker service or the native outstation.
use cursus.Prelude.{ℕ, Bool, Option, some, List, if◌then◌else◌}
use cursus.Wire.{Result, ok, raised, value_error, type_error, Text}
use cursus.Wire.Texts.{text, text_eq}
use cursus.Wire.Exec.{Exec, lift, ◌>>=◌}
use cursus.Dnp3.Config.{Dnp3OutstationConfig, outstation_config}
use cursus.Dnp3.Docker.{Dnp3DockerServer, ComposeRun, Hosted, Host}
use cursus.Dnp3.Docker
use cursus.Wire.Progress.{Progress, returned}
use cursus.Dnp3.Outstation.{Call, Dnp3OutstationServer, Native, Round}
use cursus.Dnp3.Outstation

pub data Backend : Type 0 where
  docker : Dnp3DockerServer → Backend
  native : Dnp3OutstationServer → Backend

pub record Dnp3Server : Type 0 where
  pub ip : Text
  pub port : ℕ
  pub config : Dnp3OutstationConfig
  pub runtime : Text
  pub server : Backend

abbrev pub native_backend : Result Dnp3OutstationServer → Result Backend
native_backend (ok s) = ok (native s)
native_backend (raised e) = raised e

-- What was done outside: the commands that were run and the calls of pydnp3.
pub record Outside (Float : Type 0) : Type 0 where
  pub runs : List ComposeRun
  pub calls : List (Call Float)

module _ {Float : Type 0} (pydnp3 : List (Call Float) → Call Float → Result (Unit {0})) where
  unfoldable pub create_server :
      Text → ℕ → Dnp3OutstationConfig → Text → Exec (Outside Float) Backend
  create_server ip port config runtime o =
      if text_eq runtime (text "docker")
      then (ok (docker (Docker.init ip port (some config))), o)
      else if text_eq runtime (text "native")
      then (let (r, calls) = Outstation.init pydnp3 ip port (some config) o.calls in
          (native_backend r, record o { calls = calls }))
      else (raised value_error, o)

  unfoldable pub init :
      Text → ℕ → Option Dnp3OutstationConfig → Text → Exec (Outside Float) Dnp3Server
  init ip port config runtime = do
    server ← create_server ip port (outstation_config config) runtime
    lift (
        ok (record {
          ip = ip;
          port = port;
          config = outstation_config config;
          runtime = runtime;
          server = server;
        }))

-- The entry point with what was done outside.
pub record Entry (Float : Type 0) : Type 0 where
  pub server : Dnp3Server
  pub outside : Outside Float

module _ {Float : Type 0} where
  abbrev hosted : Entry Float → Dnp3DockerServer → Hosted
  hosted e s = record { server = s; runs = e.outside.runs }

  abbrev with_hosted : Entry Float → Hosted → Entry Float
  with_hosted e h = record {
    server = record e.server { server = docker h.server };
    outside = record e.outside { runs = h.runs };
  }

  abbrev as_native : Entry Float → Dnp3OutstationServer → Native Float
  as_native e s = record { server = s; calls = e.outside.calls }

  abbrev with_native : Entry Float → Native Float → Entry Float
  with_native e a = record {
    server = record e.server { server = native a.server };
    outside = record e.outside { calls = a.calls };
  }

module _ {Float : Type 0} (host : Host)
    (pydnp3 : List (Call Float) → Call Float → Result (Unit {0})) where
  abbrev pub Action : Type 0 → Type 0
  Action A = Exec (Entry Float) A

  -- A method of the Docker service, and one of the native outstation.
  abbrev pub on_docker : {A : Type 0} → Exec Hosted A → Dnp3DockerServer → Action A
  on_docker m s e = let (r, h) = m (hosted e s) in (r, with_hosted e h)

  abbrev pub on_native : {A : Type 0} → Exec (Native Float) A → Dnp3OutstationServer → Action A
  on_native m s e = let (r, a) = m (as_native e s) in (r, with_native e a)

  unfoldable pub start : List Round → Action Progress
  start rounds e = elim e.server.server [
    | docker s ↦ on_docker (do _ ← Docker.start host; lift (ok returned)) s e
    | native s ↦ on_native (Outstation.start pydnp3 rounds) s e
  ]

  -- Both runtimes have a `stop`.
  unfoldable pub stop : Action (Unit {0})
  stop e = elim e.server.server [
    | docker s ↦ on_docker (Docker.stop host) s e
    | native s ↦ on_native (Outstation.stop pydnp3) s e
  ]

  unfoldable pub update_binary_input : ℕ → Bool → Action (Unit {0})
  update_binary_input index value e = elim e.server.server [
    | docker s ↦ (raised type_error, e)
    | native s ↦ on_native (Outstation.update_binary_input pydnp3 index value) s e
  ]

  unfoldable pub update_analog_input : ℕ → Float → Action (Unit {0})
  update_analog_input index value e = elim e.server.server [
    | docker s ↦ (raised type_error, e)
    | native s ↦ on_native (Outstation.update_analog_input pydnp3 index value) s e
  ]
