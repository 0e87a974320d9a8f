-- ===== src/Dnp3/Runs.antt =====
-- The DNP3 service and the outstation at concrete runs.
use cursus.Prelude.{ℕ, ◌≡◌, refl, true, false, Option, none, some, List, [], ◌∷◌, ◌++◌, ◌⊎◌}
use cursus.Wire.{Error, Result, ok, raised, value_error, timeout_expired, runtime_error, Text}
use cursus.Wire.Texts.{text, variable, text_eq}
use cursus.Dnp3.Config.{Dnp3OutstationConfig}
use cursus.Dnp3.Docker.{
  Dnp3DockerServer, ComposeRun, Hosted, Host, compose_environment, project_name,
}
use cursus.Dnp3.Docker
use cursus.Dnp3.Container.{Substitution, container_environment, main_arguments}
use cursus.Wire.Progress.{returned}
use cursus.Dnp3.Outstation.{
  Dnp3OutstationServer, Native, Call, Round, slept, stopped, interrupted, enable, disable, shutdown,
  apply_binary, apply_analog,
}
use cursus.Dnp3.Outstation
use cursus.Dnp3.Passed.{main_arguments-container_environment}
use cursus.Dnp3.Service.{down, kill, stop-start_raised, stop-last}
use cursus.Dnp3.Running.{start-enable_raised, start_returns}
use cursus.Dnp3.Runtime.{Dnp3Server, Backend, native, Outside, Entry}
use cursus.Dnp3.Runtime
use cursus.Dnp3.Choice.{update-runtime}

abbrev config : Dnp3OutstationConfig
config = record { database_size = 50; event_buffer_size = 20; local_addr = 3; remote_addr = 4 }

abbrev service : Dnp3DockerServer
service = record { ip = text "127.0.0.1"; port = 20000; config = config; running = false }

-- A substitution as the compose tool documents it.
abbrev filled : Option Text → Text → Text
filled none default = default
filled (some []) default = default
filled (some (c ∷ value)) default = c ∷ value

filled_set :
    (o : Option Text) (default : Text) (c : ℕ) (value : Text)
    → o ≡ some (c ∷ value)
    → filled o default ≡ c ∷ value
filled_set o default c value h = rw h refl

abbrev compose : Substitution
compose = record {
  substitute = λ environment name default. filled (variable name environment) default;
  substitute_set = λ environment name default c value h.
      filled_set (variable name environment) default c value h;
}

main_arguments-container_environment_example :
    main_arguments
      (λ _. raised value_error)
      (container_environment compose [] (compose_environment [] service))
    ≡ ok (text "0.0.0.0", 20000, config)
main_arguments-container_environment_example =
    main_arguments-container_environment [] service compose [] (λ _. raised value_error)

abbrev idle : Hosted
idle = record { server = service; runs = [] }

abbrev busy : Hosted
busy = record { server = record service { running = true }; runs = [] }

-- The first command is late, and the others return.
abbrev late_once : List ComposeRun → ComposeRun → Result (Unit {0})
late_once [] run = raised timeout_expired
late_once (first ∷ rest) run = ok tt

abbrev late_host : Host
late_host = record {
  compose_file = text "docker-compose.dnp3.yml";
  environment = [];
  subprocess_run = late_once;
}

abbrev up_run : ComposeRun
up_run = Docker.compose_run late_host (text "up" ∷ text "--build" ∷ text "-d" ∷ []) 60 service

up_raised :
    Docker.start late_host idle
    ≡ (raised timeout_expired, record { server = service; runs = up_run ∷ [] })
unfolding Docker.start Docker.run_compose
up_raised = refl

stop-start_raised_example :
    Docker.stop late_host (record { server = service; runs = up_run ∷ [] })
    ≡ (ok tt, record { server = service; runs = up_run ∷ [] })
stop-start_raised_example =
    stop-start_raised late_host idle (record { server = service; runs = up_run ∷ [] })
      timeout_expired up_raised

stop-last_example :
    (before : List ComposeRun) × (last : ComposeRun) × ((Docker.stop late_host busy).1.runs
      ≡ before ++ last ∷ [])
    × ((Docker.stop late_host busy).0 ≡ late_once before last)
    × ((last ≡ down late_host busy.server)
        ⊎ ((last ≡ kill late_host busy.server)
            × ((e : Error) × (late_once before last ≡ raised e))))
    × ((Docker.stop late_host busy).1.server ≡ record busy.server { running = false })
stop-last_example = stop-last late_host busy refl

abbrev outstation : Native ℕ
outstation = record {
  server = record { ip = text "127.0.0.1"; port = 20000; config = config; running = false };
  calls = [];
}

abbrev returns : List (Call ℕ) → Call ℕ → Result (Unit {0})
returns calls c = ok tt

abbrev fails : List (Call ℕ) → Call ℕ → Result (Unit {0})
fails calls c = raised runtime_error

start-enable_raised_example :
    (let (result, a) = Outstation.start fails (slept ∷ []) outstation in
      (result ≡ raised runtime_error)
      × (a.server.running ≡ true)
      × (Outstation.start fails [] a ≡ (ok returned, a)))
start-enable_raised_example =
    start-enable_raised fails (slept ∷ []) [] outstation runtime_error refl refl

start_returns_example :
    Outstation.start returns (slept ∷ slept ∷ stopped ∷ []) outstation
    ≡ (ok returned, record outstation { calls = enable ∷ disable ∷ shutdown ∷ [] })
start_returns_example =
    start_returns returns (λ calls. refl) (λ calls. refl) (λ calls. refl) 2 stopped [] outstation
      refl (λ e. absurd (cc))

abbrev nothing : Outside ℕ
nothing = record { runs = []; calls = [] }

abbrev entry : Dnp3Server
entry = record {
  ip = text "127.0.0.1";
  port = 20000;
  config = config;
  runtime = text "native";
  server = native outstation.server;
}

entry_made : Runtime.init returns (text "127.0.0.1") 20000 (some config) (text "native") nothing ≡ (
  ok entry,
  (Runtime.init returns (text "127.0.0.1") 20000 (some config) (text "native") nothing).1,
)
unfolding Runtime.init Runtime.create_server Outstation.init Outstation.call text_eq
entry_made = refl

update-runtime_example :
    (let (r, o) =
        Runtime.init returns (text "127.0.0.1") 20000 (some config) (text "native") nothing in
      let e : Entry ℕ = record { server = entry; outside = o } in
      (Runtime.update_binary_input late_host returns 5 true e
        ≡ (ok tt, record e { outside = record o { calls = o.calls ++ apply_binary 5 true ∷ [] } }))
      × (Runtime.update_analog_input late_host returns 5 42 e
          ≡ (ok tt, record e { outside = record o { calls = o.calls ++ apply_analog 5 42 ∷ [] } })))
unfolding text_eq
update-runtime_example =
    update-runtime returns late_host (text "127.0.0.1") 20000 (some config) (text "native") nothing
      (Runtime.init returns (text "127.0.0.1") 20000 (some config) (text "native") nothing).1 entry
      5 true 42 entry_made
