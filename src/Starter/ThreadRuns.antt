-- ===== src/Starter/ThreadRuns.antt =====
-- The starter and its threads at concrete turns.
use cursus.Prelude.{
  ℕ, zero, suc, ◌≢◌, get_elem?, ◌≡◌, refl, true, false, none, some, List, [], ◌∷◌, ◌++◌, replicate,
}
use cursus.Wire.{Result, ok, raised, runtime_error, os_error}
use cursus.Wire.Texts.{text}
use cursus.Starter.Names.{Unicode, lower, capitalize, server_names}
use cursus.Starter.Threads.{
  Starter, init, serving, loop_head, found, sleeping, announced, is_some, check_error, thread_alive,
  server_step, monitor_step, write,
}
use cursus.Starter.Turns.{
  World, idle, Turn, start_server, main, server, monitor, step, run, begin_start, execute, set_elem,
  wait_until_ready,
}
use cursus.Starter.Linked.{run-IsLinked}
use cursus.Starter.History.{IsAnnounced, ready_event-probed}
use cursus.Starter.Schedules.{stop_turns, cleared, run-stop_turns, late_monitor}
use cursus.Starter.Readiness.{monitor_turns, failing, monitor_sets_ready}
use cursus.Dnp3.Config.{default_outstation}
use cursus.Dnp3.Docker.{Dnp3DockerServer, Host}
use cursus.Dnp3.Outstation.{Call}
use cursus.Dnp3.Runtime.{Entry, docker}
use cursus.Dnp3.Runtime
use cursus.Starter.DockerReady.{thread_end, docker_never_ready}
use cursus.Starter.Early.{outcome, start_server-early_end}
use cursus.Starter.Over.{past_check}

-- No text outside ASCII is looked at here.
abbrev ascii_only : Unicode
ascii_only = record { other_lower = λ t. t; other_capitalize = λ t. t }

bacnet_names :
    server_names ascii_only (text "BACnet") ≡ (text "cursus.bacnet.server", text "BacnetServer")
unfolding server_names lower capitalize
bacnet_names = refl

abbrev mbtcp : Starter
mbtcp = init (text "mbtcp") 5020 1

-- A server is started, is found ready and goes on.
abbrev started_turns : List Turn
started_turns =
    start_server (ok tt)
    ∷ (replicate 6 (main (ok tt))
        ++ (replicate 2 (server 0 (ok tt))
            ++ (replicate 5 (monitor 0 (ok true)) ++ main (ok tt) ∷ [])))

abbrev started_world : World
started_world = record {
  starter = record mbtcp {
    server = some 0;
    server_thread = some 0;
    ready_monitor_thread = some 0;
    ready_event = false;
  };
  threads = serving 0 ∷ [];
  monitors = found ∷ [];
  pending = [];
  answer = some (ok tt);
}

run-IsLinked_example :
    (is_some (run started_turns (idle mbtcp)).starter.server
      ≡ is_some (run started_turns (idle mbtcp)).starter.server_thread)
    × (is_some (run started_turns (idle mbtcp)).starter.server_thread
        ≡ is_some (run started_turns (idle mbtcp)).starter.ready_monitor_thread)
unfolding run begin_start execute set_elem
run-IsLinked_example = run-IsLinked (text "mbtcp") 5020 1 started_turns refl

ready_event-probed_example : IsAnnounced (idle mbtcp) started_turns
unfolding run begin_start execute set_elem server_step monitor_step write init
ready_event-probed_example = ready_event-probed (text "mbtcp") 5020 1 started_turns refl

run-stop_turns_example : run (stop_turns (raised os_error)) started_world ≡ record started_world {
  starter = cleared started_world.starter;
  answer = some (raised os_error);
}
run-stop_turns_example = run-stop_turns (raised os_error) 0 started_world refl refl

late_monitor_example :
    (let w = run (stop_turns (ok tt) ++ monitor 0 (ok true) ∷ []) started_world in
      (w.starter.ready_event ≡ true)
      × (w.starter.server ≡ none)
      × (w.starter.server_thread ≡ none)
      × (w.answer ≡ some (ok tt)))
late_monitor_example = late_monitor 0 0 (ok true) started_world refl refl refl

abbrev watched_world : World
watched_world = record started_world { monitors = loop_head ∷ [] }

monitor_sets_ready_example :
    run (monitor_turns 0 (failing 2 (replicate 5 (ok true)))) watched_world ≡ record watched_world {
      starter = record started_world.starter { ready_event = true };
      monitors = announced ∷ [];
    }
unfolding init set_elem
monitor_sets_ready_example = monitor_sets_ready 2 0 0 watched_world refl refl refl refl

-- The server's `start` raises while a probe is under way, and the caller sleeps.
abbrev early_turns : List Turn
early_turns =
    replicate 6 (main (ok tt))
    ++ replicate 2 (server 0 (ok tt))
    ++ replicate 3 (monitor 0 (ok true))
    ++ server 0 (raised os_error) ∷ monitor 0 (ok true) ∷ []

start_server-early_end_example :
    (step (main (ok tt)) (run (start_server (ok tt) ∷ early_turns) (idle mbtcp))).answer
    ≡ some (raised runtime_error)
unfolding run begin_start execute set_elem outcome server_step init write
start_server-early_end_example =
    start_server-early_end (text "mbtcp") 5020 1 early_turns (ok tt)
      (
        refl,
        (
          refl,
          (
            refl,
            (refl, (refl, (refl, (refl, (refl, (refl, (refl, (refl, (refl, (refl, tt)))))))))),
          ),
        ),
      )
      refl

-- `start_server` sleeps, and the first probe has failed.
abbrev delayed_world : World
delayed_world = record {
  starter = record (init (text "dnp3") 20000 2) {
    server = some 0;
    server_thread = some 0;
    ready_monitor_thread = some 0;
  };
  threads = serving 0 ∷ [];
  monitors = sleeping ∷ [];
  pending = check_error ∷ [];
  answer = none;
}

no_other_thread : (k : ℕ) → k ≢ 0 → thread_alive (get_elem? delayed_world.threads k) ≡ false
no_other_thread zero other = absurd (other refl)
no_other_thread (suc k) other = refl

no_probe : (k : ℕ) → past_check (get_elem? delayed_world.monitors k) ≡ false
no_probe zero = refl
no_probe (suc k) = refl

-- Probes that would succeed from now on.
abbrev late_probes : List Turn
late_probes =
    monitor 0 (ok true)
    ∷ main (ok tt)
    ∷ monitor 0 (ok true)
    ∷ server 0 (ok tt)
    ∷ monitor 0 (ok true)
    ∷ []

abbrev works : Host
works = record {
  compose_file = text "docker-compose.dnp3.yml";
  environment = [];
  subprocess_run = λ runs run. ok tt;
}

abbrev returns : List (Call ℕ) → Call ℕ → Result (Unit {0})
returns calls c = ok tt

abbrev service : Dnp3DockerServer
service = record {
  ip = text "127.0.0.1";
  port = 20000;
  config = default_outstation;
  running = false;
}

abbrev entry : Entry ℕ
entry = record {
  server = record {
    ip = text "127.0.0.1";
    port = 20000;
    config = default_outstation;
    runtime = text "docker";
    server = docker service;
  };
  outside = record { runs = []; calls = [] };
}

docker_never_ready_example :
    (let result = thread_end (Runtime.start works returns [] entry).0 in
      let w = run (server 0 result ∷ late_probes) delayed_world in
      (w.starter.ready_event ≡ false)
      × (wait_until_ready w.starter.ready_event w.starter ≡ ok false))
unfolding init
docker_never_ready_example =
    docker_never_ready works returns [] entry service 0 0 delayed_world late_probes refl refl refl
      refl refl no_other_thread no_probe refl refl (refl, (refl, (refl, (refl, (refl, tt)))))
