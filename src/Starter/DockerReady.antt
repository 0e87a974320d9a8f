-- ===== src/Starter/DockerReady.antt =====
-- The starter in front of `Dnp3Server` with its default runtime.
use cursus.Prelude.{ℕ, ◌≡◌, ◌≢◌, refl, false, none, some, List, [], ◌∷◌, get_elem?, All}
use cursus.Wire.{Result, ok, raised}
use cursus.Wire.Texts.{text}
use cursus.Wire.Progress.{Progress}
use cursus.Dnp3.Docker.{Dnp3DockerServer, ComposeRun, Host, compose_run, run_compose}
use cursus.Dnp3.Docker
use cursus.Dnp3.Outstation.{Call, Round}
use cursus.Dnp3.Runtime.{docker, Entry}
use cursus.Dnp3.Runtime
use cursus.Starter.Threads.{serving, check_error, thread_alive}
use cursus.Starter.Turns.{World, Turn, server, run, wait_until_ready}
use cursus.Starter.Over.{past_check, GoesOn}
use cursus.Starter.NeverReady.{never_ready}

-- How a server thread ends: with what `start` raised, or having returned.
abbrev pub thread_end : Result Progress → Result (Unit {0})
thread_end (ok p) = ok tt
thread_end (raised e) = raised e

module _ {Float : Type 0} (host : Host)
    (pydnp3 : List (Call Float) → Call Float → Result (Unit {0})) where
  open host use {subprocess_run}

  abbrev pub up : Dnp3DockerServer → ComposeRun
  up s = compose_run host (text "up" ∷ text "--build" ∷ text "-d" ∷ []) 60 s

  docker_start_returns :
      (rounds : List Round) (e : Entry Float) (s : Dnp3DockerServer)
      → e.server.server ≡ docker s
      → s.running ≡ false
      → subprocess_run e.outside.runs (up s) ≡ ok tt
      → thread_end (Runtime.start host pydnp3 rounds e).0 ≡ ok tt
  unfolding Runtime.start Docker.start run_compose
  docker_start_returns rounds e s chosen unstarted started =
      rw (chosen, Runtime.start) (simp (unstarted, started) refl)

  -- `start_server` sleeps, with the event unset and no error, in front of a server with the Docker
  -- runtime that does not run; its thread is the only one alive, and no monitor has seen it alive in a
  -- round that is not over. `docker compose up` returns and so does the thread: whatever the threads,
  -- the monitors and their probes do from then on, as long as `start_server` and `stop_server` are not
  -- called again, the event is not set, and `wait_until_ready` ends with False when its timeout elapses.
  pub docker_never_ready :
      (rounds : List Round) (e : Entry Float) (s : Dnp3DockerServer) (i n : ℕ) (w : World)
      (turns : List Turn)
      → e.server.server ≡ docker s
      → s.running ≡ false
      → subprocess_run e.outside.runs (up s) ≡ ok tt
      → w.pending ≡ check_error ∷ []
      → get_elem? w.threads i ≡ some (serving n)
      → ((k : ℕ) → k ≢ i → thread_alive (get_elem? w.threads k) ≡ false)
      → ((k : ℕ) → past_check (get_elem? w.monitors k) ≡ false)
      → w.starter.ready_event ≡ false
      → w.starter.server_error ≡ none
      → All GoesOn turns
      → (let result = thread_end (Runtime.start host pydnp3 rounds e).0 in
          let w' = run (server i result ∷ turns) w in
          (w'.starter.ready_event ≡ false)
          × (wait_until_ready w'.starter.ready_event w'.starter ≡ ok false))
  docker_never_ready rounds e s i n w turns chosen idle_service started asleep at others heads unset
        sound b =
      rw (docker_start_returns rounds e s chosen idle_service started)
        (never_ready i n w turns asleep at others heads unset sound b)
