-- ===== src/Dnp3/Service.antt =====
-- The life of the Docker service: start and stop, and what a failed command leaves.
use cursus.Wire.Keeps.{Keeps, keeps_rules}
use cursus.Prelude.{
  drop, ℕ, ◌≡◌, refl, ap, Bool, true, false, List, [], ◌∷◌, ◌++◌, arith, Bool-cases, inl, inr, ◌⊎◌,
  sym,
}
use cursus.Wire.{Text, value_error, Error, Result, ok, raised, Result-cases}
use cursus.Wire.Texts.{text}
use cursus.Wire.Decimal.{decimal, int_of_text-decimal}
use cursus.Dnp3.Docker.{
  Dnp3DockerServer, ComposeRun, Hosted, Host, project_name, compose_run, run_compose, start,
  kill_on_timeout, take_down, stop, timed_out,
}

-- Two services with different ports are different compose projects.
project_name-port : (s t : Dnp3DockerServer) → project_name s ≡ project_name t → s.port ≡ t.port
unfolding project_name
project_name-port s t h =
    let e : decimal s.port ≡ decimal t.port = ap (λ (name : Text). drop 12 name) h in
    let no_int : Text → Result ℕ = λ _. raised value_error in
    let read = int_of_text-decimal no_int s.port in
    let also = int_of_text-decimal no_int t.port in cc

record HasServer (s : Dnp3DockerServer) (h : Hosted) : Type 0 where
  same : h.server ≡ s

module _ (host : Host) where
  open host use {subprocess_run}

  abbrev up : Dnp3DockerServer → ComposeRun
  up s = compose_run host (text "up" ∷ text "--build" ∷ text "-d" ∷ []) 60 s

  abbrev pub down : Dnp3DockerServer → ComposeRun
  down s = compose_run host (text "down" ∷ text "--remove-orphans" ∷ []) 20 s

  abbrev pub kill : Dnp3DockerServer → ComposeRun
  kill s = compose_run host (text "kill" ∷ []) 10 s

  run_compose-HasServer :
      (s : Dnp3DockerServer) (arguments : List Text) (timeout : ℕ)
      → Keeps (HasServer s) (run_compose host arguments timeout)
  unfolding run_compose
  run_compose-HasServer s arguments timeout = record { at = λ h v. record { same = v.same } }

  kill_on_timeout-HasServer :
      (s : Dnp3DockerServer) (r : Result (Unit {0})) → Keeps (HasServer s) (kill_on_timeout host r)
  unfolding kill_on_timeout
  kill_on_timeout-HasServer s r = search (keeps_rules, run_compose-HasServer)

  take_down-server : (h : Hosted) → (take_down host h).1.server ≡ h.server
  unfolding take_down run_compose
  take_down-server h =
      let run = down h.server in
      ((kill_on_timeout-HasServer h.server (subprocess_run h.runs run)).at
        (record h { runs = h.runs ++ run ∷ [] }) (record { same = refl })).same

  -- Whatever the commands do, also where one raises: once `stop` is over the service is not marked as
  -- running and is otherwise as it was, and a second `stop` returns and runs no command.
  stop_twice :
      (h : Hosted)
      → ((stop host h).1.server ≡ record h.server { running = false })
        × (stop host (stop host h).1 ≡ (ok tt, (stop host h).1))
  unfolding stop
  stop_twice h = elim (Bool-cases h.server.running) [
    | inr idle ↦ simp idle (ap (λ (b : Bool). record h.server { running = b }) idle, refl)
    | inl busy ↦
        simp busy
          (ap (λ (s : Dnp3DockerServer). record s { running = false }) (take_down-server h), refl)
  ]

  -- A `start` that raises, such as one that runs into its timeout: `stop` returns and runs no
  -- command, so what `up` has started is not taken down.
  pub stop-start_raised :
      (h h' : Hosted) (e : Error) → start host h ≡ (raised e, h') → stop host h' ≡ (ok tt, h')
  unfolding start stop run_compose
  stop-start_raised h h' e s = ground (arith, Result-cases (subprocess_run h.runs (up h.server)))

  -- A running service, and whatever the commands do: `stop` runs some commands, and ends as the last
  -- of them does; that one is `down`, or it is `kill` and `kill` has raised. In each case the service
  -- is no longer marked as running.
  pub stop-last :
      (h : Hosted)
      → h.server.running ≡ true
      → (before : List ComposeRun) × (last : ComposeRun) × ((stop host h).1.runs
          ≡ before ++ last ∷ [])
        × ((stop host h).0 ≡ subprocess_run before last)
        × ((last ≡ down h.server)
            ⊎ ((last ≡ kill h.server) × ((e : Error) × (subprocess_run before last ≡ raised e))))
        × ((stop host h).1.server ≡ record h.server { running = false })
  unfolding stop take_down kill_on_timeout run_compose
  stop-last h r =
      let once = h.runs ++ down h.server ∷ [] in
      let killed = once ++ kill h.server ∷ [] in
      elim (Bool-cases (timed_out (subprocess_run h.runs (down h.server)))) [
        | inr in_time ↦ simp (r, in_time) (h.runs, down h.server, refl, refl, inl refl, refl)
        | inl late ↦ elim (Result-cases (subprocess_run once (kill h.server))) [
          | inl (x, done) ↦ simp (r, late, done) (killed, down h.server, refl, refl, inl refl, refl)
          | inr (e, broken) ↦
              simp (r, late, broken)
                (once, kill h.server, refl, sym broken, inr (refl, (e, broken)), refl)
        ]
      ]
