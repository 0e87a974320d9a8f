-- ===== src/Starter/Schedules.antt =====
-- The starter under orders of turns that matter: a stop, a server that ends while `start_server`
-- sleeps, a probe that succeeds, and a monitor that is late.
use cursus.Prelude.{
  ℕ, ◌≡◌, refl, ap, ◌∙◌, Bool, true, false, Option, none, some, List, [], ◌∷◌, ◌++◌, get_elem?,
  replicate,
}
use cursus.Wire.{Result, ok, raised}
use cursus.Starter.Threads.{Starter, found, Instruction, write, monitor_step}
use cursus.Starter.Effects.{run-append}
use cursus.Starter.Turns.{World, Turn, stop_server, main, monitor, step, run, begin_stop, execute}

-- The starter as a `stop_server` leaves it.
abbrev pub cleared : Starter → Starter
cleared s = record s {
  server = none;
  server_thread = none;
  server_error = none;
  ready_event = false;
  ready_monitor_thread = none;
}

-- The turns of a `stop_server` that nothing comes between: the server's `stop` ends with the result.
abbrev pub stop_turns : Result (Unit {0}) → List Turn
stop_turns result = stop_server ∷ replicate 7 (main result)

-- A world whose fields are known, with them written out.
written_out :
    (o : Option ℕ) (w : World)
    → w.pending ≡ []
    → w.starter.server ≡ o
    → w ≡ record w { starter = record w.starter { server = o }; pending = [] }
written_out o w idle kept =
    ap (λ (is : List Instruction). record w { pending = is }) idle
    ∙ ap (λ (n : Option ℕ). record w { starter = record w.starter { server = n }; pending = [] })
        kept

stops :
    (result : Result (Unit {0})) (n : ℕ) (w : World)
    → run
        (stop_turns result)
        (record w { starter = record w.starter { server = some n }; pending = [] })
      ≡ record w { starter = cleared w.starter; pending = []; answer = some result }
unfolding run step begin_stop execute write
stops (ok x) n w = refl
stops (raised e) n w = refl

-- A server is kept, no method runs, and no server thread or monitor has a turn from the call of
-- `stop_server` to its end: it ends as the server's `stop` does, and whether that returns or raises,
-- the starter is then cleared.
pub run-stop_turns :
    (result : Result (Unit {0})) (n : ℕ) (w : World)
    → w.pending ≡ []
    → w.starter.server ≡ some n
    → run (stop_turns result) w
      ≡ record w { starter = cleared w.starter; pending = []; answer = some result }
run-stop_turns result n w idle kept =
    ap (run (stop_turns result)) (written_out (some n) w idle kept) ∙ stops result n w

-- A monitor whose probe has succeeded before a `stop_server`, and that goes on after it: the event of
-- a starter that keeps no server is set.
pub late_monitor :
    (i n : ℕ) (r : Result Bool) (w : World)
    → w.pending ≡ []
    → w.starter.server ≡ some n
    → get_elem? w.monitors i ≡ some found
    → (let w' = run (stop_turns (ok tt) ++ monitor i r ∷ []) w in
        (w'.starter.ready_event ≡ true)
        × (w'.starter.server ≡ none)
        × (w'.starter.server_thread ≡ none)
        × (w'.answer ≡ some (ok tt)))
unfolding run step monitor_step
late_monitor i n r w idle kept at =
    rw
      (
        run-append (stop_turns (ok tt)) (monitor i r ∷ []) w,
        run-stop_turns (ok tt) n w idle kept,
        at,
      )
      (refl, refl, refl, refl)
