-- ===== src/Starter/Causes.antt =====
-- How the readiness event comes to be set.
use cursus.Prelude.{
  ℕ, ◌≡◌, refl, ap, sym, ◌∙◌, Bool, true, Option, none, some, List, ◌⊎◌, inl, inr, [], ◌∷◌,
  get_elem?,
}
use cursus.Wire.{Result, ok, raised}
use cursus.Starter.Threads.{
  ServerThread, Monitor, loop_head, probing, found, Instruction, store_server, create_thread,
  start_thread, start_monitor, clear_ready, clear_error, check_error, call_stop, join, clear_server,
  clear_thread, clear_monitor, reraise, monitor_step,
}
use cursus.Starter.Turns.{
  World, Turn, start_server, stop_server, main, server, monitor, step, begin_start, begin_stop,
  execute, main_turn, call_turn, server_turn, monitor_turn, monitors_after,
}
use cursus.Starter.Effects.{
  get_elem?-set_elem-cases, get_elem?-added, monitor_step-ready, monitor_step-found,
  server_step-ready, write-ready,
}

-- A turn has brought a monitor to the event: it was there before, or its probe has just succeeded.
abbrev pub Arrives : ℕ → Turn → World → Type 0
Arrives i turn w =
    (get_elem? w.monitors i ≡ some found)
    ⊎ ((turn ≡ monitor i (ok true)) × (get_elem? w.monitors i ≡ some probing))

-- The event was set, or the turn is that of a monitor behind its successful probe.
abbrev pub Sets : Turn → World → Type 0
Sets turn w =
    (w.starter.ready_event ≡ true)
    ⊎ ((i : ℕ) × (r : Result Bool) × (turn ≡ monitor i r) × (get_elem? w.monitors i ≡ some found))

monitors_after-found :
    (instruction : Instruction) (monitors : List Monitor) (i : ℕ)
    → get_elem? (monitors_after instruction monitors) i ≡ some found
    → get_elem? monitors i ≡ some found
monitors_after-found (start_monitor m) monitors i h =
    elim (get_elem?-added monitors i found loop_head h) [ inl old ↦ old | inr new ↦ absurd (cc) ]
monitors_after-found (store_server n) monitors i h = h
monitors_after-found (create_thread t) monitors i h = h
monitors_after-found (start_thread t) monitors i h = h
monitors_after-found clear_ready monitors i h = h
monitors_after-found clear_error monitors i h = h
monitors_after-found check_error monitors i h = h
monitors_after-found call_stop monitors i h = h
monitors_after-found join monitors i h = h
monitors_after-found clear_server monitors i h = h
monitors_after-found clear_thread monitors i h = h
monitors_after-found clear_monitor monitors i h = h
monitors_after-found (reraise e) monitors i h = h

main_turn-found :
    (r : Result (Unit {0})) (pending : List Instruction) (i : ℕ) (w : World)
    → get_elem? (main_turn r pending w).monitors i ≡ some found
    → get_elem? w.monitors i ≡ some found
unfolding execute
main_turn-found r [] i w h = h
main_turn-found r (instruction ∷ rest) i w h = monitors_after-found instruction w.monitors i h

main_turn-ready :
    (r : Result (Unit {0})) (pending : List Instruction) (w : World)
    → (main_turn r pending w).starter.ready_event ≡ true
    → w.starter.ready_event ≡ true
unfolding execute
main_turn-ready r [] w h = h
main_turn-ready r (instruction ∷ rest) w h = write-ready instruction w.starter h

-- Neither a call nor a server thread touches the event or a monitor.
record IsApart (w w' : World) : Type 0 where
  same_monitors : w'.monitors ≡ w.monitors
  same_event : w'.starter.ready_event ≡ w.starter.ready_event

call_turn-IsApart :
    (pending : List Instruction) (begun w : World)
    → IsApart w begun
    → IsApart w (call_turn pending begun w)
call_turn-IsApart [] begun w v = v
call_turn-IsApart (i ∷ rest) begun w v = record { same_monitors = refl; same_event = refl }

begin_start-IsApart : (made : Result (Unit {0})) (w : World) → IsApart w (begin_start made w)
unfolding begin_start
begin_start-IsApart (ok x) w = record { same_monitors = refl; same_event = refl }
begin_start-IsApart (raised e) w = record { same_monitors = refl; same_event = refl }

server_turn-IsApart :
    (j : ℕ) (r : Result (Unit {0})) (o : Option ServerThread) (w : World)
    → IsApart w (server_turn j r o w)
server_turn-IsApart j r none w = record { same_monitors = refl; same_event = refl }
server_turn-IsApart j r (some t) w = record {
  same_monitors = refl;
  same_event = server_step-ready r w.starter t;
}

monitor_turn-Arrives :
    (i j : ℕ) (r : Result Bool) (o : Option Monitor) (w : World)
    → get_elem? w.monitors j ≡ o
    → get_elem? (monitor_turn j r o w).monitors i ≡ some found
    → Arrives i (monitor j r) w
monitor_turn-Arrives i j r none w at h = inl h
monitor_turn-Arrives i j r (some m) w at h =
    elim (get_elem?-set_elem-cases w.monitors i j found (monitor_step w.threads r w.starter m).1
      h) [
        | inl old ↦ inl old
        | inr (same, new) ↦
            let (probed, succeeded) = monitor_step-found w.threads r w.starter m new in
            inr (
              ap (λ (k : ℕ). monitor k r) same ∙ ap (monitor i) succeeded,
              ap (get_elem? w.monitors) (sym same) ∙ at ∙ ap some probed,
            )
      ]

monitor_turn-Sets :
    (j : ℕ) (r : Result Bool) (o : Option Monitor) (w : World)
    → get_elem? w.monitors j ≡ o
    → (monitor_turn j r o w).starter.ready_event ≡ true
    → Sets (monitor j r) w
monitor_turn-Sets j r none w at h = inl h
monitor_turn-Sets j r (some m) w at h = elim (monitor_step-ready w.threads r w.starter m h) [
  | inl old ↦ inl old
  | inr behind ↦ inr (j, r, refl, at ∙ ap some behind)
]

pub step-Arrives :
    (turn : Turn) (i : ℕ) (w : World)
    → get_elem? (step turn w).monitors i ≡ some found
    → Arrives i turn w
unfolding step begin_stop
step-Arrives (start_server made) i w h =
    let v = call_turn-IsApart w.pending (begin_start made w) w (begin_start-IsApart made w) in
    inl (ap (λ (ms : List Monitor). get_elem? ms i) (sym v.same_monitors) ∙ h)
step-Arrives stop_server i w h =
    let v =
      call_turn-IsApart w.pending (begin_stop w) w
        (record { same_monitors = refl; same_event = refl }) in
    inl (ap (λ (ms : List Monitor). get_elem? ms i) (sym v.same_monitors) ∙ h)
step-Arrives (main r) i w h = inl (main_turn-found r w.pending i w h)
step-Arrives (server j r) i w h =
    let v = server_turn-IsApart j r (get_elem? w.threads j) w in
    inl (ap (λ (ms : List Monitor). get_elem? ms i) (sym v.same_monitors) ∙ h)
step-Arrives (monitor j r) i w h = monitor_turn-Arrives i j r (get_elem? w.monitors j) w refl h

pub step-Sets : (turn : Turn) (w : World) → (step turn w).starter.ready_event ≡ true → Sets turn w
unfolding step begin_stop
step-Sets (start_server made) w h =
    let v = call_turn-IsApart w.pending (begin_start made w) w (begin_start-IsApart made w) in
    inl (sym v.same_event ∙ h)
step-Sets stop_server w h =
    let v =
      call_turn-IsApart w.pending (begin_stop w) w
        (record { same_monitors = refl; same_event = refl }) in
    inl (sym v.same_event ∙ h)
step-Sets (main r) w h = inl (main_turn-ready r w.pending w h)
step-Sets (server j r) w h =
    inl (sym (server_turn-IsApart j r (get_elem? w.threads j) w).same_event ∙ h)
step-Sets (monitor j r) w h = monitor_turn-Sets j r (get_elem? w.monitors j) w refl h
