-- ===== src/Starter/Linked.antt =====
-- The server, its thread and its monitor are kept and dropped together.
use cursus.Prelude.{
  ℕ, ◌≡◌, refl, subst, sym, Bool, true, false, Option, none, some, List, [], ◌∷◌, get_elem?,
}
use cursus.Wire.{Result, ok, raised, Text}
use cursus.Starter.Threads.{
  Starter, init, ServerThread, created, entered, checked, serving, ended, Monitor, loop_head,
  thread_seen, alive_seen, probing, found, sleeping, gone, announced, died, Instruction,
  store_server, create_thread, start_thread, start_monitor, clear_ready, clear_error, check_error,
  call_stop, join, clear_server, clear_thread, clear_monitor, reraise, write, server_step,
  monitor_step, check_server, call_server, end_server, is_some, stop_program,
}
use cursus.Starter.Turns.{
  World, idle, Turn, start_server, stop_server, main, server, monitor, step, run, begin_start,
  begin_stop, execute, main_turn, call_turn, server_turn, monitor_turn,
}

-- Which of the three attributes are not None.
abbrev Held : Type 0
Held = Bool × Bool × Bool

abbrev held : Starter → Held
held s = (is_some s.server, is_some s.server_thread, is_some s.ready_monitor_thread)

abbrev held_after : Instruction → Held → Held
held_after (store_server n) (a, b, c) = (true, b, c)
held_after (create_thread t) (a, b, c) = (a, true, c)
held_after (start_monitor m) (a, b, c) = (a, b, true)
held_after clear_server (a, b, c) = (false, b, c)
held_after clear_thread (a, b, c) = (a, false, c)
held_after clear_monitor (a, b, c) = (a, b, false)
held_after _ h = h

-- When everything pending is done.
settled : List Instruction → Held → Held
settled [] h = h
settled (i ∷ rest) h = settled rest (held_after i h)

abbrev pub IsLinked : Held → Type 0
IsLinked (a, b, c) = (a ≡ b) × (b ≡ c)

record SettlesLinked (w : World) : Type 0 where
  linked : IsLinked (settled w.pending (held w.starter))

held-write : (i : Instruction) (s : Starter) → held (write i s) ≡ held_after i (held s)
unfolding write
held-write (store_server n) s = refl
held-write (create_thread t) s = refl
held-write (start_thread t) s = refl
held-write (start_monitor m) s = refl
held-write clear_ready s = refl
held-write clear_error s = refl
held-write check_error s = refl
held-write call_stop s = refl
held-write join s = refl
held-write clear_server s = refl
held-write clear_thread s = refl
held-write clear_monitor s = refl
held-write (reraise e) s = refl

held-end_server : (r : Result (Unit {0})) (s : Starter) → held (end_server r s).0 ≡ held s
held-end_server (ok x) s = refl
held-end_server (raised e) s = refl

held-check_server : (o : Option ℕ) (s : Starter) → held (check_server o s).0 ≡ held s
held-check_server none s = refl
held-check_server (some n) s = refl

held-call_server : (o : Option ℕ) (s : Starter) → held (call_server o s).0 ≡ held s
held-call_server none s = refl
held-call_server (some n) s = refl

held-server_step :
    (r : Result (Unit {0})) (s : Starter) (t : ServerThread) → held (server_step r s t).0 ≡ held s
unfolding server_step
held-server_step r s created = refl
held-server_step r s entered = held-check_server s.server s
held-server_step r s checked = held-call_server s.server s
held-server_step r s (serving n) = held-end_server r s
held-server_step r s (ended x) = refl

held-monitor_step :
    (threads : List ServerThread) (r : Result Bool) (s : Starter) (m : Monitor)
    → held (monitor_step threads r s m).0 ≡ held s
unfolding monitor_step
held-monitor_step threads r s loop_head = refl
held-monitor_step threads r s thread_seen = refl
held-monitor_step threads r s alive_seen = refl
held-monitor_step threads r s probing = refl
held-monitor_step threads r s found = refl
held-monitor_step threads r s sleeping = refl
held-monitor_step threads r s gone = refl
held-monitor_step threads r s announced = refl
held-monitor_step threads r s (died e) = refl

written :
    (i : Instruction) (rest : List Instruction) (s : Starter)
    → IsLinked (settled (i ∷ rest) (held s))
    → IsLinked (settled rest (held (write i s)))
unfolding settled
written i rest s v = subst (λ (h : Held). IsLinked (settled rest h)) (sym (held-write i s)) v

-- A raised `stop` goes on to the clean-up, which drops all three.
execute-linked :
    (result : Result (Unit {0})) (i : Instruction) (rest : List Instruction) (w : World)
    → IsLinked (settled (i ∷ rest) (held w.starter))
    → SettlesLinked (execute result i rest w)
unfolding settled execute
execute-linked result (store_server n) rest w v = record {
  linked = written (store_server n) rest w.starter v;
}
execute-linked result (create_thread t) rest w v = record {
  linked = written (create_thread t) rest w.starter v;
}
execute-linked result (start_thread t) rest w v = record {
  linked = written (start_thread t) rest w.starter v;
}
execute-linked result (start_monitor m) rest w v = record {
  linked = written (start_monitor m) rest w.starter v;
}
execute-linked result clear_ready rest w v = record {
  linked = written clear_ready rest w.starter v;
}
execute-linked result clear_error rest w v = record {
  linked = written clear_error rest w.starter v;
}
execute-linked result check_error rest w v = record {
  linked = written check_error rest w.starter v;
}
execute-linked result join rest w v = record { linked = written join rest w.starter v }
execute-linked result clear_server rest w v = record {
  linked = written clear_server rest w.starter v;
}
execute-linked result clear_thread rest w v = record {
  linked = written clear_thread rest w.starter v;
}
execute-linked result clear_monitor rest w v = record {
  linked = written clear_monitor rest w.starter v;
}
execute-linked result (reraise e) rest w v = record {
  linked = written (reraise e) rest w.starter v;
}
execute-linked (ok x) call_stop rest w v = record { linked = written call_stop rest w.starter v }
execute-linked (raised e) call_stop rest w v = record { linked = (refl, refl) }

main_turn-linked :
    (result : Result (Unit {0})) (pending : List Instruction) (w : World)
    → w.pending ≡ pending
    → SettlesLinked w
    → SettlesLinked (main_turn result pending w)
main_turn-linked result [] w e v = v
main_turn-linked result (i ∷ rest) w e v =
    execute-linked result i rest w
      (subst (λ (is : List Instruction). IsLinked (settled is (held w.starter))) e v.linked)

stop_program-settled :
    (o : Option ℕ) (b c : Bool)
    → IsLinked (is_some o, b, c)
    → IsLinked (settled (stop_program o) (is_some o, b, c))
unfolding settled
stop_program-settled none b c v = v
stop_program-settled (some n) b c v = (refl, refl)

begin_start-linked :
    (made : Result (Unit {0})) (w : World) → SettlesLinked w → SettlesLinked (begin_start made w)
unfolding begin_start settled
begin_start-linked (ok x) w v = record { linked = (refl, refl) }
begin_start-linked (raised e) w v = record { linked = v.linked }

call_turn-linked :
    (pending : List Instruction) (begun w : World)
    → SettlesLinked w
    → (pending ≡ [] → SettlesLinked begun)
    → SettlesLinked (call_turn pending begun w)
call_turn-linked [] begun w v h = h refl
call_turn-linked (i ∷ rest) begun w v h = v

server_turn-linked :
    (i : ℕ) (r : Result (Unit {0})) (o : Option ServerThread) (w : World)
    → SettlesLinked w
    → SettlesLinked (server_turn i r o w)
server_turn-linked i r none w v = v
server_turn-linked i r (some t) w v = record {
  linked =
      subst (λ (h : Held). IsLinked (settled w.pending h)) (sym (held-server_step r w.starter t))
        v.linked;
}

monitor_turn-linked :
    (i : ℕ) (r : Result Bool) (o : Option Monitor) (w : World)
    → SettlesLinked w
    → SettlesLinked (monitor_turn i r o w)
monitor_turn-linked i r none w v = v
monitor_turn-linked i r (some m) w v = record {
  linked =
      subst (λ (h : Held). IsLinked (settled w.pending h))
        (sym (held-monitor_step w.threads r w.starter m)) v.linked;
}

step-linked : (turn : Turn) (w : World) → SettlesLinked w → SettlesLinked (step turn w)
unfolding step begin_stop settled
step-linked (start_server made) w v =
    call_turn-linked w.pending (begin_start made w) w v (λ _. begin_start-linked made w v)
step-linked stop_server w v = call_turn-linked w.pending (begin_stop w) w v (λ e. record {
  linked =
      stop_program-settled w.starter.server (is_some w.starter.server_thread)
        (is_some w.starter.ready_monitor_thread)
        (subst (λ (is : List Instruction). IsLinked (settled is (held w.starter))) e v.linked);
})
step-linked (main result) w v = main_turn-linked result w.pending w refl v
step-linked (server i result) w v = server_turn-linked i result (get_elem? w.threads i) w v
step-linked (monitor i result) w v = monitor_turn-linked i result (get_elem? w.monitors i) w v

run-linked : (turns : List Turn) (w : World) → SettlesLinked w → SettlesLinked (run turns w)
unfolding run
run-linked [] w v = v
run-linked (turn ∷ turns) w v = run-linked turns (step turn w) (step-linked turn w v)

-- A new starter, and any order of the turns of all threads: whenever no method runs, the server, its
-- thread and its monitor are all kept, or all None.
pub run-IsLinked :
    (protocol : Text) (port delay : ℕ) (turns : List Turn)
    → (run turns (idle (init protocol port delay))).pending ≡ []
    → (let w = run turns (idle (init protocol port delay)) in
        (is_some w.starter.server ≡ is_some w.starter.server_thread)
        × (is_some w.starter.server_thread ≡ is_some w.starter.ready_monitor_thread))
unfolding init settled
run-IsLinked protocol port delay turns e =
    let w = run turns (idle (init protocol port delay)) in
    let v = run-linked turns (idle (init protocol port delay)) (record { linked = (refl, refl) }) in
    subst (λ (is : List Instruction). IsLinked (settled is (held w.starter))) e v.linked
