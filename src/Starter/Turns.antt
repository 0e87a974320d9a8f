-- ===== src/Starter/Turns.antt =====
-- The starter with all its threads: any order of their steps is a list of turns. What the code calls
-- outside is in the turn: how the constructor, `start` and `stop` of a server and a probe end.
use cursus.Prelude.{
  ℕ, zero, suc, Bool, true, false, Option, none, some, List, [], ◌∷◌, ◌++◌, length, get_elem?,
  if◌then◌else◌,
}
use cursus.Wire.{Result, ok, raised, runtime_error}
use cursus.Starter.Threads.{
  Starter, ServerThread, created, entered, Monitor, loop_head, Instruction, create_thread,
  start_thread, start_monitor, check_error, call_stop, reraise, start_program, stop_program,
  clean_up, write, server_step, monitor_step, is_some,
}

-- The starter, its threads by number, what is left of the method that was called, and how the last
-- one has ended: none before the first call and while one runs.
pub record World : Type 0 where
  pub starter : Starter
  pub threads : List ServerThread
  pub monitors : List Monitor
  pub pending : List Instruction
  pub answer : Option (Result (Unit {0}))

abbrev pub idle : Starter → World
idle s = record { starter = s; threads = []; monitors = []; pending = []; answer = none }

pub data Turn : Type 0 where
  start_server : Result (Unit {0}) → Turn
  stop_server : Turn
  main : Result (Unit {0}) → Turn
  server : ℕ → Result (Unit {0}) → Turn
  monitor : ℕ → Result Bool → Turn

module _ {ℓ} {A : Type ℓ} where
  -- A list with an entry replaced, if it has one at the index.
  unfoldable pub set_elem : ℕ → A → List A → List A
  set_elem i a [] = []
  set_elem zero a (x ∷ xs) = a ∷ xs
  set_elem (suc i) a (x ∷ xs) = x ∷ set_elem i a xs

-- `Thread.start`, on a thread that was just made.
abbrev pub started : ServerThread → ServerThread
started created = entered
started thread = thread

abbrev pub start_at : ℕ → Option ServerThread → List ServerThread → List ServerThread
start_at t none threads = threads
start_at t (some thread) threads = set_elem t (started thread) threads

abbrev pub threads_after : Instruction → List ServerThread → List ServerThread
threads_after (create_thread t) threads = threads ++ created ∷ []
threads_after (start_thread t) threads = start_at t (get_elem? threads t) threads
threads_after i threads = threads

abbrev pub monitors_after : Instruction → List Monitor → List Monitor
monitors_after (start_monitor m) monitors = monitors ++ loop_head ∷ []
monitors_after i monitors = monitors

-- `stop` of the server is called in the `try` of `stop_server`.
abbrev pub pending_after : Instruction → Result (Unit {0}) → List Instruction → List Instruction
pending_after call_stop (ok _) rest = rest
pending_after call_stop (raised e) rest = clean_up (reraise e ∷ [])
pending_after i result rest = rest

-- A method that has nothing left to do returns.
abbrev pub answered : List Instruction → Option (Result (Unit {0}))
answered [] = some (ok tt)
answered (i ∷ rest) = none

abbrev pub answer_after : Instruction → List Instruction → Starter → Option (Result (Unit {0}))
answer_after check_error rest s =
    some (if is_some s.server_error then raised runtime_error else ok tt)
answer_after (reraise e) rest s = some (raised e)
answer_after i rest s = answered rest

-- An instruction of the calling thread, when a blocking call ends with the result.
unfoldable pub execute : Result (Unit {0}) → Instruction → List Instruction → World → World
execute result i rest w = record {
  starter = write i w.starter;
  threads = threads_after i w.threads;
  monitors = monitors_after i w.monitors;
  pending = pending_after i result rest;
  answer = answer_after i rest w.starter;
}

abbrev pub main_turn : Result (Unit {0}) → List Instruction → World → World
main_turn result [] w = w
main_turn result (i ∷ rest) w = execute result i rest w

-- A call, when no method runs. The module and the class are looked up before the server is made; an
-- exception of either ends the call.
unfoldable pub begin_start : Result (Unit {0}) → World → World
begin_start (ok _) w = record w {
  pending = start_program (length w.threads) (length w.monitors);
  answer = none;
}
begin_start (raised e) w = record w { answer = some (raised e) }

unfoldable pub begin_stop : World → World
begin_stop w =
    let program = stop_program w.starter.server in
    record w { pending = program; answer = answered program }

abbrev pub call_turn : List Instruction → World → World → World
call_turn [] begun w = begun
call_turn (i ∷ rest) begun w = w

abbrev pub server_turn : ℕ → Result (Unit {0}) → Option ServerThread → World → World
server_turn i result none w = w
server_turn i result (some thread) w =
    let (s, thread') = server_step result w.starter thread in
    record w { starter = s; threads = set_elem i thread' w.threads }

abbrev pub monitor_turn : ℕ → Result Bool → Option Monitor → World → World
monitor_turn i result none w = w
monitor_turn i result (some m) w =
    let (s, m') = monitor_step w.threads result w.starter m in
    record w { starter = s; monitors = set_elem i m' w.monitors }

-- A turn of a thread that is not there or waits leaves everything as it is.
unfoldable pub step : Turn → World → World
step (start_server made) w = call_turn w.pending (begin_start made w) w
step stop_server w = call_turn w.pending (begin_stop w) w
step (main result) w = main_turn result w.pending w
step (server i result) w = server_turn i result (get_elem? w.threads i) w
step (monitor i result) w = monitor_turn i result (get_elem? w.monitors i) w

unfoldable pub run : List Turn → World → World
unfolding step
run [] w = w
run (turn ∷ turns) w = run turns (step turn w)

-- `wait_until_ready`, from what `Event.wait` returned; the error is read afterwards.
unfoldable pub wait_until_ready : Bool → Starter → Result Bool
wait_until_ready is_ready s =
    if is_ready then ok true else if is_some s.server_error then raised runtime_error else ok false
