-- ===== src/Starter/Early.antt =====
-- A first start whose server ends during the delay.
use cursus.Prelude.{
  ℕ, ◌≡◌, refl, sym, subst, ap, ◌∙◌, Option, some, List, [], ◌∷◌, inl, inr, get_elem?, All,
  if◌then◌else◌,
}
use cursus.Wire.{Error, Result, ok, raised, runtime_error, Text}
use cursus.Starter.Threads.{
  init, ServerThread, created, entered, checked, serving, ended, Instruction, check_error, is_some,
}
use cursus.Starter.Turns.{
  World, idle, Turn, start_server, main, step, run, begin_start, execute, main_turn,
}
use cursus.Starter.Over.{GoesOn}
use cursus.Starter.FirstThread.{error_of, Follows, run-Follows}

-- What `start_server` makes of where its server thread is when it wakes up.
unfoldable pub outcome : Option ServerThread → Result (Unit {0})
outcome (some (ended (raised e))) = raised runtime_error
outcome o = ok tt

checked_answer :
    (t : ServerThread)
    → (if is_some (error_of t) then raised runtime_error else ok tt) ≡ outcome (some t)
unfolding error_of outcome
checked_answer created = refl
checked_answer entered = refl
checked_answer checked = refl
checked_answer (serving n) = refl
checked_answer (ended (ok x)) = refl
checked_answer (ended (raised e)) = refl

wake_up :
    (r : Result (Unit {0})) (w : World)
    → w.pending ≡ check_error ∷ []
    → Follows w.pending w
    → (step (main r) w).answer ≡ some (outcome (get_elem? w.threads 0))
unfolding step execute
wake_up r w asleep v = elim (subst (λ (p : List Instruction). Follows p w) asleep v) [
  | inl (empty, sound, p) ↦ absurd (cc)
  | inr (t, one, same, ps) ↦
      ap (λ (p : List Instruction). (main_turn r p w).answer) asleep
      ∙ ap (λ (e : Option Error). some (if is_some e then raised runtime_error else ok tt)) same
      ∙ ap some (checked_answer t)
      ∙ ap (λ (ts : List ServerThread). some (outcome (get_elem? ts 0))) (sym one)
]

-- `start_server` of a new starter, whose class is found and whose server can be made: however the
-- steps of the server thread, the monitor and the caller interleave, when the caller wakes up from its
-- delay `start_server` raises RuntimeError if the server thread has ended by an exception, whatever it
-- is, and else returns, also if the server's `start` has returned.
pub start_server-early_end :
    (protocol : Text) (port delay : ℕ) (turns : List Turn) (r : Result (Unit {0}))
    → All GoesOn turns
    → (run (start_server (ok tt) ∷ turns) (idle (init protocol port delay))).pending
      ≡ check_error ∷ []
    → (let w = run (start_server (ok tt) ∷ turns) (idle (init protocol port delay)) in
        (step (main r) w).answer ≡ some (outcome (get_elem? w.threads 0)))
unfolding run begin_start init
start_server-early_end protocol port delay turns r b asleep =
    wake_up r (run turns (begin_start (ok tt) (idle (init protocol port delay)))) asleep (
      run-Follows turns (begin_start (ok tt) (idle (init protocol port delay))) b
        (inl (refl, refl, (refl, (refl, (refl, tt))))))
