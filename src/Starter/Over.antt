-- ===== src/Starter/Over.antt =====
-- Worlds where no server thread is alive and none will be announced as ready.
use cursus.Prelude.{
  sym, inr, inl, arith, ◌⊎◌, ◌≢◌, ℕ, zero, suc, ◌≡◌, refl, subst, ap, ◌∙◌, Bool, true, false,
  Option, none, some, List, [], ◌∷◌, get_elem?, All,
}
use cursus.Wire.{Result}
use cursus.Starter.Threads.{
  Instruction, write, check_error, Starter, ServerThread, created, entered, checked, serving, ended,
  is_alive, thread_alive, Monitor, loop_head, thread_seen, alive_seen, probing, found, sleeping,
  gone, announced, died, server_step, monitor_step, see_alive, see_thread,
}
use cursus.Starter.Turns.{
  main_turn, execute, World, Turn, start_server, stop_server, main, server, monitor, step, run,
  set_elem, server_turn, monitor_turn,
}

module _ {ℓ} {A : Type ℓ} where
  -- A test that no entry passes is passed by none after a replacement by one that does not pass it.
  set_elem_none :
      (f : Option A → Bool) (xs : List A) (j : ℕ) (y : A)
      → ((k : ℕ) → f (get_elem? xs k) ≡ false)
      → f (some y) ≡ false
      → (k : ℕ) → f (get_elem? (set_elem j y xs) k) ≡ false
  unfolding set_elem
  set_elem_none f [] j y h e k = h k
  set_elem_none f (x ∷ xs) zero y h e zero = e
  set_elem_none f (x ∷ xs) zero y h e (suc k) = h (suc k)
  set_elem_none f (x ∷ xs) (suc j) y h e zero = h zero
  set_elem_none f (x ∷ xs) (suc j) y h e (suc k) = set_elem_none f xs j y (λ i. h (suc i)) e k

  -- A test that one entry alone passes is passed by none after a replacement of this one.
  pub set_elem_last :
      (f : Option A → Bool) (xs : List A) (j : ℕ) (y : A)
      → f none ≡ false
      → ((k : ℕ) → k ≢ j → f (get_elem? xs k) ≡ false)
      → f (some y) ≡ false
      → (k : ℕ) → f (get_elem? (set_elem j y xs) k) ≡ false
  unfolding set_elem
  set_elem_last f [] j y empty h e k = empty
  set_elem_last f (x ∷ xs) zero y empty h e zero = e
  set_elem_last f (x ∷ xs) zero y empty h e (suc k) = h (suc k) (λ q. omega arith)
  set_elem_last f (x ∷ xs) (suc j) y empty h e zero = h zero (λ q. omega arith)
  set_elem_last f (x ∷ xs) (suc j) y empty h e (suc k) =
      set_elem_last f xs j y empty (λ i ne. h (suc i) (λ q. ne (omega arith))) e k

-- The next step of the monitor may be its probe or the event.
abbrev pub past_check : Option Monitor → Bool
past_check (some alive_seen) = true
past_check (some probing) = true
past_check (some found) = true
past_check o = false

-- No server thread is alive, no monitor is past its test for one, the event is not set, and
-- `start_server` or `stop_server` does not run, but for the end of a `start_server`.
pub record IsOver (w : World) : Type 0 where
  pub threads_over : (k : ℕ) → thread_alive (get_elem? w.threads k) ≡ false
  pub monitors_over : (k : ℕ) → past_check (get_elem? w.monitors k) ≡ false
  pub unset : w.starter.ready_event ≡ false
  pub sound : w.starter.server_error ≡ none
  pub at_end : (w.pending ≡ []) ⊎ (w.pending ≡ check_error ∷ [])

server_step_over :
    (r : Result (Unit {0})) (s : Starter) (t : ServerThread)
    → is_alive t ≡ false
    → server_step r s t ≡ (s, t)
unfolding server_step
server_step_over r s created h = refl
server_step_over r s entered h = absurd (cc)
server_step_over r s checked h = absurd (cc)
server_step_over r s (serving n) h = absurd (cc)
server_step_over r s (ended x) h = refl

see_thread_over : (o : Option ℕ) → past_check (some (see_thread o)) ≡ false
see_thread_over none = refl
see_thread_over (some t) = refl

see_alive_over :
    (threads : List ServerThread) (o : Option ℕ)
    → ((k : ℕ) → thread_alive (get_elem? threads k) ≡ false)
    → past_check (some (see_alive threads o)) ≡ false
see_alive_over threads none over = refl
see_alive_over threads (some t) over = simp (over t) refl

monitor_step_over :
    (threads : List ServerThread) (r : Result Bool) (s : Starter) (m : Monitor)
    → ((k : ℕ) → thread_alive (get_elem? threads k) ≡ false)
    → past_check (some m) ≡ false
    → ((monitor_step threads r s m).0 ≡ s)
      × (past_check (some (monitor_step threads r s m).1) ≡ false)
unfolding monitor_step
monitor_step_over threads r s loop_head over h = (refl, see_thread_over s.server_thread)
monitor_step_over threads r s thread_seen over h =
    (refl, see_alive_over threads s.server_thread over)
monitor_step_over threads r s alive_seen over h = absurd (cc)
monitor_step_over threads r s probing over h = absurd (cc)
monitor_step_over threads r s found over h = absurd (cc)
monitor_step_over threads r s sleeping over h = (refl, refl)
monitor_step_over threads r s gone over h = (refl, refl)
monitor_step_over threads r s announced over h = (refl, refl)
monitor_step_over threads r s (died e) over h = (refl, refl)

server_turn-IsOver :
    (i : ℕ) (r : Result (Unit {0})) (o : Option ServerThread) (w : World)
    → get_elem? w.threads i ≡ o
    → IsOver w
    → IsOver (server_turn i r o w)
server_turn-IsOver i r none w at v = v
server_turn-IsOver i r (some t) w at v =
    let over : is_alive t ≡ false =
      subst (λ (o : Option ServerThread). thread_alive o ≡ false) at (v.threads_over i) in
    let same = server_step_over r w.starter t over in
    record {
      threads_over =
          set_elem_none thread_alive w.threads i (server_step r w.starter t).1 v.threads_over
            (ap (λ (a : Starter × ServerThread). is_alive a.1) same ∙ over);
      monitors_over = v.monitors_over;
      unset = ap (λ (a : Starter × ServerThread). a.0.ready_event) same ∙ v.unset;
      sound = ap (λ (a : Starter × ServerThread). a.0.server_error) same ∙ v.sound;
      at_end = v.at_end;
    }

monitor_turn-IsOver :
    (i : ℕ) (r : Result Bool) (o : Option Monitor) (w : World)
    → get_elem? w.monitors i ≡ o
    → IsOver w
    → IsOver (monitor_turn i r o w)
monitor_turn-IsOver i r none w at v = v
monitor_turn-IsOver i r (some m) w at v =
    let over : past_check (some m) ≡ false =
      subst (λ (o : Option Monitor). past_check o ≡ false) at (v.monitors_over i) in
    let (same, still) = monitor_step_over w.threads r w.starter m v.threads_over over in
    record {
      threads_over = v.threads_over;
      monitors_over =
          set_elem_none past_check w.monitors i (monitor_step w.threads r w.starter m).1
            v.monitors_over still;
      unset = ap (λ (s : Starter). s.ready_event) same ∙ v.unset;
      sound = ap (λ (s : Starter). s.server_error) same ∙ v.sound;
      at_end = v.at_end;
    }

main_turn-IsOver :
    (r : Result (Unit {0})) (pending : List Instruction) (w : World)
    → w.pending ≡ pending
    → IsOver w
    → IsOver (main_turn r pending w)
unfolding execute write
main_turn-IsOver r [] w at v = v
main_turn-IsOver r (i ∷ rest) w at v = elim v.at_end [
  | inl none_left ↦ absurd (cc)
  | inr last ↦
      subst (λ (pending : List Instruction). IsOver (main_turn r pending w)) (sym last ∙ at)
        (record {
          threads_over = v.threads_over;
          monitors_over = v.monitors_over;
          unset = v.unset;
          sound = v.sound;
          at_end = inl refl;
        })
]

-- A call of `start_server` or `stop_server`.
abbrev pub is_call : Turn → Bool
is_call (start_server made) = true
is_call stop_server = true
is_call turn = false

-- A turn of a thread that does not begin a call.
abbrev pub GoesOn : Turn → Type 0
GoesOn turn = is_call turn ≡ false

pub run-IsOver :
    (turns : List Turn) (w : World) → All GoesOn turns → IsOver w → IsOver (run turns w)
unfolding run step
run-IsOver [] w b v = v
run-IsOver (server i r ∷ turns) w b v =
    run-IsOver turns _ b.1 (server_turn-IsOver i r (get_elem? w.threads i) w refl v)
run-IsOver (monitor i r ∷ turns) w b v =
    run-IsOver turns _ b.1 (monitor_turn-IsOver i r (get_elem? w.monitors i) w refl v)
run-IsOver (main r ∷ turns) w b v = run-IsOver turns _ b.1 (main_turn-IsOver r w.pending w refl v)
run-IsOver (start_server made ∷ turns) w b v = absurd (cc (b.0))
run-IsOver (stop_server ∷ turns) w b v = absurd (cc (b.0))
