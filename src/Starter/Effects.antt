-- ===== src/Starter/Effects.antt =====
-- What the single steps of the starter's threads write.
use cursus.Prelude.{
  false, ◌≢◌, arith, take, ℕ, zero, suc, ◌≡◌, refl, ap, Bool, true, Option, none, some, List, ◌⊎◌,
  inl, inr, [], ◌∷◌, ◌++◌, get_elem?,
}
use cursus.Wire.{Result, ok, raised}
use cursus.Starter.Threads.{
  see_probe, see_thread, see_alive, Starter, ServerThread, created, entered, checked, serving,
  ended, Monitor, loop_head, thread_seen, alive_seen, probing, found, sleeping, gone, announced,
  died, Instruction, store_server, create_thread, start_thread, start_monitor, clear_ready,
  clear_error, check_error, call_stop, join, clear_server, clear_thread, clear_monitor, reraise,
  write, server_step, monitor_step, check_server, call_server, end_server,
}
use cursus.Starter.Turns.{step, World, Turn, run, set_elem}

module _ {ℓ} {A : Type ℓ} where
  pub get_elem?-set_elem :
      (xs : List A) (j : ℕ) (y y' : A)
      → get_elem? xs j ≡ some y
      → get_elem? (set_elem j y' xs) j ≡ some y'
  unfolding set_elem
  get_elem?-set_elem [] j y y' h = absurd (cc)
  get_elem?-set_elem (x ∷ xs) zero y y' h = refl
  get_elem?-set_elem (x ∷ xs) (suc j) y y' h = get_elem?-set_elem xs j y y' h

  -- An entry after a replacement was there, or is the new one.
  pub get_elem?-set_elem-cases :
      (xs : List A) (i j : ℕ) (x y : A)
      → get_elem? (set_elem j y xs) i ≡ some x
      → (get_elem? xs i ≡ some x) ⊎ ((j ≡ i) × (y ≡ x))
  unfolding set_elem
  get_elem?-set_elem-cases [] i j x y h = inl h
  get_elem?-set_elem-cases (a ∷ xs) zero zero x y h = inr (refl, cc)
  get_elem?-set_elem-cases (a ∷ xs) (suc i) zero x y h = inl h
  get_elem?-set_elem-cases (a ∷ xs) zero (suc j) x y h = inl h
  get_elem?-set_elem-cases (a ∷ xs) (suc i) (suc j) x y h =
      elim (get_elem?-set_elem-cases xs i j x y h) [
        | inl old ↦ inl old
        | inr (same, new) ↦ inr (ap suc same, new)
      ]

  -- An entry behind an addition was there, or is the added one.
  pub get_elem?-added :
      (xs : List A) (i : ℕ) (x y : A)
      → get_elem? (xs ++ y ∷ []) i ≡ some x
      → (get_elem? xs i ≡ some x) ⊎ (y ≡ x)
  get_elem?-added [] zero x y h = inr (cc)
  get_elem?-added [] (suc i) x y h = inl h
  get_elem?-added (a ∷ xs) zero x y h = inl h
  get_elem?-added (a ∷ xs) (suc i) x y h = get_elem?-added xs i x y h

  pub take-added :
      (k : ℕ) (xs : List A) (y : A)
      → (take k (xs ++ y ∷ []) ≡ take k xs) ⊎ (take k (xs ++ y ∷ []) ≡ xs ++ y ∷ [])
  take-added zero xs y = inl refl
  take-added (suc zero) [] y = inr refl
  take-added (suc (suc k)) [] y = inr refl
  take-added (suc k) (x ∷ xs) y = elim (take-added k xs y) [
    | inl e ↦ inl (ap (λ (ys : List A). x ∷ ys) e)
    | inr e ↦ inr (ap (λ (ys : List A). x ∷ ys) e)
  ]

pub run-append :
    (turns more : List Turn) (w : World) → run (turns ++ more) w ≡ run more (run turns w)
unfolding run
run-append [] more w = refl
run-append (turn ∷ turns) more w = run-append turns more (step turn w)

pub monitor_step-error :
    (threads : List ServerThread) (r : Result Bool) (s : Starter) (m : Monitor)
    → (monitor_step threads r s m).0.server_error ≡ s.server_error
unfolding monitor_step
monitor_step-error threads r s loop_head = refl
monitor_step-error threads r s thread_seen = refl
monitor_step-error threads r s alive_seen = refl
monitor_step-error threads r s probing = refl
monitor_step-error threads r s found = refl
monitor_step-error threads r s sleeping = refl
monitor_step-error threads r s gone = refl
monitor_step-error threads r s announced = refl
monitor_step-error threads r s (died e) = refl

-- The event is set by a monitor whose probe has succeeded, in the step behind.
pub monitor_step-ready :
    (threads : List ServerThread) (r : Result Bool) (s : Starter) (m : Monitor)
    → (monitor_step threads r s m).0.ready_event ≡ true
    → (s.ready_event ≡ true) ⊎ (m ≡ found)
unfolding monitor_step
monitor_step-ready threads r s loop_head h = inl h
monitor_step-ready threads r s thread_seen h = inl h
monitor_step-ready threads r s alive_seen h = inl h
monitor_step-ready threads r s probing h = inl h
monitor_step-ready threads r s found h = inr refl
monitor_step-ready threads r s sleeping h = inl h
monitor_step-ready threads r s gone h = inl h
monitor_step-ready threads r s announced h = inl h
monitor_step-ready threads r s (died e) h = inl h

see_thread-found : (o : Option ℕ) → see_thread o ≢ found
see_thread-found none h = cc
see_thread-found (some t) h = cc

see_alive-found : (threads : List ServerThread) (o : Option ℕ) → see_alive threads o ≢ found
see_alive-found threads none h = cc
see_alive-found threads (some t) h = ground arith

see_probe-found : (r : Result Bool) → see_probe r ≡ found → r ≡ ok true
see_probe-found (ok true) h = refl
see_probe-found (ok false) h = absurd (cc)
see_probe-found (raised e) h = absurd (cc)

pub monitor_step-found :
    (threads : List ServerThread) (r : Result Bool) (s : Starter) (m : Monitor)
    → (monitor_step threads r s m).1 ≡ found
    → (m ≡ probing) × (r ≡ ok true)
unfolding monitor_step
monitor_step-found threads r s loop_head h = absurd (see_thread-found s.server_thread h)
monitor_step-found threads r s thread_seen h = absurd (see_alive-found threads s.server_thread h)
monitor_step-found threads r s alive_seen h = absurd (ground arith)
monitor_step-found threads r s probing h = (refl, see_probe-found r h)
monitor_step-found threads r s found h = absurd (cc)
monitor_step-found threads r s sleeping h = absurd (cc)
monitor_step-found threads r s gone h = absurd (cc)
monitor_step-found threads r s announced h = absurd (cc)
monitor_step-found threads r s (died e) h = absurd (cc)

end_server-ready :
    (r : Result (Unit {0})) (s : Starter) → (end_server r s).0.ready_event ≡ s.ready_event
end_server-ready (ok x) s = refl
end_server-ready (raised e) s = refl

check_server-ready : (o : Option ℕ) (s : Starter) → (check_server o s).0.ready_event ≡ s.ready_event
check_server-ready none s = refl
check_server-ready (some n) s = refl

call_server-ready : (o : Option ℕ) (s : Starter) → (call_server o s).0.ready_event ≡ s.ready_event
call_server-ready none s = refl
call_server-ready (some n) s = refl

pub server_step-ready :
    (r : Result (Unit {0})) (s : Starter) (t : ServerThread)
    → (server_step r s t).0.ready_event ≡ s.ready_event
unfolding server_step
server_step-ready r s created = refl
server_step-ready r s entered = check_server-ready s.server s
server_step-ready r s checked = call_server-ready s.server s
server_step-ready r s (serving n) = end_server-ready r s
server_step-ready r s (ended x) = refl

-- The calling thread does not set the event.
pub write-ready :
    (i : Instruction) (s : Starter) → (write i s).ready_event ≡ true → s.ready_event ≡ true
unfolding write
write-ready (store_server n) s h = h
write-ready (create_thread t) s h = h
write-ready (start_thread t) s h = h
write-ready (start_monitor m) s h = h
write-ready clear_error s h = h
write-ready check_error s h = h
write-ready call_stop s h = h
write-ready join s h = h
write-ready clear_server s h = h
write-ready clear_thread s h = h
write-ready clear_monitor s h = h
write-ready (reraise e) s h = h
write-ready clear_ready s h = absurd (cc)
