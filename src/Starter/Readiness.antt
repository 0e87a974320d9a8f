-- ===== src/Starter/Readiness.antt =====
-- A monitor whose probe succeeds sets the readiness event.
use cursus.Prelude.{
  ℕ, zero, suc, ◌≡◌, refl, sym, ap, ◌∙◌, Bool, true, false, Option, none, some, List, [], ◌∷◌, ◌++◌,
  get_elem?, replicate,
}
use cursus.Wire.{Error, Result, ok}
use cursus.Starter.Threads.{
  Starter, ServerThread, thread_alive, Monitor, loop_head, announced, monitor_step,
}
use cursus.Starter.Effects.{get_elem?-set_elem}
use cursus.Starter.Turns.{World, Turn, monitor, step, run, set_elem, monitor_turn}

module _ {ℓ} {A : Type ℓ} where
  set_elem_same : (xs : List A) (i : ℕ) (x : A) → get_elem? xs i ≡ some x → set_elem i x xs ≡ xs
  unfolding set_elem
  set_elem_same [] i x h = refl
  set_elem_same (a ∷ xs) zero x h = ap (λ (y : A). y ∷ xs) (cc)
  set_elem_same (a ∷ xs) (suc i) x h = ap (λ (ys : List A). a ∷ ys) (set_elem_same xs i x h)

  set_elem_twice :
      (xs : List A) (i : ℕ) (x y : A) → set_elem i y (set_elem i x xs) ≡ set_elem i y xs
  unfolding set_elem
  set_elem_twice [] i x y = refl
  set_elem_twice (a ∷ xs) zero x y = refl
  set_elem_twice (a ∷ xs) (suc i) x y = ap (λ (ys : List A). a ∷ ys) (set_elem_twice xs i x y)

-- A monitor alone, with the results that its probe would have.
solo : List ServerThread → List (Result Bool) → Starter → Monitor → Starter × Monitor
solo threads [] s m = (s, m)
solo threads (r ∷ rs) s m = let (s', m') = monitor_step threads r s m in solo threads rs s' m'

abbrev pub monitor_turns : ℕ → List (Result Bool) → List Turn
monitor_turns i [] = []
monitor_turns i (r ∷ rs) = monitor i r ∷ monitor_turns i rs

-- The world when the monitor has gone on.
abbrev gone_on : ℕ → World → Starter × Monitor → World
gone_on i w (s, m) = record w { starter = s; monitors = set_elem i m w.monitors }

run-monitor_turns :
    (i : ℕ) (rs : List (Result Bool)) (m : Monitor) (w : World)
    → get_elem? w.monitors i ≡ some m
    → run (monitor_turns i rs) w ≡ gone_on i w (solo w.threads rs w.starter m)
unfolding run step solo
run-monitor_turns i [] m w at =
    ap (λ (ms : List Monitor). record w { monitors = ms }) (sym (set_elem_same w.monitors i m at))
run-monitor_turns i (r ∷ rs) m w at =
    let (s', m') = monitor_step w.threads r w.starter m in
    let w' : World = record w { starter = s'; monitors = set_elem i m' w.monitors } in
    let (s'', m'') = solo w.threads rs s' m' in
    ap (λ (o : Option Monitor). run (monitor_turns i rs) (monitor_turn i r o w)) at
    ∙ run-monitor_turns i rs m' w' (get_elem?-set_elem w.monitors i m m' at)
    ∙ ap (λ (ms : List Monitor). record w { starter = s''; monitors = ms })
        (set_elem_twice w.monitors i m' m'')

-- The results of a probe that fails in a number of rounds, and then others.
abbrev pub failing : ℕ → List (Result Bool) → List (Result Bool)
failing zero rest = rest
failing (suc n) rest = replicate 5 (ok false) ++ failing n rest

module _ (threads : List ServerThread) (t : ℕ)
    (alive : thread_alive (get_elem? threads t) ≡ true) where
  abbrev watching : Starter → Starter
  watching s = record s { server_thread = some t; server_error = none }

  solo-failing :
      (n : ℕ) (s : Starter)
      → solo threads (failing n (replicate 5 (ok true))) (watching s) loop_head
        ≡ (record (watching s) { ready_event = true }, announced)
  unfolding solo monitor_step
  solo-failing zero s = simp alive refl
  solo-failing (suc n) s = simp alive (solo-failing n s)

-- A monitor that is at the head of its loop, while the server thread is alive and the starter has no
-- error: after any number of rounds with a failing probe and one in which it succeeds, and nothing
-- else in between, the event is set and the monitor has ended.
pub monitor_sets_ready :
    (n i t : ℕ) (w : World)
    → get_elem? w.monitors i ≡ some loop_head
    → w.starter.server_thread ≡ some t
    → thread_alive (get_elem? w.threads t) ≡ true
    → w.starter.server_error ≡ none
    → run (monitor_turns i (failing n (replicate 5 (ok true)))) w ≡ record w {
      starter = record w.starter { ready_event = true };
      monitors = set_elem i announced w.monitors;
    }
monitor_sets_ready n i t w at watched alive sound =
    let e : watching w.threads t alive w.starter ≡ w.starter = sym (
      ap (λ (o : Option ℕ). record w.starter { server_thread = o }) watched
      ∙ ap (λ (o : Option Error). record w.starter { server_thread = some t; server_error = o })
          sound) in
    let results = failing n (replicate 5 (ok true)) in
    run-monitor_turns i (failing n (replicate 5 (ok true))) loop_head w at
    ∙ ap (λ (s : Starter). gone_on i w (solo w.threads results s loop_head)) (sym e)
    ∙ ap (gone_on i w) (solo-failing w.threads t alive n w.starter)
    ∙ ap (λ (s : Starter). gone_on i w (record s { ready_event = true }, announced)) e
