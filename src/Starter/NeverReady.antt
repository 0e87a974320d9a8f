-- ===== src/Starter/NeverReady.antt =====
-- The end of the only server thread that is alive, before a monitor has probed.
use cursus.Prelude.{
  ℕ, ◌≡◌, ◌≢◌, refl, sym, subst, false, Option, none, some, List, [], ◌∷◌, inr, get_elem?, All,
}
use cursus.Wire.{ok}
use cursus.Starter.Threads.{ServerThread, serving, ended, check_error, thread_alive, server_step}
use cursus.Starter.Turns.{World, Turn, server, step, run, server_turn, wait_until_ready}
use cursus.Starter.Over.{past_check, IsOver, GoesOn, run-IsOver, set_elem_last}

-- The last server thread that is alive ends by returning, while `start_server` sleeps.
pub never_ready :
    (i n : ℕ) (w : World) (turns : List Turn)
    → w.pending ≡ check_error ∷ []
    → get_elem? w.threads i ≡ some (serving n)
    → ((k : ℕ) → k ≢ i → thread_alive (get_elem? w.threads k) ≡ false)
    → ((k : ℕ) → past_check (get_elem? w.monitors k) ≡ false)
    → w.starter.ready_event ≡ false
    → w.starter.server_error ≡ none
    → All GoesOn turns
    → (let w' = run (server i (ok tt) ∷ turns) w in
        (w'.starter.ready_event ≡ false)
        × (wait_until_ready w'.starter.ready_event w'.starter ≡ ok false))
unfolding run step wait_until_ready server_step
never_ready i n w turns asleep at others heads unset sound b =
    let v = run-IsOver turns (step (server i (ok tt)) w) b (
      subst (λ (o : Option ServerThread). IsOver (server_turn i (ok tt) o w)) (sym at)
        ended_world) in
    (v.unset, rw (v.unset, v.sound) refl)
  where
    ended_world : IsOver (server_turn i (ok tt) (some (serving n)) w)
    ended_world = record {
      threads_over = set_elem_last thread_alive w.threads i (ended (ok tt)) refl others refl;
      monitors_over = heads;
      unset = unset;
      sound = sound;
      at_end = inr asleep;
    }
