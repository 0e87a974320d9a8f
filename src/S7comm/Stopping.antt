-- ===== src/S7comm/Stopping.antt =====
-- When `start` of the S7comm server returns.
use cursus.Prelude.{
  ℕ, zero, suc, ◌≡◌, refl, ◌∙◌, Bool, true, false, List, [], ◌∷◌, ◌++◌, append_assoc, replicate,
}
use cursus.Wire.{Result, ok}
use cursus.Wire.Progress.{returned, waiting}
use cursus.S7comm.Server.{
  Call, start_to, pick_event, stop_server, Running, picked, stop_called, logged, perform, call,
  stop, pick_loop, start, Moment, before_test, before_pick, in_pick,
}

module _ (snap7 : List Call → Call → Result (Unit {0})) where
  -- The call raises nothing but what `except Exception` catches.
  abbrev pub Picks : Type 0
  Picks = (calls : List Call) → logged (snap7 calls pick_event) ≡ ok tt

  abbrev pub after_calls : Running → Bool → List Call → Running
  after_calls a is_set calls = record {
    server = record a.server { stopped = is_set };
    calls = a.calls ++ calls;
  }

  -- The calls of the round in which `stop` is called.
  abbrev pub last_calls : Moment → List Call
  last_calls before_test = stop_server ∷ []
  last_calls before_pick = stop_server ∷ pick_event ∷ []
  last_calls in_pick = pick_event ∷ stop_server ∷ []

  module _ (picks : Picks) where
    pick_loop_stops :
        (n : ℕ) (m : Moment) (a : Running)
        → a.server.stopped ≡ false
        → pick_loop snap7 (replicate n picked ++ stop_called m ∷ []) a
          ≡ (ok returned, after_calls a true (replicate n pick_event ++ last_calls m))
    unfolding pick_loop perform call stop
    pick_loop_stops zero before_test a h = refl
    pick_loop_stops zero before_pick a h = simp (h, picks) (simp append_assoc)
    pick_loop_stops zero in_pick a h = simp (h, picks) (simp append_assoc)
    pick_loop_stops (suc n) m a h = simp (h, picks) (pick_loop_stops n m _ h ∙ simp append_assoc)

    -- snap7 starts, and `pick_event` raises nothing but exceptions that are logged: wherever the loop is
    -- when another thread calls `stop`, taken as one step, `start` returns, and `pick_event` is called
    -- once more after it if the loop was past its test of the flag but not yet in `pick_event`, and else
    -- not again.
    pub start_stops :
        (n : ℕ) (m : Moment) (a : Running)
        → snap7 a.calls (start_to a.server.ip a.server.port) ≡ ok tt
        → start snap7 (replicate n picked ++ stop_called m ∷ []) a ≡ (
          ok returned,
          after_calls a true
              (start_to a.server.ip a.server.port ∷ replicate n pick_event ++ last_calls m),
        )
    unfolding start perform call
    start_stops n m a h = simp h (pick_loop_stops n m _ refl ∙ simp append_assoc)

    pick_loop_waits :
        (n : ℕ) (a : Running)
        → a.server.stopped ≡ false
        → (pick_loop snap7 (replicate n picked) a).0 ≡ ok waiting
    unfolding pick_loop perform call
    pick_loop_waits zero a h = simp h refl
    pick_loop_waits (suc n) a h = simp (h, picks) (pick_loop_waits n _ h)

    -- A `stop` that comes before `start`, while snap7 starts and `pick_event` raises nothing but
    -- exceptions that are logged: `start` goes on as long as no other thread calls `stop` again.
    pub stop_lost :
        (n : ℕ) (a : Running)
        → ((calls : List Call) → snap7 calls (start_to a.server.ip a.server.port) ≡ ok tt)
        → (start snap7 (replicate n picked) (stop snap7 a).1).0 ≡ ok waiting
    unfolding start stop perform call
    stop_lost n a h = simp h (pick_loop_waits n _ refl)
