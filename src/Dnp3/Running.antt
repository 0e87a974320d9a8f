-- ===== src/Dnp3/Running.antt =====
-- The life of the native outstation: what `start` calls, how it ends, and what a failing call leaves.
use cursus.Prelude.{
  ◌∙◌, ℕ, zero, suc, ◌≡◌, ◌≢◌, refl, true, false, List, [], ◌∷◌, ◌++◌, Bool-cases, inl, inr,
  append_assoc, replicate,
}
use cursus.Wire.{Error, Result, ok, raised, Result-cases}
use cursus.Wire.Progress.{Progress, returned, waiting}
use cursus.Dnp3.Outstation.{
  Call, enable, disable, shutdown, Native, Round, slept, stopped, interrupted, call, perform, stop,
  sleep_loop, finish, start,
}

module _ {Float : Type 0} (pydnp3 : List (Call Float) → Call Float → Result (Unit {0})) where
  stop_running : (a : Native Float) → (stop pydnp3 a).1.server.running ≡ false
  unfolding stop perform
  stop_running a = elim (Bool-cases a.server.running) [
    | inr idle ↦ simp idle refl
    | inl busy ↦ elim (Result-cases (pydnp3 a.calls disable)) [
      | inl (x, e) ↦ simp (busy, e) refl
      | inr (x, e) ↦ simp (busy, e) refl
    ]
  ]

  stop_idle : (a : Native Float) → a.server.running ≡ false → stop pydnp3 a ≡ (ok tt, a)
  unfolding stop
  stop_idle a h = simp h refl

  sleep_loop_left :
      (rounds : List Round) (a : Native Float)
      → a.server.running ≡ false
      → sleep_loop pydnp3 rounds a ≡ (returned, a)
  unfolding sleep_loop
  sleep_loop_left [] a h = simp h refl
  sleep_loop_left (round ∷ rounds) a h = simp h refl

  -- A loop that sleeps on has found the outstation running.
  sleep_loop-waiting :
      (rounds : List Round) (a : Native Float)
      → (sleep_loop pydnp3 rounds a).0 ≡ waiting
      → (sleep_loop pydnp3 rounds a).1.server.running ≡ true
  unfolding sleep_loop
  sleep_loop-waiting [] a h = elim (Bool-cases a.server.running) [
    | inl busy ↦ simp busy refl
    | inr idle ↦ absurd (cc (simp idle at h))
  ]
  sleep_loop-waiting (slept ∷ rounds) a h = elim (Bool-cases a.server.running) [
    | inl busy ↦ simp busy (sleep_loop-waiting rounds a (simp busy at h))
    | inr idle ↦ absurd (cc (simp idle at h))
  ]
  sleep_loop-waiting (stopped ∷ rounds) a h = elim (Bool-cases a.server.running) [
    | inl busy ↦ simp busy (sleep_loop-waiting rounds (stop pydnp3 a).1 (simp busy at h))
    | inr idle ↦ absurd (cc (simp idle at h))
  ]
  sleep_loop-waiting (interrupted ∷ rounds) a h = elim (Bool-cases a.server.running) [
    | inl busy ↦ absurd (cc (simp busy at h))
    | inr idle ↦ absurd (cc (simp idle at h))
  ]

  finish-progress :
      (p : Progress × Native Float)
      → (p.0 ≡ waiting → p.1.server.running ≡ true)
      → ((finish pydnp3 p).0 ≡ ok returned → (finish pydnp3 p).1.server.running ≡ false)
        × ((finish pydnp3 p).0 ≡ ok waiting → (finish pydnp3 p).1.server.running ≡ true)
  unfolding finish
  finish-progress (waiting, a) h = (λ e. absurd (cc), λ e. h refl)
  finish-progress (returned, a) h = elim (Result-cases (stop pydnp3 a).0) [
    | inl (x, e) ↦ simp e (λ _. stop_running a, λ k. absurd (cc))
    | inr (x, e) ↦ simp e (λ _. stop_running a, λ k. absurd (cc))
  ]

  -- Whatever pydnp3 raises: a `start` that returns leaves the outstation not running, and one that
  -- sleeps on leaves it running.
  start-progress :
      (rounds : List Round) (a : Native Float)
      → a.server.running ≡ false
      → ((start pydnp3 rounds a).0 ≡ ok returned → (start pydnp3 rounds a).1.server.running ≡ false)
        × ((start pydnp3 rounds a).0 ≡ ok waiting → (start pydnp3 rounds a).1.server.running ≡ true)
  unfolding start
  start-progress rounds a h =
      elim (Result-cases
        (perform pydnp3 enable (record a { server = record a.server { running = true } })).0) [
          | inl (x, e) ↦
              simp (h, e)
                (finish-progress (sleep_loop pydnp3 rounds _) (sleep_loop-waiting rounds _))
          | inr (x, e) ↦ simp (h, e) (λ k. absurd (cc), λ k. absurd (cc))
        ]

  -- A `start` whose `Enable` raises: the exception goes through, the outstation stays marked as
  -- running, and the next `start` returns at once and calls nothing.
  pub start-enable_raised :
      (rounds later : List Round) (a : Native Float) (e : Error)
      → a.server.running ≡ false
      → pydnp3 a.calls enable ≡ raised e
      → (let (result, a') = start pydnp3 rounds a in
          (result ≡ raised e)
          × (a'.server.running ≡ true)
          × (start pydnp3 later a' ≡ (ok returned, a')))
  unfolding start perform call
  start-enable_raised rounds later a e h broken = simp (h, broken) (refl, refl, refl)

  -- The call is one that `start` and `stop` make.
  abbrev pub Returns : Call Float → Type 0
  Returns c = (calls : List (Call Float)) → pydnp3 calls c ≡ ok tt

  module _ (enables : Returns enable) (disables : Returns disable) (shuts : Returns shutdown) where
    -- The server after a `stop`.
    abbrev pub shut_down : Native Float → Native Float
    shut_down a = record {
      server = record a.server { running = false };
      calls = a.calls ++ disable ∷ shutdown ∷ [];
    }

    stop-shut_down :
        (a : Native Float) → a.server.running ≡ true → stop pydnp3 a ≡ (ok tt, shut_down a)
    unfolding stop perform call
    stop-shut_down a h = simp (h, disables, shuts, append_assoc) refl

    loop_wakes :
        (seconds : ℕ) (round : Round) (rest : List Round) (a : Native Float)
        → a.server.running ≡ true
        → round ≢ slept
        → finish pydnp3 (sleep_loop pydnp3 (replicate seconds slept ++ round ∷ rest) a)
          ≡ (ok returned, shut_down a)
    unfolding sleep_loop finish
    loop_wakes (suc seconds) round rest a h wakes = simp h (loop_wakes seconds round rest a h wakes)
    loop_wakes zero slept rest a h wakes = absurd (wakes refl)
    loop_wakes zero interrupted rest a h wakes = simp (h, stop-shut_down a h) refl
    loop_wakes zero stopped rest a h wakes =
        simp
          (
            h,
            stop-shut_down a h,
            sleep_loop_left rest (shut_down a) refl,
            stop_idle (shut_down a) refl,
          )
          refl

    -- An outstation that is not running, and pydnp3's `Enable`, `Disable` and `Shutdown` return:
    -- however long it sleeps, once another thread calls `stop` or the sleep is interrupted, `start`
    -- returns, the outstation is not running, and `Enable`, `Disable` and `Shutdown` were called once
    -- each, in this order.
    pub start_returns :
        (seconds : ℕ) (round : Round) (rest : List Round) (a : Native Float)
        → a.server.running ≡ false
        → round ≢ slept
        → start pydnp3 (replicate seconds slept ++ round ∷ rest) a ≡ (
          ok returned,
          record {
            server = record a.server { running = false };
            calls = a.calls ++ enable ∷ disable ∷ shutdown ∷ [];
          },
        )
    unfolding start perform call
    start_returns seconds round rest a h wakes =
        let b : Native Float = record {
          server = record a.server { running = true };
          calls = a.calls ++ enable ∷ [];
        } in
        simp (h, enables) (loop_wakes seconds round rest b refl wakes ∙ simp append_assoc)
