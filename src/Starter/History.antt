-- ===== src/Starter/History.antt =====
-- What has happened before the readiness event is set.
use cursus.Prelude.{
  append-nil, ℕ, zero, suc, ◌≡◌, refl, ap, sym, subst, ◌∙◌, Bool, true, some, List, inl, inr, [],
  ◌∷◌, ◌++◌, append_assoc, get_elem?, take,
}
use cursus.Wire.{Result, ok, Text}
use cursus.Starter.Threads.{init, probing, found}
use cursus.Starter.Turns.{World, idle, Turn, monitor, step, run}
use cursus.Starter.Effects.{take-added, run-append}
use cursus.Starter.Causes.{step-Arrives, step-Sets}

module _ (w : World) where
  -- A turn at which the probe of the monitor succeeds.
  abbrev pub Probed : ℕ → List Turn → Type 0
  Probed i turns =
      (first : List Turn) × (later : List Turn) × (turns ≡ first ++ monitor i (ok true) ∷ later)
      × (get_elem? (run first w).monitors i ≡ some probing)

  -- A turn at which a monitor whose probe has succeeded sets the event, and after which the event is
  -- set all the time.
  abbrev pub IsAnnounced : List Turn → Type 0
  IsAnnounced turns =
      (i : ℕ) × (r : Result Bool) × (before : List Turn) × (since : List Turn) × (turns
        ≡ before ++ monitor i r ∷ since)
      × (get_elem? (run before w).monitors i ≡ some found)
      × Probed i before
      × ((k : ℕ) → (run (before ++ monitor i r ∷ take k since) w).starter.ready_event ≡ true)

  record IsTraced (turns : List Turn) : Type 0 where
    probed : (i : ℕ) → get_elem? (run turns w).monitors i ≡ some found → Probed i turns
    announced : (run turns w).starter.ready_event ≡ true → IsAnnounced turns

  module _ (turns : List Turn) (turn : Turn) where
    after_turn : run (turns ++ turn ∷ []) w ≡ step turn (run turns w)
    unfolding run
    after_turn = run-append turns (turn ∷ []) w

    Probed-turn : (i : ℕ) → Probed i turns → Probed i (turns ++ turn ∷ [])
    Probed-turn i (first, later, cut, at) = (
      first,
      later ++ turn ∷ [],
      ap (λ (ts : List Turn). ts ++ turn ∷ []) cut ∙ simp append_assoc refl,
      at,
    )

    IsAnnounced-turn :
        (run (turns ++ turn ∷ []) w).starter.ready_event ≡ true
        → IsAnnounced turns
        → IsAnnounced (turns ++ turn ∷ [])
    IsAnnounced-turn set (i, r, before, since, cut, at, p, still) =
        let cut' : turns ++ turn ∷ [] ≡ before ++ monitor i r ∷ (since ++ turn ∷ []) =
          ap (λ (ts : List Turn). ts ++ turn ∷ []) cut ∙ simp append_assoc refl in
        let event : List Turn → Bool =
          λ ts. (run (before ++ monitor i r ∷ ts) w).starter.ready_event in
        (
          i,
          r,
          before,
          since ++ turn ∷ [],
          cut',
          at,
          p,
          λ k. elim (take-added k since turn) [
            | inl e ↦ ap event e ∙ still k
            | inr e ↦
                ap event e
                ∙ ap (λ (ts : List Turn). (run ts w).starter.ready_event) (sym cut')
                ∙ set
          ],
        )

    IsTraced-turn : IsTraced turns → IsTraced (turns ++ turn ∷ [])
    IsTraced-turn v = record {
      probed = λ i h.
          let h' = ap (λ (w : World). get_elem? w.monitors i) (sym after_turn) ∙ h in
          elim (step-Arrives turn i (run turns w) h') [
            | inl old ↦ Probed-turn i (v.probed i old)
            | inr (here, at) ↦ (turns, [], ap (λ (t : Turn). turns ++ t ∷ []) here, at)
          ];
      announced = λ h.
          let h' = ap (λ (w : World). w.starter.ready_event) (sym after_turn) ∙ h in
          elim (step-Sets turn (run turns w) h') [
            | inl old ↦ IsAnnounced-turn h (v.announced old)
            | inr (i, r, here, at) ↦
                let cut = ap (λ (t : Turn). turns ++ t ∷ []) here in
                let event : List Turn → Bool = λ ts. (run ts w).starter.ready_event in
                (
                  i,
                  r,
                  turns,
                  [],
                  cut,
                  at,
                  v.probed i at,
                  λ k.
                      ap (λ (ts : List Turn). event (turns ++ monitor i r ∷ ts)) (take-nil k)
                      ∙ ap event (sym cut)
                      ∙ h,
                )
          ];
    }
      where
        take-nil : (k : ℕ) → take {A = Turn} k [] ≡ []
        take-nil zero = refl
        take-nil (suc k) = refl

  run-IsTraced : (turns more : List Turn) → IsTraced turns → IsTraced (turns ++ more)
  run-IsTraced turns [] v = subst IsTraced (simp append-nil refl) v
  run-IsTraced turns (turn ∷ more) v =
      subst IsTraced (simp append_assoc refl)
        (run-IsTraced (turns ++ turn ∷ []) more (IsTraced-turn turns turn v))

-- A new starter, and any order of the turns of all threads, at the end of which the event is set: a
-- monitor has set it in a turn from which on it was set all the time, and at an earlier turn this
-- monitor was at its probe, and the probe succeeded.
pub ready_event-probed :
    (protocol : Text) (port delay : ℕ) (turns : List Turn)
    → (run turns (idle (init protocol port delay))).starter.ready_event ≡ true
    → IsAnnounced (idle (init protocol port delay)) turns
unfolding run init
ready_event-probed protocol port delay turns =
    (run-IsTraced (idle (init protocol port delay)) [] turns
      (record { probed = λ i h. absurd (cc); announced = λ h. absurd (cc) })).announced
