-- ===== src/Serving/Ending.antt =====
-- What a `start` that is over leaves.
use cursus.Prelude.{Option, ℕ, ◌≡◌, ◌≢◌, refl, ap, true, false, List, [], ◌∷◌, ◌++◌, inl, inr}
use cursus.Wire.{Result, ok, raised, Result-cases, Text}
use cursus.Wire.Exec.{Exec}
use cursus.Wire.Progress.{Progress, returned, waiting}
use cursus.Serving.Life.{
  SocketCall, open_server, serve_forever, server_close, Life, Event, perform, stop, serve, clean_up,
  finish, start,
}

module _ {P Request Thread : Type 0} (outside : List SocketCall → SocketCall → Result (Unit {0}))
    (spawn : Request → Thread) (handle : Thread → Exec (Life P Thread) (Option Thread))
    (closes : (calls : List SocketCall) → outside calls server_close ≡ ok tt) where
  clean_up_lem :
      (result : Result Progress) (l : Life P Thread)
      → clean_up outside spawn handle result l
        ≡ (result, record l { kept = false; calls = l.calls ++ server_close ∷ [] })
  unfolding perform
  clean_up_lem result l = simp closes refl

  finish-kept :
      (p : Result Progress × Life P Thread)
      → (finish outside spawn handle p).0 ≢ ok waiting
      → (finish outside spawn handle p).1.kept ≡ false
  finish-kept (ok waiting, l) over = absurd (over refl)
  finish-kept (ok returned, l) over =
      ap (λ (x : Result Progress × Life P Thread). x.1.kept) (clean_up_lem (ok returned) l)
  finish-kept (raised e, l) over =
      ap (λ (x : Result Progress × Life P Thread). x.1.kept) (clean_up_lem (raised e) l)

  stop-unkept : (l : Life P Thread) → l.kept ≡ false → stop outside spawn handle l ≡ (ok tt, l)
  unfolding stop
  stop-unkept l h = simp h refl

  pub start-kept :
      (ip : Text) (port : ℕ) (events : List (Event Request)) (l : Life P Thread)
      → l.kept ≡ false
      → (start outside spawn handle ip port events l).0 ≢ ok waiting
      → (let l' = (start outside spawn handle ip port events l).1 in
          (l'.kept ≡ false) × (stop outside spawn handle l' ≡ (ok tt, l')))
  unfolding start perform
  start-kept ip port events l h over = elim (Result-cases (outside l.calls (open_server ip port))) [
    | inl (x, e) ↦
        let l' : Life P Thread = record l {
          kept = true;
          calls = (l.calls ++ open_server ip port ∷ []) ++ serve_forever ∷ [];
        } in
        let unkept = finish-kept (serve outside spawn handle events l') (simp e at over) in
        simp e (unkept, stop-unkept _ unkept)
    | inr (x, e) ↦ simp e (h, stop-unkept _ h)
  ]
