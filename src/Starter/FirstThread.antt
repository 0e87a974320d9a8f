-- ===== src/Starter/FirstThread.antt =====
-- The only server thread of a first `start_server`, and its error.
use cursus.Prelude.{
  ◌++◌, ℕ, zero, suc, ◌≡◌, refl, sym, subst, ap, ◌∙◌, Bool, true, false, Option, none, some, List,
  [], ◌∷◌, ◌⊎◌, inl, inr, get_elem?, All,
}
use cursus.Wire.{Error, Result, ok, raised}
use cursus.Starter.Threads.{
  Monitor, Starter, ServerThread, created, entered, checked, serving, ended, Instruction,
  store_server, create_thread, start_thread, start_monitor, clear_ready, clear_error, check_error,
  call_stop, join, clear_server, clear_thread, clear_monitor, reraise, write, server_step,
  check_server, call_server,
}
use cursus.Starter.Effects.{monitor_step-error}
use cursus.Starter.Turns.{
  World, Turn, start_server, stop_server, main, server, monitor, step, run, execute, set_elem,
  main_turn, server_turn, monitor_turn, started, start_at,
}
use cursus.Starter.Over.{GoesOn}

-- What a server thread has raised.
unfoldable pub error_of : ServerThread → Option Error
error_of (ended (raised e)) = some e
error_of t = none

-- Once the thread is made, none of the instructions makes another or drops its error.
abbrev pub is_plain : Instruction → Bool
is_plain (create_thread t) = false
is_plain clear_error = false
is_plain call_stop = false
is_plain i = true

abbrev pub IsPlain : Instruction → Type 0
IsPlain i = is_plain i ≡ true

-- What is left up to the thread is made.
abbrev pub Opens : List Instruction → Type 0
Opens (store_server n ∷ rest) = Opens rest
Opens (clear_ready ∷ rest) = Opens rest
Opens (clear_error ∷ rest) = Opens rest
Opens (create_thread t ∷ rest) = All IsPlain rest
Opens pending = true ≡ false

-- The only server thread, if there is one yet, and its error.
abbrev pub Follows : List Instruction → World → Type 0
Follows pending w =
    ((w.threads ≡ []) × (w.starter.server_error ≡ none) × Opens pending)
    ⊎ ((t : ServerThread) × (w.threads ≡ t ∷ [])
        × (w.starter.server_error ≡ error_of t)
        × All IsPlain pending)

error_of-started : (t : ServerThread) → error_of t ≡ error_of (started t)
unfolding error_of
error_of-started created = refl
error_of-started entered = refl
error_of-started checked = refl
error_of-started (serving n) = refl
error_of-started (ended r) = refl

module _ (w : World) where
  plain_turn-Follows :
      (r : Result (Unit {0})) (i : Instruction) (rest : List Instruction) (t : ServerThread)
      → w.threads ≡ t ∷ []
      → w.starter.server_error ≡ error_of t
      → IsPlain i
      → All IsPlain rest
      → Follows (execute r i rest w).pending (execute r i rest w)
  unfolding execute write set_elem
  plain_turn-Follows r (store_server n) rest t one same p ps = inr (t, one, same, ps)
  plain_turn-Follows r (create_thread k) rest t one same p ps = absurd (cc)
  plain_turn-Follows r (start_thread zero) rest t one same p ps = inr (
    started t,
    ap (λ (ts : List ServerThread). start_at 0 (get_elem? ts 0) ts) one,
    same ∙ error_of-started t,
    ps,
  )
  plain_turn-Follows r (start_thread (suc k)) rest t one same p ps =
      inr (
        t,
        ap (λ (ts : List ServerThread). start_at (suc k) (get_elem? ts (suc k)) ts) one,
        same,
        ps,
      )
  plain_turn-Follows r (start_monitor m) rest t one same p ps = inr (t, one, same, ps)
  plain_turn-Follows r clear_ready rest t one same p ps = inr (t, one, same, ps)
  plain_turn-Follows r clear_error rest t one same p ps = absurd (cc)
  plain_turn-Follows r check_error rest t one same p ps = inr (t, one, same, ps)
  plain_turn-Follows r call_stop rest t one same p ps = absurd (cc)
  plain_turn-Follows r join rest t one same p ps = inr (t, one, same, ps)
  plain_turn-Follows r clear_server rest t one same p ps = inr (t, one, same, ps)
  plain_turn-Follows r clear_thread rest t one same p ps = inr (t, one, same, ps)
  plain_turn-Follows r clear_monitor rest t one same p ps = inr (t, one, same, ps)
  plain_turn-Follows r (reraise e) rest t one same p ps = inr (t, one, same, ps)

  opening_turn-Follows :
      (r : Result (Unit {0})) (i : Instruction) (rest : List Instruction)
      → w.threads ≡ []
      → w.starter.server_error ≡ none
      → Opens (i ∷ rest)
      → Follows (execute r i rest w).pending (execute r i rest w)
  unfolding execute write error_of
  opening_turn-Follows r (store_server n) rest empty sound p = inl (empty, sound, p)
  opening_turn-Follows r (create_thread k) rest empty sound p =
      inr (created, ap (λ (ts : List ServerThread). ts ++ created ∷ []) empty, sound, p)
  opening_turn-Follows r clear_ready rest empty sound p = inl (empty, sound, p)
  opening_turn-Follows r clear_error rest empty sound p = inl (empty, refl, p)
  opening_turn-Follows r (start_thread k) rest empty sound p = absurd (cc)
  opening_turn-Follows r (start_monitor m) rest empty sound p = absurd (cc)
  opening_turn-Follows r check_error rest empty sound p = absurd (cc)
  opening_turn-Follows r call_stop rest empty sound p = absurd (cc)
  opening_turn-Follows r join rest empty sound p = absurd (cc)
  opening_turn-Follows r clear_server rest empty sound p = absurd (cc)
  opening_turn-Follows r clear_thread rest empty sound p = absurd (cc)
  opening_turn-Follows r clear_monitor rest empty sound p = absurd (cc)
  opening_turn-Follows r (reraise e) rest empty sound p = absurd (cc)

  main_turn-Follows :
      (r : Result (Unit {0})) (pending : List Instruction)
      → w.pending ≡ pending
      → Follows pending w
      → Follows (main_turn r pending w).pending (main_turn r pending w)
  main_turn-Follows r [] at v = subst (λ (p : List Instruction). Follows p w) (sym at) v
  main_turn-Follows r (i ∷ rest) at (inl (empty, sound, p)) =
      opening_turn-Follows r i rest empty sound p
  main_turn-Follows r (i ∷ rest) at (inr (t, one, same, ps)) =
      plain_turn-Follows r i rest t one same ps.0 ps.1

server_step-error :
    (r : Result (Unit {0})) (s : Starter) (t : ServerThread)
    → s.server_error ≡ error_of t
    → (server_step r s t).0.server_error ≡ error_of (server_step r s t).1
unfolding server_step error_of
server_step-error r s created h = h
server_step-error r s entered h = check_server-error s.server
  where
    check_server-error :
        (o : Option ℕ) → (check_server o s).0.server_error ≡ error_of (check_server o s).1
    check_server-error none = refl
    check_server-error (some n) = h
server_step-error r s checked h = call_server-error s.server
  where
    call_server-error :
        (o : Option ℕ) → (call_server o s).0.server_error ≡ error_of (call_server o s).1
    call_server-error none = refl
    call_server-error (some n) = h
server_step-error (ok x) s (serving n) h = h
server_step-error (raised e) s (serving n) h = refl
server_step-error r s (ended x) h = h

server_turn-Follows :
    (i : ℕ) (r : Result (Unit {0})) (w : World)
    → Follows w.pending w
    → Follows
        (server_turn i r (get_elem? w.threads i) w).pending
        (server_turn i r (get_elem? w.threads i) w)
unfolding set_elem
server_turn-Follows i r w v = elim v [
  | inl (empty, sound, p) ↦
      at_elem i none (ap (λ (ts : List ServerThread). get_elem? ts i) empty) (inl (empty, sound, p))
  | inr (t, one, same, ps) ↦ at_index i t one same ps
]
  where
    at_elem :
        (j : ℕ) (o : Option ServerThread)
        → get_elem? w.threads j ≡ o
        → Follows (server_turn j r o w).pending (server_turn j r o w)
        → Follows
            (server_turn j r (get_elem? w.threads j) w).pending
            (server_turn j r (get_elem? w.threads j) w)
    at_elem j o at f =
        subst
          (λ (o : Option ServerThread). Follows (server_turn j r o w).pending (server_turn j r o w))
          (sym at) f

    at_index :
        (j : ℕ) (t : ServerThread)
        → w.threads ≡ t ∷ []
        → w.starter.server_error ≡ error_of t
        → All IsPlain w.pending
        → Follows
            (server_turn j r (get_elem? w.threads j) w).pending
            (server_turn j r (get_elem? w.threads j) w)
    at_index zero t one same ps =
        at_elem zero (some t) (ap (λ (ts : List ServerThread). get_elem? ts 0) one) (
          inr (
            (server_step r w.starter t).1,
            ap (set_elem 0 (server_step r w.starter t).1) one,
            server_step-error r w.starter t same,
            ps,
          ))
    at_index (suc k) t one same ps =
        at_elem (suc k) none (ap (λ (ts : List ServerThread). get_elem? ts (suc k)) one)
          (inr (t, one, same, ps))

monitor_turn-Follows :
    (i : ℕ) (r : Result Bool) (o : Option Monitor) (w : World)
    → Follows w.pending w
    → Follows (monitor_turn i r o w).pending (monitor_turn i r o w)
monitor_turn-Follows i r none w v = v
monitor_turn-Follows i r (some m) w (inl (empty, sound, p)) =
    inl (empty, monitor_step-error w.threads r w.starter m ∙ sound, p)
monitor_turn-Follows i r (some m) w (inr (t, one, same, ps)) =
    inr (t, one, monitor_step-error w.threads r w.starter m ∙ same, ps)

pub run-Follows :
    (turns : List Turn) (w : World)
    → All GoesOn turns
    → Follows w.pending w
    → Follows (run turns w).pending (run turns w)
unfolding run step
run-Follows [] w b v = v
run-Follows (main r ∷ turns) w b v =
    run-Follows turns _ b.1 (main_turn-Follows w r w.pending refl v)
run-Follows (server i r ∷ turns) w b v = run-Follows turns _ b.1 (server_turn-Follows i r w v)
run-Follows (monitor i r ∷ turns) w b v =
    run-Follows turns _ b.1 (monitor_turn-Follows i r (get_elem? w.monitors i) w v)
run-Follows (start_server made ∷ turns) w b v = absurd (cc (b.0))
run-Follows (stop_server ∷ turns) w b v = absurd (cc (b.0))
