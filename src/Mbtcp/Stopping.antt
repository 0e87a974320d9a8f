-- ===== src/Mbtcp/Stopping.antt =====
-- How `start` of the Modbus server ends.
use cursus.Prelude.{
  ℕ, zero, suc, ◌≡◌, ◌≢◌, refl, sym, ap, ◌∙◌, true, false, List, [], ◌∷◌, ◌++◌, append-nil,
  append_assoc, replicate, inl, inr,
}
use cursus.Wire.{Result, ok, raised, Result-cases}
use cursus.Wire.Progress.{Progress, returned, waiting}
use cursus.Mbtcp.Server.{
  Call, new_event_loop, set_event_loop, create_server, serve_forever, close_loop, shutdown,
  MbtcpServer, Running, Event, stop_called, ended, perform, stop, serve, try_serve, clean_up,
  finish, progress_of, start,
}

module _ (outside : List Call → Call → Result (Unit {0})) where
  abbrev pub Returns : Call → Type 0
  Returns c = (calls : List Call) → outside calls c ≡ ok tt

  -- The server with nothing kept.
  abbrev pub released : MbtcpServer → MbtcpServer
  released s = record s { server_kept = false; loop_kept = false }

  stop-kept :
      (a : Running)
      → a.server.server_kept ≡ true
      → a.server.loop_kept ≡ true
      → stop outside a ≡ (outside a.calls shutdown, record a { calls = a.calls ++ shutdown ∷ [] })
  unfolding stop perform
  stop-kept a s l = simp (s, l) refl

  serve-ended :
      (n : ℕ) (result : Result (Unit {0})) (rest : List Event) (a : Running)
      → a.server.server_kept ≡ true
      → a.server.loop_kept ≡ true
      → serve outside (replicate n stop_called ++ ended result ∷ rest) a
        ≡ (progress_of outside result, record a { calls = a.calls ++ replicate n shutdown })
  unfolding serve stop perform
  serve-ended zero result rest a s l =
      ap (λ (calls : List Call). (progress_of outside result, record a { calls = calls }))
        (sym (append-nil a.calls))
  serve-ended (suc n) result rest a s l =
      ap
        (λ (x : Result (Unit {0}) × Running).
          serve outside (replicate n stop_called ++ ended result ∷ rest) x.1)
        (stop-kept a s l)
      ∙ serve-ended n result rest (record a { calls = a.calls ++ shutdown ∷ [] }) s l
      ∙ simp append_assoc

  -- What is called before `serve_forever` returns.
  abbrev pub Opens : MbtcpServer → Type 0
  Opens s =
      Returns new_event_loop
      × Returns (set_event_loop true)
      × Returns (create_server s.context s.identity s.ip s.port)

  module _ (unset : Returns (set_event_loop false)) (closes : Returns close_loop) where
    clean_up-released :
        (result : Result Progress) (a : Running)
        → clean_up outside result a ≡ (
          result,
          record {
            server = released a.server;
            calls = a.calls ++ set_event_loop false ∷ close_loop ∷ [];
          },
        )
    unfolding perform
    clean_up-released result a = simp (unset, closes, append_assoc) refl

    finish-progress_of :
        (result : Result (Unit {0})) (a : Running)
        → finish outside (progress_of outside result, a)
          ≡ clean_up outside (progress_of outside result) a
    finish-progress_of (ok x) a = refl
    finish-progress_of (raised e) a = refl

    finish-released :
        (p : Result Progress × Running)
        → (finish outside p).0 ≢ ok waiting
        → (finish outside p).1.server ≡ released p.1.server
    finish-released (ok waiting, a) ends = absurd (ends refl)
    finish-released (ok returned, a) ends =
        ap (λ (x : Result Progress × Running). x.1.server) (clean_up-released (ok returned) a)
    finish-released (raised e, a) ends =
        ap (λ (x : Result Progress × Running). x.1.server) (clean_up-released (raised e) a)

    keeps_nothing :
        (a : Running) (s : MbtcpServer)
        → a.server ≡ released s
        → (a.server.server_kept ≡ false)
          × (a.server.loop_kept ≡ false)
          × (stop outside a ≡ (ok tt, a))
    unfolding stop
    keeps_nothing a s e =
        let unkept : a.server.server_kept ≡ false = ap (λ (s : MbtcpServer). s.server_kept) e in
        (unkept, ap (λ (s : MbtcpServer). s.loop_kept) e, simp unkept refl)

    -- A server that keeps nothing, and `set_event_loop(None)` and `close` raise nothing: whatever else
    -- asyncio and pymodbus raise, and whatever happens while it serves, a `start` that is over keeps
    -- neither the server nor the loop, and a `stop` then returns and calls nothing.
    pub start_releases :
        (events : List Event) (a : Running)
        → a.server.server_kept ≡ false
        → a.server.loop_kept ≡ false
        → (start outside events a).0 ≢ ok waiting
        → (let a' = (start outside events a).1 in
            (a'.server.server_kept ≡ false)
            × (a'.server.loop_kept ≡ false)
            × (stop outside a' ≡ (ok tt, a')))
    unfolding start stop perform
    start_releases events a s l ends = elim (Result-cases (outside a.calls new_event_loop)) [
      | inl (x, e) ↦
          let p = try_serve outside events (record a {
            server = record a.server { loop_kept = true };
            calls = a.calls ++ new_event_loop ∷ [];
          }) in
          simp e
            (keeps_nothing (finish outside p).1 p.1.server (finish-released p (simp e at ends)))
      | inr (x, e) ↦ simp (e, s, l) (refl, refl, refl)
    ]

    -- asyncio and pymodbus raise nothing until `serve_forever`, nor in the `finally`: however often
    -- `stop` is called while it runs, and whatever those calls raise, `start` ends as `serve_forever`
    -- does, the loop is closed, and neither the server nor the loop is kept.
    pub start_ends :
        (n : ℕ) (result : Result (Unit {0})) (rest : List Event) (a : Running)
        → Opens a.server
        → start outside (replicate n stop_called ++ ended result ∷ rest) a ≡ (
          progress_of outside result,
          record {
            server = released a.server;
            calls =
                a.calls
                ++ new_event_loop
                  ∷ set_event_loop true
                  ∷ create_server a.server.context a.server.identity a.server.ip a.server.port
                  ∷ serve_forever
                  ∷ (replicate n shutdown ++ set_event_loop false ∷ close_loop ∷ []);
          },
        )
    unfolding start try_serve perform
    start_ends n result rest a (loop, set, made) =
        simp (loop, set, made, serve-ended)
          (finish-progress_of result _
            ∙ clean_up-released (progress_of outside result) _
            ∙ simp append_assoc)
