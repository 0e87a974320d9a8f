-- ===== src/Mbtcp/Runs.antt =====
-- The Modbus server at concrete runs.
use cursus.Prelude.{◌≡◌, refl, true, false, List, [], ◌∷◌, All}
use cursus.Wire.{Result, ok, raised, os_error, timeout_expired}
use cursus.Wire.Texts.{text}
use cursus.Wire.Progress.{returned}
use cursus.Mbtcp.Server.{
  Block, Call, new_event_loop, set_event_loop, create_server, serve_forever, close_loop, shutdown,
  MbtcpServer, Running, stop_called, ended, init, start, stop, try_serve, perform,
}
use cursus.Mbtcp.Tables.{IsNumbered, init-IsNumbered}
use cursus.Mbtcp.Stopping.{start_ends, start_releases}

abbrev server : MbtcpServer
server = init (text "127.0.0.1") 5020 4

init-IsNumbered_example :
    (let context = server.context in
      let tables =
        context.input_registers ∷ context.holding_registers ∷ context.discrete_inputs
        ∷ context.coils ∷ [] in
      All (λ (b : Block). (b.address ≡ 1) × IsNumbered 4 b) tables)
init-IsNumbered_example = init-IsNumbered (text "127.0.0.1") 5020 4

-- The shutdown runs into its timeout.
abbrev late_shutdown : List Call → Call → Result (Unit {0})
late_shutdown calls shutdown = raised timeout_expired
late_shutdown calls c = ok tt

-- The port is taken.
abbrev no_port : List Call → Call → Result (Unit {0})
no_port calls (create_server context identity ip port) = raised os_error
no_port calls c = ok tt

abbrev fresh : Running
fresh = record { server = server; calls = [] }

start_ends_example : start late_shutdown (stop_called ∷ stop_called ∷ ended (ok tt) ∷ []) fresh ≡ (
  ok returned,
  record {
    server = server;
    calls =
        new_event_loop
        ∷ set_event_loop true
        ∷ create_server server.context server.identity (text "127.0.0.1") 5020
        ∷ serve_forever
        ∷ shutdown
        ∷ shutdown
        ∷ set_event_loop false
        ∷ close_loop
        ∷ [];
  },
)
unfolding init
start_ends_example =
    start_ends late_shutdown (λ calls. refl) (λ calls. refl) 2 (ok tt) [] fresh
      (λ calls. refl, λ calls. refl, λ calls. refl)

start_releases_example :
    (let a = (start no_port (stop_called ∷ []) fresh).1 in
      (a.server.server_kept ≡ false) × (a.server.loop_kept ≡ false) × (stop no_port a ≡ (ok tt, a)))
unfolding init start try_serve perform
start_releases_example =
    start_releases no_port (λ calls. refl) (λ calls. refl) (stop_called ∷ []) fresh refl refl
      (λ e. absurd (cc))
