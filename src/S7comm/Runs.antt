-- ===== src/S7comm/Runs.antt =====
-- The S7comm server at concrete runs.
use cursus.Prelude.{◌≡◌, refl, true, false, List, [], ◌∷◌, replicate}
use cursus.Wire.{Result, ok, raised, other_error}
use cursus.Wire.Texts.{text}
use cursus.Wire.Progress.{returned, waiting}
use cursus.S7comm.Server.{
  Call, create_server, register_area, db, pa, pe, mk, tm, ct, start_to, pick_event, stop_server,
  S7commServer, Running, picked, stop_called, before_pick, c_bytes, init, call, start, stop,
}
use cursus.S7comm.Stopping.{start_stops, stop_lost}

-- Every `pick_event` raises an exception, which is logged.
abbrev picks_fail : List Call → Call → Result (Unit {0})
picks_fail calls pick_event = raised (other_error 1)
picks_fail calls c = ok tt

abbrev server : S7commServer
server = record {
  ip = text "127.0.0.1";
  port = 102;
  size = 4;
  stopped = false;
  db1_data = c_bytes 64;
  pa_data = c_bytes 4;
  pe_data = c_bytes 4;
  mk_data = c_bytes 4;
  tm_data = c_bytes 4;
  ct_data = c_bytes 4;
}

-- DB1 has 64 bytes whatever the size, and is registered with the index 0.
init_run : init picks_fail (text "127.0.0.1") 102 4 [] ≡ (
  ok server,
  create_server
      ∷ register_area db 0 (replicate 64 0)
      ∷ register_area pa 0 (replicate 4 0)
      ∷ register_area pe 0 (replicate 4 0)
      ∷ register_area mk 0 (replicate 4 0)
      ∷ register_area tm 0 (replicate 4 0)
      ∷ register_area ct 0 (replicate 4 0)
      ∷ [],
)
unfolding init call
init_run = refl

abbrev fresh : Running
fresh = record { server = server; calls = [] }

start_stops_example : start picks_fail (picked ∷ picked ∷ stop_called before_pick ∷ []) fresh ≡ (
  ok returned,
  record {
    server = record server { stopped = true };
    calls =
        start_to (text "127.0.0.1") 102 ∷ pick_event ∷ pick_event ∷ stop_server ∷ pick_event ∷ [];
  },
)
start_stops_example = start_stops picks_fail (λ calls. refl) 2 before_pick fresh refl

stop_lost_example :
    (start picks_fail (picked ∷ picked ∷ []) (stop picks_fail fresh).1).0 ≡ ok waiting
stop_lost_example = stop_lost picks_fail (λ calls. refl) 2 fresh (λ calls. refl)
