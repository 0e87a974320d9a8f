-- ===== src/Mbtcp/Server.antt =====
-- `MbtcpServer`. asyncio and pymodbus are a parameter: what they make of a call, from the calls
-- before; every call is recorded, also one that raises.
use cursus.Prelude.{ℕ, zero, suc, Bool, true, false, ◌&&◌, List, [], ◌∷◌, ◌++◌, if◌then◌else◌}
use cursus.Wire.{Result, ok, raised, Text}
use cursus.Wire.Texts.{text}
use cursus.Wire.Exec.{Exec, lift, ◌>>=◌}
use cursus.Wire.Progress.{Progress, returned, waiting}

-- `ModbusSequentialDataBlock(address, values)`
pub record Block : Type 0 where
  pub address : ℕ
  pub values : List ℕ

-- `ModbusServerContext` with its single device.
pub record Context : Type 0 where
  pub input_registers : Block
  pub holding_registers : Block
  pub discrete_inputs : Block
  pub coils : Block

pub record Identity : Type 0 where
  pub vendor_name : Text
  pub product_code : Text
  pub vendor_url : Text
  pub product_name : Text
  pub model_name : Text
  pub major_minor_revision : Text

-- The last two are whether `_server` and `_loop` are not None.
pub record MbtcpServer : Type 0 where
  pub ip : Text
  pub port : ℕ
  pub context : Context
  pub identity : Identity
  pub server_kept : Bool
  pub loop_kept : Bool

pub data Call : Type 0 where
  new_event_loop : Call
  -- Of the loop that was made, or of None.
  set_event_loop : Bool → Call
  create_server : Context → Identity → Text → ℕ → Call
  serve_forever close_loop shutdown : Call

-- The server and the calls so far.
pub record Running : Type 0 where
  pub server : MbtcpServer
  pub calls : List Call

-- While `serve_forever` runs, another thread calls `stop`, or it ends with the result.
pub data Event : Type 0 where
  stop_called : Event
  ended : Result (Unit {0}) → Event

-- `range(start, start + size)`
unfoldable pub range_from : ℕ → ℕ → List ℕ
range_from start zero = []
range_from start (suc n) = start ∷ range_from (suc start) n

unfoldable pub block : ℕ → Block
unfolding range_from
block size = record { address = 1; values = range_from 0 size }

abbrev pub identity : Identity
identity = record {
  vendor_name = text "WAGO";
  product_code = text "750-881";
  vendor_url = text "https://www.wago.com";
  product_name = text "ETHERNET Programmable Fieldbus Controller";
  model_name = text "PFC200";
  major_minor_revision = text "03.01.02";
}

unfoldable pub init : Text → ℕ → ℕ → MbtcpServer
init ip port size = record {
  ip = ip;
  port = port;
  context = record {
    input_registers = block size;
    holding_registers = block size;
    discrete_inputs = block size;
    coils = block size;
  };
  identity = identity;
  server_kept = false;
  loop_kept = false;
}

module _ (outside : List Call → Call → Result (Unit {0})) where
  abbrev pub Action : Type 0 → Type 0
  Action A = Exec Running A

  unfoldable pub perform : Call → Action (Unit {0})
  perform c a = (outside a.calls c, record a { calls = a.calls ++ c ∷ [] })

  abbrev pub keep_server : Bool → Action (Unit {0})
  keep_server kept a = (ok tt, record a { server = record a.server { server_kept = kept } })

  abbrev pub keep_loop : Bool → Action (Unit {0})
  keep_loop kept a = (ok tt, record a { server = record a.server { loop_kept = kept } })

  -- `shutdown` stands for the coroutine in the loop's thread and the wait of five seconds for it.
  unfoldable pub stop : Action (Unit {0})
  stop a = (if a.server.server_kept && a.server.loop_kept then perform shutdown else lift (ok tt)) a

  abbrev pub progress_of : Result (Unit {0}) → Result Progress
  progress_of (ok _) = ok returned
  progress_of (raised e) = raised e

  -- `serve_forever` with what happens meanwhile. What `stop` raises in another thread stays there.
  unfoldable pub serve : List Event → Action Progress
  serve [] a = (ok waiting, a)
  serve (stop_called ∷ events) a = serve events (stop a).1
  serve (ended result ∷ events) a = (progress_of result, a)

  abbrev pub enter_serve : Action (Unit {0})
  enter_serve a = (ok tt, record a { calls = a.calls ++ serve_forever ∷ [] })

  unfoldable pub try_serve : List Event → Action Progress
  try_serve events a =
      (do
        _ ← perform (set_event_loop true)
        _ ← perform (create_server a.server.context a.server.identity a.server.ip a.server.port)
        _ ← keep_server true
        _ ← enter_serve
        serve events)
        a

  -- The `finally`.
  abbrev pub clean_up : Result Progress → Action Progress
  clean_up result = do
    _ ← perform (set_event_loop false)
    _ ← perform close_loop
    _ ← keep_server false
    _ ← keep_loop false
    lift result

  abbrev pub finish : Result Progress × Running → Result Progress × Running
  finish (ok waiting, a) = (ok waiting, a)
  finish (ok returned, a) = clean_up (ok returned) a
  finish (raised e, a) = clean_up (raised e) a

  unfoldable pub start : List Event → Action Progress
  start events = do _ ← perform new_event_loop; _ ← keep_loop true; λ a. finish (try_serve events a)
