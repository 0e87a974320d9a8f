-- ===== src/S7comm/Server.antt =====
-- `S7commServer`. snap7 is a parameter: what it makes of a call, from the calls before; every call is
-- recorded, also one that raises.
use cursus.Prelude.{ℕ, Bool, true, false, List, [], ◌∷◌, ◌++◌, replicate, if◌then◌else◌}
use cursus.Wire.{
  Error, keyboard_interrupt, system_exit, generator_exit, Result, ok, raised, Bytes, Text,
}
use cursus.Wire.Exec.{Exec, lift, ◌>>=◌}
use cursus.Wire.Progress.{Progress, returned, waiting}

-- `snap7.SrvArea`
pub data SrvArea : Type 0 where
  db pa pe mk tm ct : SrvArea

pub data Call : Type 0 where
  create_server : Call
  register_area : SrvArea → ℕ → Bytes → Call
  start_to : Text → ℕ → Call
  pick_event stop_server : Call

pub record S7commServer : Type 0 where
  pub ip : Text
  pub port : ℕ
  pub size : ℕ
  pub stopped : Bool
  pub db1_data : Bytes
  pub pa_data : Bytes
  pub pe_data : Bytes
  pub mk_data : Bytes
  pub tm_data : Bytes
  pub ct_data : Bytes

-- The server and the calls of snap7 so far.
pub record Running : Type 0 where
  pub server : S7commServer
  pub calls : List Call

-- Where `start` is in a round of its loop: before the test of the flag, past the test but not yet in
-- `pick_event`, and in `pick_event`.
pub data Moment : Type 0 where
  before_test before_pick in_pick : Moment

-- A round of the loop: one that `start` is alone in, or in which another thread calls `stop`, which is
-- one step here.
pub data Round : Type 0 where
  picked : Round
  stop_called : Moment → Round

-- `(c_byte * size)()`
abbrev pub c_bytes : ℕ → Bytes
c_bytes size = replicate size 0

-- What `except Exception` catches.
abbrev pub is_exception : Error → Bool
is_exception keyboard_interrupt = false
is_exception system_exit = false
is_exception generator_exit = false
is_exception e = true

-- An exception of `pick_event` is logged.
abbrev pub logged : Result (Unit {0}) → Result (Unit {0})
logged (ok x) = ok x
logged (raised e) = if is_exception e then ok tt else raised e

module _ (snap7 : List Call → Call → Result (Unit {0})) where
  unfoldable pub call : Call → Exec (List Call) (Unit {0})
  call c calls = (snap7 calls c, calls ++ c ∷ [])

  unfoldable pub init : Text → ℕ → ℕ → Exec (List Call) S7commServer
  init ip port size = do
    _ ← call create_server
    _ ← call (register_area db 0 (c_bytes 64))
    _ ← call (register_area pa 0 (c_bytes size))
    _ ← call (register_area pe 0 (c_bytes size))
    _ ← call (register_area mk 0 (c_bytes size))
    _ ← call (register_area tm 0 (c_bytes size))
    _ ← call (register_area ct 0 (c_bytes size))
    lift (
        ok (record {
          ip = ip;
          port = port;
          size = size;
          stopped = false;
          db1_data = c_bytes 64;
          pa_data = c_bytes size;
          pe_data = c_bytes size;
          mk_data = c_bytes size;
          tm_data = c_bytes size;
          ct_data = c_bytes size;
        }))

  abbrev pub Action : Type 0 → Type 0
  Action A = Exec Running A

  unfoldable pub perform : Call → Action (Unit {0})
  unfolding call
  perform c a = let (r, calls) = call c a.calls in (r, record a { calls = calls })

  abbrev pub set_stopped : Bool → Action (Unit {0})
  set_stopped is_set a = (ok tt, record a { server = record a.server { stopped = is_set } })

  unfoldable pub stop : Action (Unit {0})
  stop = do _ ← set_stopped true; perform stop_server

  -- What `stop` raises in another thread stays there.
  abbrev pub during : Moment → Round → Action (Unit {0})
  during before_test (stop_called before_test) a = (ok tt, (stop a).1)
  during before_pick (stop_called before_pick) a = (ok tt, (stop a).1)
  during in_pick (stop_called in_pick) a = (ok tt, (stop a).1)
  during moment round a = (ok tt, a)

  abbrev pub pick : Action (Unit {0})
  pick a = let (r, a') = perform pick_event a in (logged r, a')

  -- `while not self._stopped.is_set()`
  unfoldable pub pick_loop : List Round → Action Progress
  pick_loop [] a = (ok (if a.server.stopped then returned else waiting), a)
  pick_loop (round ∷ rounds) a =
      let (r, b) = during before_test round a in
      (if b.server.stopped then lift (ok returned) else (do
        _ ← during before_pick round
        _ ← pick
        _ ← during in_pick round
        pick_loop rounds))
        b

  unfoldable pub start : List Round → Action Progress
  start rounds a =
      (do _ ← set_stopped false; _ ← perform (start_to a.server.ip a.server.port); pick_loop rounds)
        a
