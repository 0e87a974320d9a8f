-- ===== src/Serving/Life.antt =====
-- A threading socketserver behind a server of the program: each request has a thread of its own, and
-- the threads take their steps in any order. socketserver is a parameter: what it makes of a call,
-- from the calls before; every call is recorded, also one that raises.
use cursus.Prelude.{
  ℕ, zero, suc, Bool, true, false, Option, none, some, List, [], ◌∷◌, ◌++◌, get_elem?,
  if◌then◌else◌,
}
use cursus.Wire.{Result, ok, raised, Bytes, Text}
use cursus.Wire.Exec.{Exec, lift, ◌>>=◌}
use cursus.Wire.Progress.{Progress, returned, waiting}

abbrev pub Address : Type 0
Address = Text × ℕ

pub data SocketCall : Type 0 where
  open_server : Text → ℕ → SocketCall
  serve_forever server_close shutdown : SocketCall
  sendto : Bytes → Address → SocketCall

-- `kept` is whether the attribute `_server` is not None. `threads` are the handlers that are not over.
pub record Life (P Thread : Type 0) : Type 0 where
  pub protocol : P
  pub kept : Bool
  pub calls : List SocketCall
  pub threads : List Thread

-- While `serve_forever` runs, a request arrives and gets a thread, the thread with a number takes a
-- step, another thread calls `stop`, or it ends with the result.
pub data Event (Request : Type 0) : Type 0 where
  arrived : Request → Event Request
  handled : ℕ → Event Request
  stop_called : Event Request
  ended : Result (Unit {0}) → Event Request

abbrev pub progress_of : Result (Unit {0}) → Result Progress
progress_of (ok _) = ok returned
progress_of (raised e) = raised e

module _ {ℓ} {A : Type ℓ} where
  -- A list with an entry replaced, or without it, if it has one at the index.
  unfoldable pub replace : ℕ → Option A → List A → List A
  replace i o [] = []
  replace zero none (x ∷ xs) = xs
  replace zero (some y) (x ∷ xs) = y ∷ xs
  replace (suc i) o (x ∷ xs) = x ∷ replace i o xs

-- A handler is over when nothing is left of it. An exception of a handler stays in its thread.
abbrev pub rest_of {ℓ} : {A : Type ℓ} → Result (Option A) → Option A
rest_of (ok left) = left
rest_of (raised e) = none

-- A call is recorded, and ends as socketserver has it.
module _ {P Thread : Type 0} (outside : List SocketCall → SocketCall → Result (Unit {0})) where
  unfoldable pub perform : SocketCall → Exec (Life P Thread) (Unit {0})
  perform c l = (outside l.calls c, record l { calls = l.calls ++ c ∷ [] })

module _ {P Request Thread : Type 0} (outside : List SocketCall → SocketCall → Result (Unit {0}))
    (spawn : Request → Thread) (handle : Thread → Exec (Life P Thread) (Option Thread)) where
  abbrev pub Action : Type 0 → Type 0
  Action A = Exec (Life P Thread) A

  abbrev pub keep : Bool → Action (Unit {0})
  keep kept l = (ok tt, record l { kept = kept })

  unfoldable pub stop : Action (Unit {0})
  stop l = (if l.kept then perform outside shutdown else lift (ok tt)) l

  abbrev pub turn : ℕ → Option Thread → Life P Thread → Life P Thread
  turn i none l = l
  turn i (some thread) l =
      let (r, l') = handle thread l in record l' { threads = replace i (rest_of r) l'.threads }

  unfoldable pub serve : List (Event Request) → Action Progress
  serve [] l = (ok waiting, l)
  serve (arrived request ∷ events) l =
      serve events (record l { threads = l.threads ++ spawn request ∷ [] })
  serve (handled i ∷ events) l = serve events (turn i (get_elem? l.threads i) l)
  serve (stop_called ∷ events) l = serve events (stop l).1
  serve (ended result ∷ events) l = (progress_of result, l)

  abbrev pub enter_serve : Action (Unit {0})
  enter_serve l = (ok tt, record l { calls = l.calls ++ serve_forever ∷ [] })

  -- The `finally`.
  abbrev pub clean_up : Result Progress → Action Progress
  clean_up result = do _ ← perform outside server_close; _ ← keep false; lift result

  abbrev pub finish : Result Progress × Life P Thread → Result Progress × Life P Thread
  finish (ok waiting, l) = (ok waiting, l)
  finish (ok returned, l) = clean_up (ok returned) l
  finish (raised e, l) = clean_up (raised e) l

  unfoldable pub start : Text → ℕ → List (Event Request) → Action Progress
  start ip port events = do
    _ ← perform outside (open_server ip port)
    _ ← keep true
    _ ← enter_serve
    λ l. finish (serve events l)
