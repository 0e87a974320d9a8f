-- ===== src/Bacnet/Socket.antt =====
-- The UDP side of bacnet/server.py: `_BacnetRequestHandler.handle`, `start` and `stop`.
use cursus.Prelude.{◌≡◌, ◌≢◌, false, Option, none, some, List}
use cursus.Wire.{Result, ok, raised, Bytes}
use cursus.Wire.Exec.{Exec, lift, ◌>>=◌}
use cursus.Wire.Progress.{Progress, waiting}
use cursus.Serving.Life.{Address, SocketCall, server_close, sendto, Life, Event}
use cursus.Serving.Life
use cursus.Serving.Ending.{start-kept}
use cursus.Bacnet.Objects.{Floats, BacnetServer}
use cursus.Bacnet.Server.{handle_datagram}

abbrev pub Datagram : Type 0
Datagram = Bytes × Address

-- Where the handler of a datagram stands: before `handle_datagram`, or before `sendto`.
pub data Handler : Type 0 where
  received : Datagram → Handler
  replying : Bytes → Address → Handler

-- `if response is not None`
abbrev pub reply_to : Address → Option Bytes → Option Handler
reply_to address none = none
reply_to address (some response) = some (replying response address)

abbrev pub respond : Address → Result (Option Bytes) → Result (Option Handler)
respond address (ok response) = ok (reply_to address response)
respond address (raised e) = raised e

module _ (fl : Floats) (outside : List SocketCall → SocketCall → Result (Unit {0})) where
  open fl use {Float}

  abbrev pub Action : Type 0 → Type 0
  Action A = Exec (Life (BacnetServer Float) Handler) A

  -- A step of a handler: `handle_datagram` is one, and `sendto` is one.
  unfoldable pub handle : Handler → Action (Option Handler)
  handle (received (payload, address)) l =
      let (response, protocol) = handle_datagram fl payload l.protocol in
      (respond address response, record l { protocol = protocol })
  handle (replying response address) l =
      (do _ ← Life.perform outside (sendto response address); lift (ok none)) l

  unfoldable pub start : List (Event Datagram) → Action Progress
  start events l = Life.start outside received handle l.protocol.ip l.protocol.port events l

  unfoldable pub stop : Action (Unit {0})
  stop = Life.stop outside received handle

  -- `server_close` raises nothing, and the server does not serve: whatever else socketserver raises,
  -- and whatever arrives or is called meanwhile, a `start` that is over leaves the server as one that
  -- does not serve, and a `stop` then returns and calls nothing.
  pub start_over :
      (events : List (Event Datagram)) (l : Life (BacnetServer Float) Handler)
      → ((calls : List SocketCall) → outside calls server_close ≡ ok tt)
      → l.kept ≡ false
      → (start events l).0 ≢ ok waiting
      → (let l' = (start events l).1 in (l'.kept ≡ false) × (stop l' ≡ (ok tt, l')))
  unfolding start stop
  start_over events l closes idle over =
      start-kept outside received handle closes l.protocol.ip l.protocol.port events l idle over
