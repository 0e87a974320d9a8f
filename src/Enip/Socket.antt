-- ===== src/Enip/Socket.antt =====
-- The TCP side of enip/server.py: `start` and `stop`. A whole connection is one step of its thread
-- here; how connections interleave is in Enip/System.
use cursus.Prelude.{none, Option, ◌≡◌, ◌≢◌, Bool, false, List}
use cursus.Wire.{Result, ok, Bytes}
use cursus.Wire.Exec.{Exec}
use cursus.Wire.Progress.{Progress, waiting}
use cursus.Serving.Life.{SocketCall, server_close, Life, Event}
use cursus.Serving.Life
use cursus.Serving.Ending.{start-kept}
use cursus.Enip.Objects.{EnipServer, Sockets}
use cursus.Enip.Connection.{Received, handle_connection}

-- A client: what `recv` returns, and which responses `sendall` accepts.
pub record Client : Type 0 where
  pub received : List Received
  pub accepts : List Bytes → Bytes → Bool

module _ (net : Sockets) (outside : List SocketCall → SocketCall → Result (Unit {0})) where
  abbrev pub Action : Type 0 → Type 0
  Action A = Exec (Life EnipServer Client) A

  abbrev pub handle_client : Client → Action (Option Client)
  handle_client client l = (
    ok none,
    record l { protocol = handle_connection net client.accepts client.received l.protocol },
  )

  unfoldable pub start : List (Event Client) → Action Progress
  start events l =
      Life.start outside (λ client. client) handle_client l.protocol.ip l.protocol.port events l

  unfoldable pub stop : Action (Unit {0})
  stop = Life.stop outside (λ client. client) handle_client

  -- `server_close` raises nothing, and the server does not serve: whatever else socketserver raises,
  -- and whatever clients send or is called meanwhile, a `start` that is over leaves the server as one
  -- that does not serve, and a `stop` then returns and calls nothing.
  start_over_tcp :
      (events : List (Event Client)) (l : Life EnipServer Client)
      → ((calls : List SocketCall) → outside calls server_close ≡ ok tt)
      → l.kept ≡ false
      → (start events l).0 ≢ ok waiting
      → (let l' = (start events l).1 in (l'.kept ≡ false) × (stop l' ≡ (ok tt, l')))
  unfolding start stop
  start_over_tcp events l closes idle over =
      start-kept outside (λ client. client) handle_client closes l.protocol.ip l.protocol.port
        events l idle over
