-- ===== src/Bacnet/SocketRuns.antt =====
-- The UDP server at concrete datagrams.
use cursus.Prelude.{Bool, ◌&&◌, ◌==◌, ◌+◌, ◌≤◌, ℕ, ◌≡◌, refl, false, List, [], ◌∷◌}
use cursus.Wire.{Result, ok, raised, os_error}
use cursus.Wire.Texts.{text, text_eq}
use cursus.Serving.Life.{
  Address, SocketCall, Life, Event, arrived, handled, stop_called, ended, serve,
}
use cursus.Serving.Life
use cursus.Bacnet.Runs.{patterns, emulator}
use cursus.Starter.Probe.{who_is_request}
use cursus.Bacnet.Objects.{BacnetServer, init}
use cursus.Bacnet.Socket.{Datagram, Handler, received, handle, start, stop, start_over}
use cursus.Bacnet.Answered.{asked, sent, owed, serve-sent}

abbrev client : Address
client = (text "127.0.0.1", 50000)

abbrev works : List SocketCall → SocketCall → Result (Unit {0})
works calls c = ok tt

-- The datagrams of the client, and the replies to it.
abbrev of_client : Datagram → Bool
of_client (payload, (host, port)) = text_eq host client.0 && port == client.1

abbrev life : Life (BacnetServer ℕ) Handler
life = record { protocol = emulator; kept = false; calls = []; threads = [] }

-- A Who-Is and bytes that are no BACnet datagram, handled in the other order.
abbrev exchange : List (Event Datagram)
exchange =
    arrived (who_is_request, client)
    ∷ arrived (1 ∷ 2 ∷ [], client)
    ∷ handled 1
    ∷ handled 0
    ∷ handled 0
    ∷ []

serve-sent_example :
    (let l' = (serve works received (handle patterns works) exchange life).1 in
      sent of_client of_client l'.calls + owed of_client of_client l'.threads
      ≤ sent of_client of_client []
        + owed of_client of_client []
        + asked of_client of_client exchange)
serve-sent_example =
    serve-sent of_client of_client patterns works (λ payload response address s h mine. mine)
      exchange life

abbrev events : List (Event Datagram)
events = stop_called ∷ ended (raised os_error) ∷ []

start_over_example :
    (let l' = (start patterns works events life).1 in
      (l'.kept ≡ false) × (stop patterns works l' ≡ (ok tt, l')))
unfolding start Life.start Life.serve Life.perform Life.stop init
start_over_example = start_over patterns works events life (λ calls. refl) refl (λ e. absurd (cc))
