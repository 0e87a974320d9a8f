-- ===== src/Enip/Connection.antt =====
-- `_EnipRequestHandler.handle`: one TCP connection, from the bytes that `recv` returns to the
-- responses that are sent. What the socket does is given by the events of `recv` and by a test that
-- says whether `sendall` accepts a response, from what it sent before.
use cursus.Prelude.{
  ℕ, zero, suc, Bool, true, false, Option, none, some, List, [], ◌∷◌, ◌++◌, length, if◌then◌else◌,
}
use cursus.Wire.{Error, Result, ok, raised, os_error, Bytes}
use cursus.Enip.Objects.{EncapsulationFrame, EnipServer, Sockets}
use cursus.Enip.Encapsulation.{next_frame}
use cursus.Enip.Server.{Attached, handle_frame, release_sessions}

-- Whether the loop goes on, or how it was left: the peer closed, OSError, another exception.
pub data Status : Type 0 where
  running closed disconnected : Status
  crashed : Error → Status

abbrev pub is_running : Status → Bool
is_running running = true
is_running _ = false

-- What `recv` returns or raises.
pub data Received : Type 0 where
  chunk : Bytes → Received
  failed : Received

-- The local variables of `handle`, with the server and what was sent so far.
pub record Connection : Type 0 where
  pub status : Status
  pub buffer : Bytes
  pub attached : Attached
  pub sent : List Bytes

abbrev pub left_by : Error → Status
left_by os_error = disconnected
left_by e = crashed e

module _ (net : Sockets) (accepts : List Bytes → Bytes → Bool) where
  -- `if response: self.request.sendall(response)`
  unfoldable pub send : Bytes → Connection → Connection
  send [] c = c
  send (b ∷ response) c =
      if accepts c.sent (b ∷ response)
      then record c { sent = c.sent ++ (b ∷ response) ∷ [] }
      else record c { status = disconnected }

  unfoldable pub send_reply : Option Bytes → Connection → Connection
  send_reply none c = c
  send_reply (some response) c = send response c

  unfoldable pub finish_frame : Result (Option Bytes) → Connection → Connection
  finish_frame (ok reply) c = send_reply reply c
  finish_frame (raised e) c = record c { status = left_by e }

  -- A frame that was taken off the buffer.
  unfoldable pub deliver : EncapsulationFrame → Connection → Connection
  deliver frame c =
      let (reply, attached) = handle_frame net frame c.attached in
      finish_frame reply (record c { attached = attached })

  -- The inner loop: frames are handled while the buffer holds one.
  unfoldable pub drain : ℕ → Connection → Connection
  drain zero c = c
  drain (suc fuel) c = elim (is_running c.status) [
    | false ↦ c
    | true ↦ (elim (next_frame c.buffer) [
      | none ↦ c
      | some (frame, rest) ↦ drain fuel (deliver frame (record c { buffer = rest }))
    ])
  ]

  -- A round of the outer loop. A frame has a byte at least, so the buffer's length is fuel enough.
  unfoldable pub receive : Received → Connection → Connection
  receive failed c = if is_running c.status then record c { status = disconnected } else c
  receive (chunk []) c = if is_running c.status then record c { status = closed } else c
  receive (chunk (b ∷ bs)) c =
      if is_running c.status
      then (let buffer = c.buffer ++ b ∷ bs in drain (length buffer) (record c { buffer = buffer }))
      else c

  unfoldable pub receive_all : List Received → Connection → Connection
  receive_all [] c = c
  receive_all (e ∷ events) c = receive_all events (receive e c)

  abbrev pub opened : EnipServer → Connection
  opened s = record {
    status = running;
    buffer = [];
    attached = record { server = s; sessions = [] };
    sent = [];
  }

  -- `finally: protocol.release_sessions(session_handles)`
  unfoldable pub released : Connection → EnipServer
  released c = release_sessions c.attached.sessions c.attached.server

  -- The server behind the whole connection.
  unfoldable pub handle_connection : List Received → EnipServer → EnipServer
  handle_connection events s = released (receive_all events (opened s))
