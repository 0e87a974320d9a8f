-- ===== src/Enip/Draining.antt =====
-- The inner loop of a connection's handler: it ends, and bytes that arrive early change nothing.
use cursus.Prelude.{
  ◌⊎◌, ℕ, zero, suc, ◌+◌, ◌≤◌, ◌≡◌, refl, Bool, true, false, Option, none, some, List, [], ◌∷◌,
  ◌++◌, arith, length, Bool-cases, Option-cases, inl, inr, length-append,
}
use cursus.Wire.{Result, ok, raised, Bytes}
use cursus.Enip.Objects.{EncapsulationFrame, Sockets}
use cursus.Enip.Encapsulation.{next_frame}
use cursus.Enip.Server.{handle_frame}
use cursus.Enip.Connection.{is_running, Connection, send, send_reply, finish_frame, deliver, drain}
use cursus.Enip.Framing.{next_frame-append, next_frame-shorter, next_frame_short}

module _ (net : Sockets) (accepts : List Bytes → Bytes → Bool) where
  -- Bytes that arrive while the buffer is looked at.
  unfoldable pub pour : Bytes → Connection → Connection
  pour more c = record c { buffer = c.buffer ++ more }

  send-buffer :
      (response : Bytes) (c : Connection) → (send net accepts response c).buffer ≡ c.buffer
  unfolding send
  send-buffer [] c = refl
  send-buffer (b ∷ response) c = ground arith

  send-pour :
      (response more : Bytes) (c : Connection)
      → send net accepts response (pour more c) ≡ pour more (send net accepts response c)
  unfolding send pour
  send-pour [] more c = refl
  send-pour (b ∷ response) more c = elim (Bool-cases (accepts c.sent (b ∷ response))) [
    | inl e ↦ rw e refl
    | inr e ↦ rw e refl
  ]

  finish_frame-buffer :
      (reply : Result (Option Bytes)) (c : Connection)
      → (finish_frame net accepts reply c).buffer ≡ c.buffer
  unfolding finish_frame send_reply
  finish_frame-buffer (ok none) c = refl
  finish_frame-buffer (ok (some response)) c = send-buffer response c
  finish_frame-buffer (raised e) c = refl

  finish_frame-pour :
      (reply : Result (Option Bytes)) (more : Bytes) (c : Connection)
      → finish_frame net accepts reply (pour more c) ≡ pour more (finish_frame net accepts reply c)
  unfolding finish_frame send_reply pour
  finish_frame-pour (ok none) more c = refl
  finish_frame-pour (ok (some response)) more c = send-pour response more c
  finish_frame-pour (raised e) more c = refl

  deliver-buffer :
      (frame : EncapsulationFrame) (c : Connection)
      → (deliver net accepts frame c).buffer ≡ c.buffer
  unfolding deliver
  deliver-buffer frame c =
      finish_frame-buffer (handle_frame net frame c.attached).0
        (record c { attached = (handle_frame net frame c.attached).1 })

  deliver-pour :
      (frame : EncapsulationFrame) (more : Bytes) (c : Connection)
      → deliver net accepts frame (pour more c) ≡ pour more (deliver net accepts frame c)
  unfolding deliver pour
  deliver-pour frame more c =
      finish_frame-pour (handle_frame net frame c.attached).0 more
        (record c { attached = (handle_frame net frame c.attached).1 })

  pub drain_stopped :
      (fuel : ℕ) (c : Connection) → is_running c.status ≡ false → drain net accepts fuel c ≡ c
  unfolding drain
  drain_stopped zero c h = refl
  drain_stopped (suc fuel) c h = rw (h, drain) refl

  drain_waiting :
      (fuel : ℕ) (c : Connection) → next_frame c.buffer ≡ none → drain net accepts fuel c ≡ c
  unfolding drain
  drain_waiting zero c h = refl
  drain_waiting (suc fuel) c h = elim (Bool-cases (is_running c.status)) [
    | inl e ↦ rw (e, h, drain) refl
    | inr e ↦ drain_stopped (suc fuel) c e
  ]

  drain_frame :
      (fuel : ℕ) (c : Connection) (frame : EncapsulationFrame) (rest : Bytes)
      → is_running c.status ≡ true
      → next_frame c.buffer ≡ some (frame, rest)
      → drain net accepts (suc fuel) c
        ≡ drain net accepts fuel (deliver net accepts frame (record c { buffer = rest }))
  unfolding drain
  drain_frame fuel c frame rest h e = rw (h, e, drain) refl

  -- The connection once the first frame was taken off its buffer and handled.
  abbrev delivered : EncapsulationFrame → Bytes → Connection → Connection
  delivered frame rest c = deliver net accepts frame (record c { buffer = rest })

  -- The loop rests, or it handles the first frame.
  progress :
      (c : Connection)
      → ((fuel : ℕ) → drain net accepts fuel c ≡ c)
        ⊎ ((frame : EncapsulationFrame) × (rest : Bytes) × (is_running c.status ≡ true)
            × (next_frame c.buffer ≡ some (frame, rest)))
  progress c = elim (Bool-cases (is_running c.status)) [
    | inr e ↦ inl (λ fuel. drain_stopped fuel c e)
    | inl e ↦ elim (Option-cases (next_frame c.buffer)) [
      | inl n ↦ inl (λ fuel. drain_waiting fuel c n)
      | inr ((frame, rest), n) ↦ inr (frame, rest, e, n)
    ]
  ]

  -- With as much fuel as bytes, more fuel changes nothing.
  drain-fuel :
      (fuel other : ℕ) (c : Connection)
      → length c.buffer ≤ fuel
      → length c.buffer ≤ other
      → drain net accepts fuel c ≡ drain net accepts other c
  drain-fuel zero other c h k = elim (progress c) [
    | inl stays ↦ rw (stays zero, stays other) refl
    | inr (frame, rest, e, n) ↦ absurd (omega (arith, next_frame-shorter c.buffer frame rest n))
  ]
  drain-fuel (suc fuel) zero c h k = elim (progress c) [
    | inl stays ↦ rw (stays (suc fuel), stays zero) refl
    | inr (frame, rest, e, n) ↦ absurd (omega (arith, next_frame-shorter c.buffer frame rest n))
  ]
  drain-fuel (suc fuel) (suc other) c h k = elim (progress c) [
    | inl stays ↦ rw (stays (suc fuel), stays (suc other)) refl
    | inr (frame, rest, e, n) ↦
        let shorter = next_frame-shorter c.buffer frame rest n in
        let same = deliver-buffer frame (record c { buffer = rest }) in
        rw (drain_frame fuel c frame rest e n, drain_frame other c frame rest e n)
          (drain-fuel fuel other (delivered frame rest c) (rw same (omega arith))
            (rw same (omega arith)))
  ]

  -- What the loop does with further bytes.
  unfoldable pub resume : Bytes → Connection → Connection
  resume more c = drain net accepts (length c.buffer + length more) (pour more c)

  resume_rest :
      (fuel : ℕ) (more : Bytes) (c : Connection)
      → length c.buffer ≤ fuel
      → drain net accepts (fuel + length more) (pour more c) ≡ resume more c
  unfolding resume pour
  resume_rest fuel more c h =
      drain-fuel (fuel + length more) (length c.buffer + length more) (pour more c)
        (omega (arith, length-append c.buffer more)) (omega (arith, length-append c.buffer more))

  pour_frame :
      (fuel : ℕ) (more : Bytes) (c : Connection) (frame : EncapsulationFrame) (rest : Bytes)
      → is_running c.status ≡ true
      → next_frame c.buffer ≡ some (frame, rest)
      → drain net accepts (suc fuel + length more) (pour more c)
        ≡ drain net accepts (fuel + length more) (pour more (delivered frame rest c))
  unfolding pour
  pour_frame fuel more c frame rest e n =
      let step : suc fuel + length more ≡ suc (fuel + length more) = omega arith in
      rw
        (
          step,
          drain_frame (fuel + length more) (pour more c) frame (rest ++ more) e
              (next_frame-append c.buffer more frame rest n),
        )
        (rw⁻¹ (deliver-pour frame more (record c { buffer = rest })) refl)

  -- Bytes that arrive before the loop are handled as those that arrive behind it.
  pub drain-pour :
      (fuel : ℕ) (more : Bytes) (c : Connection)
      → length c.buffer ≤ fuel
      → drain net accepts (fuel + length more) (pour more c)
        ≡ resume more (drain net accepts fuel c)
  drain-pour zero more c h = elim (progress c) [
    | inl stays ↦ rw (stays zero) (resume_rest zero more c h)
    | inr (frame, rest, e, n) ↦ absurd (omega (arith, next_frame-shorter c.buffer frame rest n))
  ]
  drain-pour (suc fuel) more c h = elim (progress c) [
    | inl stays ↦ rw (stays (suc fuel)) (resume_rest (suc fuel) more c h)
    | inr (frame, rest, e, n) ↦
        let shorter = next_frame-shorter c.buffer frame rest n in
        let same = deliver-buffer frame (record c { buffer = rest }) in
        rw (drain_frame fuel c frame rest e n, pour_frame fuel more c frame rest e n)
          (drain-pour fuel more (delivered frame rest c) (rw same (omega arith)))
  ]

  -- The loop ends: with a byte of fuel for each byte of the buffer it stops because it was left, or
  -- because the buffer holds no whole frame.
  pub drain-rests :
      (fuel : ℕ) (c : Connection)
      → length c.buffer ≤ fuel
      → is_running (drain net accepts fuel c).status ≡ true
      → next_frame (drain net accepts fuel c).buffer ≡ none
  unfolding drain
  drain-rests zero c h e = next_frame_short c.buffer (omega arith)
  drain-rests (suc fuel) c h e = elim (Option-cases (next_frame c.buffer)) [
    | inl waits ↦ rw (drain_waiting (suc fuel) c waits) waits
    | inr ((frame, rest), n) ↦ elim (Bool-cases (is_running c.status)) [
      | inr stopped ↦ let same = drain_stopped (suc fuel) c stopped in absurd (cc)
      | inl r ↦
          let shorter = next_frame-shorter c.buffer frame rest n in
          let same = deliver-buffer frame (record c { buffer = rest }) in
          let goes = drain_frame fuel c frame rest r n in
          rw goes (drain-rests fuel (delivered frame rest c) (rw same (omega arith)) (rw goes at e))
    ]
  ]
