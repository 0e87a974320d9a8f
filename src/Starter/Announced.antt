-- ===== src/Starter/Announced.antt =====
-- The starter in front of the BACnet emulator: the monitor's probe, the emulator's answer and the
-- event.
use cursus.Prelude.{
  ℕ, ◌<◌, ◌≡◌, ap, ◌∙◌, Bool, true, Option, none, some, length, take, replicate, get_elem?,
}
use cursus.Wire.{Result, ok, raised, os_error, Bytes}
use cursus.Wire.Texts.{text, text_eq}
use cursus.Bacnet.Objects.{Floats, BacnetServer}
use cursus.Bacnet.Replies.{build_i_am_apdu}
use cursus.Bacnet.Server.{handle_datagram}
use cursus.Starter.Probe.{who_is_request}
use cursus.Starter.Ready.{handle_datagram-probe}
use cursus.Starter.Names.{Unicode, Endpoint, lower, is_server_ready, is_bacnet_server_ready}
use cursus.Starter.Threads.{thread_alive, loop_head, announced}
use cursus.Starter.Turns.{World, set_elem, run}
use cursus.Starter.Readiness.{monitor_turns, failing, monitor_sets_ready}

-- What `recvfrom(1024)` makes of an answer: without one it runs into its timeout, an OSError.
abbrev received : Result (Option Bytes) → Result Bytes
received (ok (some reply)) = ok (take 1024 reply)
received (ok none) = raised os_error
received (raised e) = raised os_error

module _ (fl : Floats) (unicode : Unicode) where
  open fl use {Float}

  -- The endpoint of the emulator, which has no TCP socket.
  abbrev pub emulated : BacnetServer Float → Endpoint
  emulated s = record {
    connection = raised os_error;
    response = received (handle_datagram fl who_is_request s).0;
  }

  is_bacnet_server_ready-emulated :
      (s : BacnetServer Float) (apdu : Bytes)
      → build_i_am_apdu s.config.device ≡ ok apdu
      → length apdu < 65530
      → is_bacnet_server_ready (emulated s) ≡ ok true
  unfolding is_bacnet_server_ready
  is_bacnet_server_ready-emulated s apdu built small =
      let (reply, answered, passes) = handle_datagram-probe fl s apdu built small in
      ap
        (λ (x : Result (Option Bytes) × BacnetServer Float).
          is_bacnet_server_ready (record { connection = raised os_error; response = received x.0 }))
        answered
      ∙ ap ok passes

  -- A starter for BACnet, spelled in any case, in front of an emulator whose I-Am can be built, in
  -- fewer than 65530 bytes; its monitor is at the head of its loop, the server thread is alive and the
  -- starter has no error: after any number of rounds in which the probe fails and one in which the
  -- emulator answers it, and nothing else in between, the event is set and the monitor has ended.
  pub emulator_announced :
      (s : BacnetServer Float) (apdu : Bytes) (n i t : ℕ) (w : World)
      → build_i_am_apdu s.config.device ≡ ok apdu
      → length apdu < 65530
      → text_eq (lower unicode w.starter.protocol) (text "bacnet") ≡ true
      → get_elem? w.monitors i ≡ some loop_head
      → w.starter.server_thread ≡ some t
      → thread_alive (get_elem? w.threads t) ≡ true
      → w.starter.server_error ≡ none
      → run
          (monitor_turns i
            (failing n (replicate 5 (is_server_ready unicode w.starter.protocol (emulated s)))))
          w
        ≡ record w {
          starter = record w.starter { ready_event = true };
          monitors = set_elem i announced w.monitors;
        }
  unfolding is_server_ready
  emulator_announced s apdu n i t w built small bacnet at watched alive sound =
      let probed : is_server_ready unicode w.starter.protocol (emulated s) ≡ ok true =
        simp bacnet (is_bacnet_server_ready-emulated s apdu built small) in
      ap (λ (r : Result Bool). run (monitor_turns i (failing n (replicate 5 r))) w) probed
      ∙ monitor_sets_ready n i t w at watched alive sound
