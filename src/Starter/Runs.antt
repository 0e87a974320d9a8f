-- ===== src/Starter/Runs.antt =====
-- The readiness probe and the monitor at the default emulator.
use cursus.Prelude.{◌≡◌, refl, some, true, false, [], ◌∷◌, arith, take, none, replicate}
use cursus.Wire.{ok, Bytes, byte, big_endian, pack_big}
use cursus.Bacnet.Objects.{init}
use cursus.Bacnet.Encode.{
  binary_digits, bit_length, to_bytes, encode_unsigned_value, encode_tag_header,
  pack_object_identifier, encode_application_object_identifier, encode_application_unsigned,
  encode_application_enumerated,
}
use cursus.Bacnet.Replies.{build_i_am_apdu}
use cursus.Bacnet.Server.{handle_datagram}
use cursus.Bacnet.Runs.{patterns, emulator}
use cursus.Starter.Probe.{who_is_request, response_is_i_am}
use cursus.Starter.Ready.{handle_datagram-probe}
use cursus.Wire.Texts.{text, text_eq}
use cursus.Starter.Names.{Unicode, is_ascii, lower_chars, lower, is_server_ready}
use cursus.Starter.Threads.{serving, loop_head, announced}
use cursus.Starter.Turns.{World, set_elem, run}
use cursus.Starter.Readiness.{monitor_turns, failing}
use cursus.Starter.Announced.{emulated, emulator_announced}

abbrev default_i_am : Bytes
default_i_am = 0x10 ∷ 0 ∷ 0xc4 ∷ 2 ∷ 0 ∷ 4 ∷ 210 ∷ 0x22 ∷ 5 ∷ 196 ∷ 0x91 ∷ 3 ∷ 0x22 ∷ 3 ∷ 231 ∷ []

default_i_am_built : build_i_am_apdu emulator.config.device ≡ ok default_i_am
unfolding init build_i_am_apdu encode_application_object_identifier encode_application_unsigned
    encode_application_enumerated pack_object_identifier encode_tag_header encode_unsigned_value
    to_bytes bit_length binary_digits byte big_endian pack_big
default_i_am_built = refl

handle_datagram-probe_example :
    (reply : Bytes) × (handle_datagram patterns who_is_request emulator
      ≡ (ok (some reply), emulator))
    × (response_is_i_am (take 1024 reply) ≡ true)
handle_datagram-probe_example =
    handle_datagram-probe patterns emulator default_i_am default_i_am_built (omega arith)

-- No text outside ASCII is looked at here.
abbrev ascii_only : Unicode
ascii_only = record { other_lower = λ t. t; other_capitalize = λ t. t }

abbrev watched : World
watched = record {
  starter = record {
    protocol = text "BACnet";
    port = 47808;
    delay = 1;
    server = some 0;
    server_thread = some 0;
    server_error = none;
    ready_event = false;
    ready_monitor_thread = some 0;
  };
  threads = serving 0 ∷ [];
  monitors = loop_head ∷ [];
  pending = [];
  answer = none;
}

emulator_announced_example :
    run
      (monitor_turns 0 (
        failing 2 (
          replicate 5
            (is_server_ready ascii_only (text "BACnet") (emulated patterns ascii_only emulator)))))
      watched
    ≡ record watched {
      starter = record watched.starter { ready_event = true };
      monitors = announced ∷ [];
    }
unfolding lower is_ascii lower_chars text_eq set_elem
emulator_announced_example =
    emulator_announced patterns ascii_only emulator default_i_am 2 0 0 watched default_i_am_built
      (omega arith) refl refl refl refl refl
