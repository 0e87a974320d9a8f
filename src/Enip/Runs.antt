-- ===== src/Enip/Runs.antt =====
-- Runs of the EtherNet/IP emulator at concrete frames, and its theorems at concrete inputs.
use cursus.Prelude.{
  subst, ◌≡◌, refl, none, some, List, [], ◌∷◌, ◌++◌, arith, All, length, true, false, Bool,
}
use cursus.Enip.Assemblies.{assembly_request, found_status, get-set}
use cursus.Enip.Guards.{IsSameDevice, handle_frame-IsSameDevice, handle_frame-inactive}
use cursus.Enip.Responses.{next_frame-build}
use cursus.Enip.Stream.{outcome, outcome-chunks, receive_all_rests}
use cursus.Enip.Connection.{
  send, send_reply, finish_frame, deliver, drain, receive, chunk, opened, receive_all, is_running,
}
use cursus.Enip.Encapsulation.{register_request_is_valid, next_frame, build_encapsulation_response}
use cursus.Enip.Identity.{pack_fields}
use cursus.Enip.CipService.{handle_cip_request}
use cursus.Prelude.Dict.{lookup, has_key}
use cursus.Prelude.{if◌then◌else◌, ◌==◌, ◌&&◌}
use cursus.Prelude.IntSet.{add, member}
use cursus.Wire.{
  from_little, little_endian, pack_little, index, Error, Result, ok, raised, value_error, os_error,
  Bytes, Text, IsByte,
}
use cursus.Enip.Objects.{pack_string, unpack_from, EncapsulationFrame, EnipServer, Sockets, init}
use cursus.Enip.Path.{read_path_value, path_round, path_loop, parse_cip_path}
use cursus.Enip.PathTermination.{parse_cip_path_raises}
use cursus.Enip.Server.{
  open_session, handle_register_session, Attached, handle_frame, release_sessions,
}
use cursus.Enip.System.{
  System, connect, receive_frame, disconnect, Reach, here, next, IsConsistent, started,
  Reach-IsConsistent, no_session_left,
}

-- A resolver that gives 127.0.0.1 for every text.
abbrev loopback : Text → Result Bytes
loopback address = ok (127 ∷ 0 ∷ 0 ∷ 1 ∷ [])

loopback_width : (address : Text) (bs : Bytes) → loopback address ≡ ok bs → length bs ≡ 4
loopback_width address bs h = ground arith

loopback_bytes : (address : Text) (bs : Bytes) → loopback address ≡ ok bs → All IsByte bs
loopback_bytes address bs h =
    let e : ◌≡◌ {A = Bytes} (127 ∷ 0 ∷ 0 ∷ 1 ∷ []) bs = ground arith in
    subst (All IsByte) e (omega arith, (omega arith, (omega arith, (omega arith, tt))))

loopback_error : (address : Text) (e : Error) → loopback address ≡ raised e → e ≡ os_error
loopback_error address e h = ground arith

abbrev sockets : Sockets
sockets = record {
  inet_aton = loopback;
  inet_aton_width = loopback_width;
  inet_aton_bytes = loopback_bytes;
  inet_aton_error = loopback_error;
}

abbrev emulator : EnipServer
emulator = init (127 ∷ []) 44818 none

-- RegisterSession with version 1 and no flags.
abbrev register : EncapsulationFrame
register = record {
  command = 0x65;
  session_handle = 0;
  sender_context = [];
  options = 0;
  payload = 1 ∷ 0 ∷ 0 ∷ 0 ∷ [];
}

-- A path that ends inside a segment.
bad_path_run : parse_cip_path (0x20 ∷ []) ≡ raised value_error
unfolding parse_cip_path path_loop path_round read_path_value index
bad_path_run = refl

parse_cip_path_raises_example : value_error ≡ value_error
parse_cip_path_raises_example = parse_cip_path_raises (0x20 ∷ []) value_error bad_path_run

abbrev registered : Attached
registered = (handle_frame sockets register (record { server = emulator; sessions = [] })).1

abbrev end : System
end = record { server = release_sessions registered.sessions registered.server; connections = [] }

-- A client connects and registers, and its connection ends.
one_client : Reach sockets (started sockets (127 ∷ []) 44818 none) end
one_client =
    next (next (next here (connect emulator [])) (receive_frame emulator [] [] [] register))
      (disconnect registered.server [] registered.sessions [])

Reach-IsConsistent_example : IsConsistent end
Reach-IsConsistent_example = Reach-IsConsistent sockets (127 ∷ []) 44818 none one_client

no_session_left_example : member 1 end.server.active_sessions ≡ false
no_session_left_example = no_session_left sockets (127 ∷ []) 44818 none 1 one_client refl

-- The bytes of the same frame, in two parts.
abbrev register_head : Bytes
register_head = 0x65 ∷ 0 ∷ 4 ∷ 0 ∷ 0 ∷ 0 ∷ 0 ∷ 0 ∷ 0 ∷ 0 ∷ 0 ∷ 0 ∷ []

abbrev register_tail : Bytes
register_tail = 1 ∷ 2 ∷ 3 ∷ 4 ∷ 5 ∷ 6 ∷ 7 ∷ 8 ∷ 0 ∷ 0 ∷ 0 ∷ 0 ∷ 1 ∷ 0 ∷ 0 ∷ 0 ∷ []

-- A peer that accepts every response.
abbrev accepts_all : List Bytes → Bytes → Bool
accepts_all sent response = true

-- What the server sends to a client that registers in two chunks.
register_run :
    (receive_all sockets accepts_all
      (chunk register_head ∷ chunk register_tail ∷ [])
      (opened sockets accepts_all emulator)).sent
    ≡ (0x65 ∷ 0 ∷ 4 ∷ 0 ∷ 1 ∷ 0 ∷ 0 ∷ 0 ∷ 0 ∷ 0 ∷ 0 ∷ 0 ∷ 1 ∷ 2 ∷ 3 ∷ 4 ∷ 5 ∷ 6 ∷ 7 ∷ 8 ∷ 0 ∷ 0 ∷ 0
        ∷ 0 ∷ 1 ∷ 0 ∷ 0 ∷ 0 ∷ [])
      ∷ []
unfolding receive_all receive drain deliver finish_frame send_reply send handle_frame
    handle_register_session register_request_is_valid unpack_from open_session
    build_encapsulation_response pack_fields pack_little little_endian from_little pack_string add
    next_frame init
register_run = refl

still_running :
    is_running
      (receive_all sockets accepts_all
        (chunk register_head ∷ chunk register_tail ∷ [])
        (opened sockets accepts_all emulator)).status
    ≡ true
unfolding receive_all receive drain deliver finish_frame send_reply send handle_frame
    handle_register_session register_request_is_valid unpack_from open_session
    build_encapsulation_response pack_fields pack_little little_endian from_little pack_string add
    next_frame init
still_running = refl

receive_all_rests_example :
    next_frame
      (receive_all sockets accepts_all
        (chunk register_head ∷ chunk register_tail ∷ [])
        (opened sockets accepts_all emulator)).buffer
    ≡ none
receive_all_rests_example =
    receive_all_rests sockets accepts_all emulator (chunk register_head ∷ chunk register_tail ∷ [])
      still_running

outcome-chunks_example :
    outcome sockets accepts_all (chunk register_head ∷ chunk register_tail ∷ []) emulator
    ≡ outcome sockets accepts_all (chunk (register_head ++ register_tail) ∷ []) emulator
outcome-chunks_example =
    outcome-chunks sockets accepts_all emulator register_head (register_head ++ register_tail)
      (register_tail ∷ []) [] [] (omega arith, (omega arith, tt)) (omega arith, tt) refl

handle_frame-IsSameDevice_example : IsSameDevice emulator registered.server
handle_frame-IsSameDevice_example =
    handle_frame-IsSameDevice sockets register (record { server = emulator; sessions = [] })

-- A SendRRData of a client that has not registered.
abbrev unregistered : EncapsulationFrame
unregistered = record {
  command = 0x6f;
  session_handle = 7;
  sender_context = [];
  options = 0;
  payload = 0 ∷ 0 ∷ 0 ∷ 0 ∷ 0 ∷ 0 ∷ 1 ∷ 0 ∷ 0xb2 ∷ 0 ∷ 9 ∷ 0 ∷ assembly_request 0x10 100 (1 ∷ []);
}

no_session : member 7 emulator.active_sessions ≡ false
unfolding init member
no_session = refl

handle_frame-inactive_example :
    (handle_frame sockets unregistered
      (record { server = emulator; sessions = [] })).1.server.assemblies
    ≡ emulator.assemblies
handle_frame-inactive_example = handle_frame-inactive emulator sockets unregistered [] no_session

get-set_example :
    (let (reply, s') = handle_cip_request (assembly_request 0x10 100 (1 ∷ 2 ∷ [])) emulator in
      (reply ≡ ok (0x90 ∷ 0x00 ∷ found_status (lookup 100 emulator.assemblies) ∷ 0x00 ∷ []))
      × ((handle_cip_request (assembly_request 0x0e 100 []) s').0 ≡ (
          if 100 == 100 && has_key 100 emulator.assemblies
          then ok (0x8e ∷ 0x00 ∷ 0x00 ∷ 0x00 ∷ 1 ∷ 2 ∷ [])
          else (handle_cip_request (assembly_request 0x0e 100 []) emulator).0)))
get-set_example = get-set 100 100 (1 ∷ 2 ∷ []) emulator

next_frame-build_example :
    (response : Bytes) × (build_encapsulation_response 0x65 1
        (1 ∷ 2 ∷ 3 ∷ 4 ∷ 5 ∷ 6 ∷ 7 ∷ 8 ∷ [])
        (1 ∷ 0 ∷ 0 ∷ 0 ∷ [])
        0
      ≡ ok response)
    × (next_frame (response ++ 0x66 ∷ [])
        ≡ some (
          record {
            command = 0x65;
            session_handle = 1;
            sender_context = 1 ∷ 2 ∷ 3 ∷ 4 ∷ 5 ∷ 6 ∷ 7 ∷ 8 ∷ [];
            options = 0;
            payload = 1 ∷ 0 ∷ 0 ∷ 0 ∷ [];
          },
          0x66 ∷ [],
        ))
next_frame-build_example =
    next_frame-build 0x65 1 0 (1 ∷ 2 ∷ 3 ∷ 4 ∷ 5 ∷ 6 ∷ 7 ∷ 8 ∷ []) (1 ∷ 0 ∷ 0 ∷ 0 ∷ []) (0x66 ∷ [])
      (omega arith) (omega arith) (omega arith) refl (omega arith)
