-- ===== src/Lib.antt =====
-- CursusD: emulators of industrial protocols that a client talks to as it would to a device. The
-- program has one server per protocol and a starter that runs one of them in a thread and waits
-- until its port answers. This library models the two servers that the program implements itself
-- from the bytes on, the life of those that wrap another implementation, and the starter.
--
-- BACnet/IP, src/cursus/bacnet/server.py. `BacnetServer.handle_datagram` takes one UDP datagram and
-- returns the reply or none. Its state is the record `BacnetServer` (Bacnet/Objects); a method that
-- writes or raises is an action `Exec` that keeps the object beside its result (Bacnet/Server).
-- Bacnet/Socket has the steps of a datagram's thread, `start` and `stop`; Bacnet/Answered is about the
-- replies that the threads send.
--
-- EtherNet/IP, src/cursus/enip/server.py. `_EnipRequestHandler.handle` reads a TCP stream, cuts it
-- into frames and gives each to `EnipServer.handle_frame` with the set of the connection's sessions
-- (Enip/Connection, Enip/Server); Enip/System has all connections as a step relation, Enip/Memory the
-- abstract view of the assemblies, Enip/Socket `start` and `stop`.
--
-- Serving has what both share: a threading socketserver that is kept while `serve_forever` runs, and
-- whose handler threads take their steps in any order.
--
-- DNP3, src/cursus/dnp3. Dnp3/Docker is docker_server.py: the service and the runs of `docker
-- compose`. Dnp3/Container is what assets/docker-compose.dnp3.yml and assets/run_server.py make of
-- the environment, Dnp3/Outstation is outstation_server.py, and Dnp3/Runtime server.py, which chooses
-- between the two.
--
-- Modbus, src/cursus/mbtcp/server.py (Mbtcp), and S7comm, src/cursus/s7comm/server.py (S7comm): the
-- data that is handed to pymodbus and snap7, `start` and `stop`.
--
-- The starter, src/cursus/starter.py. Starter/Names has the module and class names and the choice of
-- the probe, Starter/Probe the BACnet probe; Starter/Ready and Starter/Announced are about the probe
-- and the monitor in front of the emulator, Starter/DockerReady about those in front of `Dnp3Server`.
-- Starter/Threads has `Starter` with the steps of a server thread (`_run_server`), of a monitor
-- (`_monitor_server_readiness`) and of the calling thread, whose `start_server` and `stop_server` are
-- lists of instructions; Starter/Turns runs any list of turns of all threads. What holds of all such
-- lists is in Starter/Linked, Starter/Effects, Starter/Causes, Starter/History, Starter/FirstThread,
-- Starter/Early and Starter/Over.
--
-- Prelude has the shared lists, tests, dictionaries and sets of integers; Wire has exceptions
-- (`Result`), `bytes` and `struct`, slices, texts and their decimal numbers, and the rules for
-- actions.
--
-- Bounds. Bytes are natural numbers, integers are Python's and have no width; `struct.pack` raises
-- where a value does not fit its field, and `bytes([x])` where x is not below 256. `path_loop` has
-- the length of the path as fuel, since each round reads a byte at least; `drain` has the length of
-- the buffer, since each frame takes 24 bytes at least; `binary_digits` and `decimal_loop` have the
-- number itself. A loop that waits takes a list of what happens meanwhile, and is still in the loop
-- when the list ends.
--
-- Parameters: Python's floats with `struct.pack(">f")` (`Floats`), `socket.inet_aton` (`Sockets`),
-- what `recv` returns and which responses `sendall` accepts, `subprocess.run`, `docker compose`'s
-- substitution of variables (`Substitution`), `int()` of texts that are not rows of digits, `str.lower`
-- and `str.capitalize` outside ASCII (`Unicode`), and what socketserver, asyncio with pymodbus, snap7
-- and pydnp3 make of each call. A call of these is recorded, also one that raises. A builder of pydnp3
-- and its `Apply` are one call.
--
-- Not modelled: logging; locks, since each method that takes one is a single step; what two threads
-- interleave inside `handle_frame` or `handle_datagram`, and inside the `stop` of a server; the
-- handler threads that outlive `serve_forever`; calls of `start_server` and `stop_server` of one
-- starter from several threads; values of the configurations that are negative.
pub mod Prelude
pub mod Wire
pub mod Bacnet
pub mod Enip
pub mod Dnp3
pub mod Mbtcp
pub mod S7comm
pub mod Serving
pub mod Starter
