-- ===== src/Lib.antt =====
-- A model of solem_blip_ble, a BLE client for Solem BL-IP irrigation controllers.
--
-- The program. src/solem_blip_ble/protocol.py packs the frames that are written to a controller and
-- parses its notifications. station_names.py and snapshot.py, beside it, keep what was read as raw
-- bytes, to compare it, to patch it and to write it back. client_v2.py runs an operation over a fresh
-- connection, and client_persistent.py over one that it holds; both call the other three.
--
-- The files, each with its children:
--   Common          lists, integers, exceptions as values, UTF-8, dates and association lists
--   Protocol        protocol.py: Command (control commands), Status (status notifications), Metadata
--                   (names, firmware, set time), Program (normalisation of a program), Write (the
--                   frames of a write and its comparison), Config (assembly of a program read)
--   Names           station_names.py
--   Snapshot        snapshot.py: itself, Restore (write_frames and validate_expected_write, with
--                   Blocks, Expected and Agreement on what the latter compares) and Patch
--   Client          client_v2.py: Handlers and Transaction (the notification handlers and set_time),
--                   Attempt and Stateless (_run_operation), Drops (the drop hint and _start_notify),
--                   Polling (_wait_for_event), Session (what an operation hands to _write), Reading
--                   (the name read, with its override in client_persistent.py), NameListing
--                   (get_station_names), NameWriting (write_station_name), ConfigReading
--                   (get_irrigation_config and the readback of a program write), ProgramWriting
--                   (write_program_frames), ProgramSetting (set_irrigation_program), Commands
--                   (_execute_command and its callers) and Polls (get_status, get_firmware_version);
--                   client_persistent.py: Persistent and Routing
--   Tests           runs at concrete inputs
--
-- How the code is rendered. Bytes are lists of ℕ, Python's integers are ℤ where they may be negative,
-- texts are lists of code points. A function that raises returns a Result, whose Error has a
-- constructor for each kind of message. A dict is an association list in the order of insertion.
-- Python's clock, date.fromisoformat and SHA-256 are parameters. Functions keep the names of the code
-- without a leading underscore; the steps inside a long function have names of their own.
--
-- The executors take what the environment does to each attempt as data: whether the deadline has
-- passed at each test, whether the connection comes about, and how the race of operation, drop watcher
-- and deadline ends. They leave a trace of connections, disconnections and pauses. The loop of three
-- attempts is a list of three, so no fuel is used anywhere; every function is structurally recursive.
-- In Persistent a release stands in the trace where its task is scheduled.
--
-- A wait takes its turns as data: in each the notifications that arrive, the readings of the clock, and
-- whether the link has dropped. A wait whose turns run out has the outcome `waits`; the deadlines count
-- in the clock's units. A session is the list of the payloads handed to _write, with an outcome. What
-- raises in bleak or before an operation's first write is an exception among the data.
--
-- Protocol/Write/ReadBack assumes that a controller reports the seven frames of a program as they were
-- written, under the read command 0x3A and numbered from 6 down to 0. A report replaces a frame's
-- command and chunk number, so these are stated of the packed frames by themselves; the protocol
-- document does not fix the numbering of a report.
--
-- Not modelled: the calls of bleak behind a connection, connect, the mocks, the diagnostics of the
-- writes, logging, and the validation programs. A cancellation of an operation is modelled in the race
-- and in the sleep between attempts, but not while the operation waits for the session lock or
-- connects. A frame that a retry-safe run writes again stands once in its session.
pub mod Common
pub mod Protocol
pub mod Names
pub mod Snapshot
pub mod Client
pub mod Tests
