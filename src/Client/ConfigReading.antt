-- ===== src/Client/ConfigReading.antt =====
-- The configuration reads of src/solem_blip_ble/client_v2.py: the operation of
-- `get_irrigation_config`, and `read_snapshot` of `write_program_frames`.
pub mod Complete
use solem_blip_ble.Common.{
  ℕ, ◌+◌, ◌-◌, ◌/◌, ◌%◌, Bytes, at, length, List, [], ◌∷◌, ◌++◌, Bool, true, false, not, ◌&&◌,
  Option, none, some, leb, ◌==◌, if◌then◌else◌, Result, ok, err, Error, out_of_range,
}
use solem_blip_ble.Protocol.Config.{
  normalize_config_notification, irrigation_config_complete, pack_get_irrigation_config,
}
use solem_blip_ble.Snapshot.{ProgramSnapshot, from_frames}
use solem_blip_ble.Client.Polling.{
  Exception, connection_error, invalid_snapshot, drop_detected, backend_error, Outcome, returns,
  raises, waits, Turned, stops, goes_on, bind,
}
use solem_blip_ble.Client.Session.{Session}

abbrev pub irrigation_config_read_response : ℕ
irrigation_config_read_response = 0x3A

-- A program frame of class 1 that answers a read: the echo of a write does not.
unfoldable pub is_read_response : Bytes → Bool
is_read_response frame = elim (normalize_config_notification frame) [
  | none ↦ false
  | some normalized ↦
      at normalized 3 / 16 == 1 && at normalized 0 == irrigation_config_read_response
]

-- A notification with the clock in its handler.
pub record Arrival : Type 0 where
  pub received : ℕ
  pub frame : Bytes

-- `payloads` and `last_fragment_at`.
pub record ConfigRead : Type 0 where
  pub payloads : List Bytes
  pub last_fragment_at : Option ℕ

-- The notification handler.
unfoldable pub handle_config : ConfigRead → Arrival → ConfigRead
unfolding is_read_response
handle_config s arrival =
    if is_read_response arrival.frame
    then record {
      payloads = s.payloads ++ (arrival.frame ∷ []);
      last_fragment_at = some arrival.received;
    }
    else s

unfoldable pub handle_arrivals : ConfigRead → List Arrival → ConfigRead
handle_arrivals s [] = s
handle_arrivals s (arrival ∷ rest) = handle_arrivals (handle_config s arrival) rest

-- One turn of a read: the notifications since the turn before, the clock, and whether `_check_drop`
-- raises.
pub record ConfigTurn : Type 0 where
  pub arrived : List Arrival
  pub now : ℕ
  pub dropped : Bool

-- IRRIGATION_CONFIG_IDLE_TIMEOUT, and the deadline of the stage.
pub record ConfigLimits : Type 0 where
  pub idle : ℕ
  pub deadline : ℕ

-- `last_fragment_at is not None and now - last_fragment_at >= idle`
unfoldable pub is_quiet : ℕ → ℕ → Option ℕ → Bool
is_quiet idle now none = false
is_quiet idle now (some last) = leb (last + idle) now

-- The tests that both loops make of a state.
unfoldable pub config_turn : ConfigLimits → ConfigTurn → ConfigRead → Turned ConfigRead ConfigRead
unfolding is_quiet
config_turn limits turn s =
    if irrigation_config_complete s.payloads 3 && is_quiet limits.idle turn.now s.last_fragment_at
    then stops (returns s)
    else if leb limits.deadline turn.now
    then (if irrigation_config_complete s.payloads 3
        then stops (returns s)
        else stops (raises connection_error))
    else if turn.dropped
    then stops (raises drop_detected)
    else goes_on s

-- `_wait_for_irrigation_config`
unfoldable pub wait_for_config : ConfigLimits → List ConfigTurn → ConfigRead → Outcome ConfigRead
unfolding config_turn
wait_for_config limits [] s = waits
wait_for_config limits (turn ∷ turns) s =
    elim (config_turn limits turn (handle_arrivals s turn.arrived)) [
      | stops outcome ↦ outcome
      | goes_on s' ↦ wait_for_config limits turns s'
    ]

-- Every error of `from_frames` but the IndexError and struct.error is an InvalidSnapshot.
abbrev pub error_class : Error → Exception
error_class out_of_range = backend_error
error_class e = invalid_snapshot

unfoldable pub parsed_snapshot : List Bytes → Outcome ProgramSnapshot
parsed_snapshot payloads = elim (from_frames payloads) [
  | ok snapshot ↦ returns snapshot
  | err e ↦ raises (error_class e)
]

-- What a read meets: the exception before its request or in it, if there is one, the notifications
-- before the first turn, the clock behind the write, whose readings are taken as one, and the turns.
pub record ConfigCall : Type 0 where
  pub write_raises : Option Exception
  pub answered : List Arrival
  pub started : ℕ
  pub turns : List ConfigTurn

-- The operation of `get_irrigation_config`. The completeness is tested again behind the wait.
unfoldable pub get_irrigation_config : ℕ → ℕ → ConfigCall → Outcome ProgramSnapshot
unfolding wait_for_config
get_irrigation_config idle timeout call = elim call.write_raises [
  | some e ↦ raises e
  | none ↦
      bind
        (wait_for_config (record { idle = idle; deadline = call.started + timeout }) call.turns
          (handle_arrivals (record { payloads = []; last_fragment_at = none }) call.answered))
        (λ s.
          if irrigation_config_complete s.payloads 3
          then parsed_snapshot s.payloads
          else raises connection_error)
]

-- `read_snapshot` keeps the count of the last turn that saw new frames, none for -1, and takes its
-- clock for `last_fragment_at`.
pub record SnapshotRead : Type 0 where
  pub read : ConfigRead
  pub previous_count : Option ℕ

unfoldable pub same_count : Option ℕ → ℕ → Bool
same_count none n = false
same_count (some c) n = c == n

-- The handler in the phase "readback" keeps the payload only.
unfoldable pub collect_payloads : List Bytes → List Arrival → List Bytes
collect_payloads payloads [] = payloads
collect_payloads payloads (arrival ∷ rest) =
    collect_payloads
      (if is_read_response arrival.frame then payloads ++ (arrival.frame ∷ []) else payloads) rest

unfoldable pub notice : ℕ → List Bytes → SnapshotRead → SnapshotRead
unfolding same_count
notice now payloads s =
    if same_count s.previous_count (length payloads)
    then record s {
      read = record { payloads = payloads; last_fragment_at = s.read.last_fragment_at };
    }
    else record {
      read = record { payloads = payloads; last_fragment_at = some now };
      previous_count = some (length payloads);
    }

unfoldable pub read_snapshot_turns :
    ConfigLimits → List ConfigTurn → SnapshotRead → Outcome ProgramSnapshot
unfolding config_turn notice collect_payloads
read_snapshot_turns limits [] s = waits
read_snapshot_turns limits (turn ∷ turns) s =
    let s' = notice turn.now (collect_payloads s.read.payloads turn.arrived) s in
    elim (config_turn limits turn s'.read) [
      | stops outcome ↦ bind outcome (λ read. parsed_snapshot read.payloads)
      | goes_on read ↦ read_snapshot_turns limits turns s'
    ]

unfoldable pub read_snapshot : ℕ → ℕ → ConfigCall → Session ProgramSnapshot
unfolding read_snapshot_turns
read_snapshot idle timeout call = record {
  sent = pack_get_irrigation_config ∷ [];
  outcome = elim call.write_raises [
    | some e ↦ raises e
    | none ↦
        read_snapshot_turns (record { idle = idle; deadline = call.started + timeout }) call.turns
          (record {
            read = record {
              payloads = collect_payloads [] call.answered;
              last_fragment_at = some call.started;
            };
            previous_count = none;
          })
  ];
}
