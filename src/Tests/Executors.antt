-- ===== src/Tests/Executors.antt =====
-- The operations and the executors of src/solem_blip_ble/client_v2.py and client_persistent.py.
use Prim.Native.Nat.{◌≤◌}
use solem_blip_ble.Client.Handlers.{handle_time, NameWrite}
use solem_blip_ble.Client.Persistent.Accounting.{
  IsClean, IsReleased, IsAccounted, run_operation-IsAccounted, run_operation_loses_client,
  run_operation_connects_once,
}
use solem_blip_ble.Client.Transaction.{read_status, set_time_op, done}
use solem_blip_ble.Protocol.Metadata.{parse_set_time_reply}
use solem_blip_ble.Protocol.Status.{
  active_station, is_watering_status, on_status, parse_active_program, parse_controller_off_state,
  parse_status_notification,
}
use solem_blip_ble.Common.{
  suc, ◌+◌, ◌≤◌, ◌≡◌, refl, ◌≢◌, ◌⊎◌, true, false, none, some, [], ◌∷◌, arith, Bytes,
}
use solem_blip_ble.Protocol.Command.{pack_commit}
use solem_blip_ble.Client.Attempt.{
  returned, timed_out, Attempt, deadline_exceeded, connect, connections, disconnections,
}
use solem_blip_ble.Client.Transaction.Written.{
  WasIdle, Accepted, replied, Verified, set_time_op-done, set_time_op-WasIdle,
}
use solem_blip_ble.Client.Stateless.{Link}
use solem_blip_ble.Client.Stateless.Closing.{
  IsSettled, run_operation-IsSettled, run_operation_unsafe, run_operation_connects,
}
use solem_blip_ble.Client.Persistent.{Session}
use solem_blip_ble.Client.Routing.{Routing, start_notify, dispatch_notification}
use solem_blip_ble.Client.Routing.Swap.{start_notify_swaps}
use solem_blip_ble.Client.Stateless
use solem_blip_ble.Client.Persistent

abbrev fails : Attempt
fails = record {
  expired_before = false;
  held_is_connected = true;
  connects = true;
  expired_on_connect = false;
  race = timed_out;
  expired_after = false;
  pause_cancelled = false;
}

abbrev works : Attempt
works = record fails { race = returned }

abbrev unreachable : Attempt
unreachable = record fails { connects = false }

abbrev too_late : Attempt
too_late = record fails { expired_on_connect = true }

abbrev closed_link : Link
closed_link = record { active_client = none; link_dropped = false; next_client = 0; trace = [] }

abbrev fresh : Session
fresh = record {
  active_client = none;
  link_dropped = false;
  session_generation = 0;
  subscribed = none;
  handler = false;
  idle_release = true;
  idle_armed = false;
  next_client = 0;
  trace = [];
}

run_operation-IsSettled_example :
    IsSettled (Stateless.run_operation false true fails works fails closed_link).1
unfolding IsSettled connections disconnections
run_operation-IsSettled_example =
    run_operation-IsSettled false true fails works fails closed_link (refl, refl)

run_operation_unsafe_example :
    (connections (Stateless.run_operation false false fails works fails closed_link).1.trace
      ≤ 1 + connections closed_link.trace)
    × (Stateless.run_operation false false fails works fails closed_link
        ≡ Stateless.run_operation false false fails too_late works closed_link)
run_operation_unsafe_example =
    run_operation_unsafe false fails works fails too_late works closed_link

run_operation_connects_example :
    connections (Stateless.run_operation false true fails fails fails closed_link).1.trace
    ≤ 3 + connections closed_link.trace
run_operation_connects_example = run_operation_connects false true fails fails fails closed_link

run_operation-IsAccounted_example :
    IsAccounted (Persistent.run_operation false true fails works fails fresh).1
unfolding IsClean IsAccounted disconnections connections
run_operation-IsAccounted_example =
    run_operation-IsAccounted false true fails works fails fresh refl (refl, refl) (refl, refl)
      (refl, refl) refl

run_operation_loses_client_example :
    ((Persistent.run_operation false true too_late works fails fresh).1.active_client ≡ none)
    × (connections (Persistent.run_operation false true too_late works fails fresh).1.trace
        ≡ suc (
            disconnections
              (Persistent.run_operation false true too_late works fails fresh).1.trace))
unfolding IsReleased disconnections connections
run_operation_loses_client_example =
    run_operation_loses_client true too_late works fails fresh (refl, refl) refl refl refl

-- A client is held, and its link has dropped.
abbrev stale : Session
stale = record fresh {
  active_client = some 0;
  link_dropped = true;
  next_client = 1;
  trace = connect 0 ∷ [];
}

run_operation_connects_once_example :
    ((Persistent.run_operation false true unreachable works fails stale).0 ≡ deadline_exceeded)
    × (connections (Persistent.run_operation false true unreachable works fails stale).1.trace
        ≡ connections stale.trace)
    × (Persistent.run_operation false true unreachable works fails stale
        ≡ Persistent.run_operation false true unreachable fails works stale)
unfolding Persistent.is_reused
run_operation_connects_once_example =
    run_operation_connects_once true unreachable works fails fails works stale refl refl

abbrev routed : Routing
routed = record {
  dispatch_client = some 4;
  active_handler = none;
  straggler_drop_until = 0;
  cccd_writes = 4 ∷ [];
}

start_notify_swaps_example :
    ((start_notify 300 1000 true true 4 7 routed).cccd_writes ≡ 4 ∷ [])
    × (dispatch_notification 1299 (start_notify 300 1000 true true 4 7 routed) ≡ none)
    × (dispatch_notification 1300 (start_notify 300 1000 true true 4 7 routed) ≡ some 7)
start_notify_swaps_example =
    start_notify_swaps 300 1000 1299 1300 4 7 true routed refl (omega arith) (omega arith)

abbrev writing : NameWrite
writing = record {
  reading = false;
  acknowledged = false;
  rejected = false;
  expected_header = some (0x34 ∷ 0x12 ∷ 0x00 ∷ 0x02 ∷ []);
  read_frames = [];
  last_reply_header = [];
  last_reply_length = 0;
}

-- On, with no station and no program.
abbrev idle_frame : Bytes
idle_frame =
    0x32 ∷ 0x10 ∷ 0x02 ∷ 0x40 ∷ 0x00 ∷ 0x00 ∷ 0x00 ∷ 0x00 ∷ 0x00 ∷ 0x52 ∷ 0x00 ∷ 0x00 ∷ 0x00 ∷ 0x00
    ∷ 0x00 ∷ 0x00 ∷ 0x00 ∷ 0x00 ∷ []

abbrev time_payload : Bytes
time_payload = 0x03 ∷ 0x06 ∷ 0x00 ∷ 0x18 ∷ 0x06 ∷ 0x06 ∷ 0x08 ∷ 0x1E ∷ 0x00 ∷ []

abbrev time_reply : Bytes
time_reply = 0x04 ∷ 0x00 ∷ []

time_set :
    (set_time_op 6 time_payload (idle_frame ∷ []) (time_reply ∷ []) (idle_frame ∷ [])).0 ≡ done
unfolding set_time_op read_status handle_time parse_status_notification parse_controller_off_state
    on_status active_station is_watering_status parse_active_program parse_set_time_reply
time_set = refl

set_time_op-done_example :
    ((set_time_op 6 time_payload (idle_frame ∷ []) (time_reply ∷ []) (idle_frame ∷ [])).1
      ≡ pack_commit ∷ time_payload ∷ pack_commit ∷ [])
    × WasIdle 6 (idle_frame ∷ [])
    × ((replied 6 (idle_frame ∷ []) (time_reply ∷ [])).reply_event ≡ true)
    × ((replied 6 (idle_frame ∷ []) (time_reply ∷ [])).reply_acknowledged ≢ some false)
    × (Accepted 6 (idle_frame ∷ []) ⊎ Accepted 6 (time_reply ∷ []))
    × Verified 6 (idle_frame ∷ [])
set_time_op-done_example =
    set_time_op-done 6 time_payload (idle_frame ∷ []) (time_reply ∷ []) (idle_frame ∷ []) time_set

payload_out : (set_time_op 6 time_payload (idle_frame ∷ []) [] []).1 ≢ pack_commit ∷ []
unfolding set_time_op read_status handle_time parse_status_notification parse_controller_off_state
    on_status active_station is_watering_status parse_active_program parse_set_time_reply
payload_out = λ h. cc

set_time_op-WasIdle_example : WasIdle 6 (idle_frame ∷ [])
set_time_op-WasIdle_example = set_time_op-WasIdle 6 time_payload (idle_frame ∷ []) [] [] payload_out
