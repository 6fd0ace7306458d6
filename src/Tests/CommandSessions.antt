-- ===== src/Tests/CommandSessions.antt =====
-- Manual commands and status polls of src/solem_blip_ble/client_v2.py.
use solem_blip_ble.Client.Polls.{on_poll, settle, awaits_remaining, StatusLink, get_status}
use solem_blip_ble.Client.Handlers.{
  handle_status, add_late_remaining, late_remaining, handle_command,
}
use solem_blip_ble.Protocol.Status.{
  on_status, is_watering_status, level_from, battery_level_9v, parse_battery_9v, first_valid,
  remaining_candidates, parse_remaining_seconds, parse_watering_origin, parse_active_program,
  parse_controller_off_state, parse_intermediate_remaining, off_status, active_station,
  watering_origin_of, is_command_notification, SolemStatus, parse_status_notification,
  valid_remaining, parse_int3, mock_status,
}
use solem_blip_ble.Client.Commands.{
  on_command, send_command, CommandLink, execute_command, sprinkle_station_x_for_y_minutes,
}
use solem_blip_ble.Client.Session.{unless_raised, and_then, write_and_wait, PartWait}
use solem_blip_ble.Client.Polling.{handle_all, wait_turn, wait_for_event, returns}
use solem_blip_ble.Common.Lists.{list_eq}
use solem_blip_ble.Common.{
  ◌≡◌, refl, Option, some, none, true, List, [], ◌∷◌, ◌++◌, ◌*◌, Bytes, at, pos, InRange, ok,
  replicate,
}
use solem_blip_ble.Protocol.Command.{pack_commit}
use solem_blip_ble.Client.Handlers.Acknowledged.{any_frame}
use solem_blip_ble.Client.Session.Heard.{part_frames}
use solem_blip_ble.Client.Commands.Answered.{
  is_response, IsLastStatus, status_in, execute_command-IsLastStatus, sprinkle_station_sent,
}
use solem_blip_ble.Client.Polls.Heard.{IsReported, get_status-IsReported}
use solem_blip_ble.Tests.Commands.{running_frame, station_three, station_three_packed}

-- Station 3 waters; its remaining time is missing.
abbrev timeless_frame : Bytes
timeless_frame =
    0x32 ∷ 0x10 ∷ 0x02 ∷ 0x42 ∷ 0x00 ∷ 0x00 ∷ 0x00 ∷ 0x00 ∷ 0x00 ∷ 0x03 ∷ 0x00 ∷ 0x00 ∷ 0x00 ∷ 0x00
    ∷ 0x00 ∷ 0x00 ∷ 0x00 ∷ 0x00 ∷ []

-- 600 seconds for station 3.
abbrev time_frame : Bytes
time_frame = 0x32 ∷ 0x10 ∷ 0x01 ∷ 0x00 ∷ 0x02 ∷ 0x58 ∷ replicate 12 0x00

abbrev response_frame : Bytes
response_frame = 0x32 ∷ 0x10 ∷ 0x00 ∷ replicate 15 0x00

abbrev or_mock : Option SolemStatus → SolemStatus
or_mock none = mock_status
or_mock (some status) = status

abbrev answers : List Bytes → PartWait
answers frames = record { write_raises = none; answered = frames; started = 0; turns = [] }

abbrev command_link : CommandLink
command_link = record {
  subscribed = none;
  command_raises = none;
  answered = timeless_frame ∷ [];
  commit = answers (running_frame ∷ response_frame ∷ []);
}

abbrev running_status : Option SolemStatus
running_status = status_in (parse_status_notification running_frame 6)

command_returned :
    (execute_command 6 20 command_link station_three).outcome ≡ returns running_status
unfolding on_command send_command execute_command handle_command is_watering_status level_from
    battery_level_9v parse_battery_9v parse_int3 valid_remaining first_valid remaining_candidates
    parse_remaining_seconds parse_watering_origin parse_active_program parse_controller_off_state
    parse_intermediate_remaining off_status active_station watering_origin_of on_status
    parse_status_notification is_command_notification mock_status unless_raised and_then
    write_and_wait handle_all wait_turn wait_for_event list_eq
command_returned = refl

execute_command-IsLastStatus_example :
    ((execute_command 6 20 command_link station_three).sent ≡ station_three ∷ pack_commit ∷ [])
    × (heard : List Bytes) × (later : List Bytes) × ((timeless_frame ∷ [])
          ++ part_frames (answers (running_frame ∷ response_frame ∷ []))
        ≡ heard ++ later)
    × (any_frame (is_response 6) heard ≡ true)
    × IsLastStatus 6 heard running_status
execute_command-IsLastStatus_example =
    execute_command-IsLastStatus 6 20 command_link station_three running_status command_returned

sprinkled :
    sprinkle_station_x_for_y_minutes 6 20 command_link (pos 3) (pos 10)
    ≡ ok (execute_command 6 20 command_link station_three)
unfolding sprinkle_station_x_for_y_minutes
sprinkled = rw station_three_packed refl

sprinkle_station_sent_example :
    InRange 1 (pos 3) 8
    × InRange 1 (pos 10) 240
    × (command : Bytes) × ((execute_command 6 20 command_link station_three).sent
        ≡ command ∷ pack_commit ∷ [])
    × (at command 3 ≡ 3)
    × (valid_remaining (parse_int3 (at command 4) (at command 5) (at command 6)) ≡ some (10 * 60))
sprinkle_station_sent_example =
    sprinkle_station_sent 6 20 command_link (pos 3) (pos 10)
      (execute_command 6 20 command_link station_three) running_status sprinkled command_returned

-- The remaining time comes in the delay.
abbrev status_link : StatusLink
status_link = record {
  subscribed = none;
  poll = answers (timeless_frame ∷ []);
  settled = time_frame ∷ [];
}

abbrev timed_status : SolemStatus
timed_status = record (or_mock (status_in (parse_status_notification timeless_frame 6))) {
  remaining_seconds = some 600;
}

status_returned : (get_status 6 20 status_link).outcome ≡ returns timed_status
unfolding get_status settle awaits_remaining on_poll handle_status add_late_remaining late_remaining
    is_watering_status level_from battery_level_9v parse_battery_9v parse_int3 valid_remaining
    first_valid remaining_candidates parse_remaining_seconds parse_watering_origin
    parse_active_program parse_controller_off_state parse_intermediate_remaining off_status
    active_station watering_origin_of on_status parse_status_notification is_command_notification
    mock_status unless_raised and_then write_and_wait handle_all wait_turn wait_for_event list_eq
status_returned = refl

get_status-IsReported_example :
    (heard : List Bytes) × (later : List Bytes) × (part_frames (answers (timeless_frame ∷ []))
      ≡ heard ++ later)
    × IsReported 6 (heard ++ (time_frame ∷ [])) timed_status
get_status-IsReported_example = get_status-IsReported 6 20 status_link timed_status status_returned
