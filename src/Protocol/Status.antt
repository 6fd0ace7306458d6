-- ===== src/Protocol/Status.antt =====
-- The status notification of src/solem_blip_ble/protocol.py (seq 0x02), its parts, and the seq 0x01
-- frame with the remaining time of stations 3 and up. A record stands for the TypedDict.
pub mod Consistent
use Prim.Native.Nat.{◌≤◌}
use solem_blip_ble.Common.{
  ℕ, suc, ◌+◌, ◌-◌, ◌*◌, ◌%◌, bit_and, Bytes, at, length, Bool, true, false, not, ◌&&◌, ◌||◌,
  Option, none, some, is_some, List, [], ◌∷◌, ◌++◌, ltb, leb, ◌==◌, if◌then◌else◌, Result, ok, err,
  ◌>>=◌,
}
use solem_blip_ble.Common.Results.{out_of_range}
use solem_blip_ble.Protocol.Command.{max_turn_off_days}

pub data ControllerState : Type 0 where
  state_on state_off state_unknown : ControllerState

pub data OffMode : Type 0 where
  mode_on temporary permanent mode_unknown : OffMode

pub data Origin : Type 0 where
  manual schedule program : Origin

pub record SolemStatus : Type 0 where
  pub controller_state : ControllerState
  pub controller_off_mode : OffMode
  pub controller_off_days_remaining : Option ℕ
  pub is_watering : Bool
  pub station_num : Option ℕ
  pub remaining_seconds : Option ℕ
  pub battery_voltage : Option ℕ
  pub battery_level : Option ℕ
  pub battery_low : Bool
  pub time_alarm : Bool
  pub active_program : Option ℕ
  pub watering_origin : Option Origin

-- `bool(b & mask)`
abbrev pub has_bits : ℕ → ℕ → Bool
has_bits b mask = not (bit_and b mask == 0)

unfoldable pub is_watering_status : ℕ → Bool
is_watering_status status_byte = has_bits status_byte 0x06

abbrev pub battery_levels_9v : List ℕ
battery_levels_9v = 60 ∷ 65 ∷ 70 ∷ 75 ∷ 80 ∷ []

-- The loop over the thresholds from `level` on; past the last one it returns their number.
unfoldable pub level_from : ℕ → List ℕ → ℕ → ℕ
level_from level [] voltage = level
level_from level (threshold ∷ rest) voltage =
    let next = level_from (suc level) rest voltage in if ltb voltage threshold then level else next

unfoldable pub battery_level_9v : ℕ → ℕ
unfolding level_from
battery_level_9v voltage = level_from 0 battery_levels_9v voltage

unfoldable pub parse_battery_9v : Bytes → Option ℕ × Option ℕ × Bool
parse_battery_9v frame =
    if leb (length frame) 10
    then (none, none, false)
    else if at frame 10 == 0
    then (none, none, false)
    else (some (at frame 10), some (battery_level_9v (at frame 10)), ltb (at frame 10) 50)

-- The operands of `|` share no bit, so it is a sum.
unfoldable pub parse_int3 : ℕ → ℕ → ℕ → ℕ
parse_int3 b0 b1 b2 = b0 % 16 * 65536 + b1 % 256 * 256 + b2 % 256

abbrev pub max_remaining_seconds : ℕ
max_remaining_seconds = 14400

unfoldable pub valid_remaining : ℕ → Option ℕ
valid_remaining seconds =
    if ltb 0 seconds && leb seconds max_remaining_seconds then some seconds else none

-- The first candidate that is a valid remaining time.
unfoldable pub first_valid : List ℕ → Option ℕ
first_valid [] = none
first_valid (seconds ∷ rest) =
    let later = first_valid rest in
    elim (valid_remaining seconds) [ some r ↦ some r | none ↦ later ]

unfoldable pub remaining_candidates : Bytes → ℕ → List ℕ
remaining_candidates frame station_num =
    (parse_int3 (at frame 12) (at frame 13) (at frame 14) ∷ [])
    ++ ((if station_num == 2 && leb 18 (length frame)
          then parse_int3 (at frame 15) (at frame 16) (at frame 17) ∷ []
          else [])
        ++ ((at frame 13 * 256 + at frame 14) ∷ []))

unfoldable pub parse_remaining_seconds : Bytes → Option ℕ → Option ℕ
parse_remaining_seconds frame none = none
parse_remaining_seconds frame (some station_num) =
    if ltb (length frame) 15 then none else first_valid (remaining_candidates frame station_num)

unfoldable pub parse_watering_origin : ℕ → Option Origin
parse_watering_origin status_byte =
    let origin = status_byte % 16 in
    if ltb 0 origin && ltb origin 5
    then some manual
    else if not (origin == 0)
    then some schedule
    else none

unfoldable pub parse_active_program : Bytes → Bool → Option ℕ
parse_active_program frame is_controller_on =
    if not is_controller_on || leb (length frame) 8
    then none
    else if leb 1 (at frame 8) && leb (at frame 8) 3
    then some (at frame 8)
    else none

-- A frame of at most four bytes raises an IndexError while the controller is off.
unfoldable pub parse_controller_off_state : Bytes → Bool → Result (OffMode × ℕ)
parse_controller_off_state frame true = ok (mode_on, 0)
parse_controller_off_state frame false =
    if leb (length frame) 4
    then err out_of_range
    else if leb 1 (at frame 4 % 64) && leb (at frame 4 % 64) max_turn_off_days
    then ok (temporary, at frame 4 % 64)
    else ok (permanent, 0)

unfoldable pub parse_intermediate_remaining : Bytes → ℕ → ℕ → Option ℕ
parse_intermediate_remaining frame station_num max_station =
    if ltb (length frame) 12
      || (not (at frame 2 == 1) || not (leb 3 station_num && leb station_num max_station))
    then none
    else let offset = (station_num - 3) * 3 + 3 in
      if leb (length frame) (offset + 2)
      then none
      else valid_remaining
          (parse_int3 (at frame offset) (at frame (offset + 1)) (at frame (offset + 2)))

-- The dict for a controller that is OFF: never a run.
unfoldable pub off_status : Bytes → OffMode × ℕ → SolemStatus
off_status frame (off_mode, off_days) =
    let (voltage, level, low) = parse_battery_9v frame in
    record {
      controller_state = state_off;
      controller_off_mode = off_mode;
      controller_off_days_remaining = some off_days;
      is_watering = false;
      station_num = none;
      remaining_seconds = none;
      battery_voltage = voltage;
      battery_level = level;
      battery_low = low;
      time_alarm = has_bits (at frame 3) 0x20;
      active_program = none;
      watering_origin = none;
    }

-- `data[9] if 1 <= data[9] <= max_station_num else None`
unfoldable pub active_station : Bytes → ℕ → Option ℕ
active_station frame max_station =
    if leb 1 (at frame 9) && leb (at frame 9) max_station then some (at frame 9) else none

unfoldable pub watering_origin_of : ℕ → Bool → Option ℕ → Option Origin
watering_origin_of status_byte is_watering active_program =
    if is_watering || is_some active_program
    then (if is_some active_program || has_bits status_byte 0x04
        then some program
        else parse_watering_origin status_byte)
    else none

unfoldable pub on_status : Bytes → ℕ → OffMode × ℕ → SolemStatus
on_status frame max_station (off_mode, off_days) =
    let station = active_station frame max_station in
    let watering = is_some station || is_watering_status (at frame 3) in
    let (voltage, level, low) = parse_battery_9v frame in
    let active = parse_active_program frame true in
    record {
      controller_state = state_on;
      controller_off_mode = off_mode;
      controller_off_days_remaining = some off_days;
      is_watering = watering;
      station_num = station;
      remaining_seconds = if watering then parse_remaining_seconds frame station else none;
      battery_voltage = voltage;
      battery_level = level;
      battery_low = low;
      time_alarm = has_bits (at frame 3) 0x20;
      active_program = active;
      watering_origin = watering_origin_of (at frame 3) watering active;
    }

-- `None` is `ok none`; an exception would be `err`.
unfoldable pub parse_status_notification : Bytes → ℕ → Result (Option SolemStatus)
parse_status_notification frame max_station =
    if ltb (length frame) 18 || (not (at frame 2 == 2) || at frame 3 == 0x10)
    then ok none
    else let is_on = has_bits (at frame 3) 0x40 in
      parse_controller_off_state frame is_on >>= λ off.
      ok (some (if is_on then on_status frame max_station off else off_status frame off))

unfoldable pub is_command_notification : Bytes → Bool
is_command_notification frame =
    leb 3 (length frame) && (at frame 2 == 0 || (at frame 2 == 1 || at frame 2 == 2))

unfoldable pub mock_status : SolemStatus
mock_status = record {
  controller_state = state_unknown;
  controller_off_mode = mode_unknown;
  controller_off_days_remaining = none;
  is_watering = false;
  station_num = none;
  remaining_seconds = none;
  battery_voltage = none;
  battery_level = none;
  battery_low = false;
  time_alarm = false;
  active_program = none;
  watering_origin = none;
}
