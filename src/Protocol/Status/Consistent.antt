-- ===== src/Protocol/Status/Consistent.antt =====
-- What every parsed status satisfies, in src/solem_blip_ble/protocol.py.
use solem_blip_ble.Protocol.Status.{is_watering_status}
use Prim.Native.Nat.{◌≤◌}
use solem_blip_ble.Common.{
  ℕ, ◌-◌, ◌/◌, ◌%◌, ◌≤◌, min, ◌≡◌, refl, ◌≢◌, inl, inr, Bool, true, false, ◌&&◌, ◌||◌, is_some,
  Option, none, some, List, [], ◌∷◌, arith, Bytes, at, ltb, leb, if◌then◌else◌, Bool-cases, length,
  ok,
}
use solem_blip_ble.Protocol.Status.{
  ControllerState, state_on, state_off, OffMode, mode_on, temporary, permanent, program,
  SolemStatus, parse_status_notification, battery_level_9v, parse_battery_9v, valid_remaining,
  first_valid, remaining_candidates, parse_remaining_seconds, parse_controller_off_state,
  parse_active_program, active_station, watering_origin_of, off_status, on_status, has_bits,
}

-- A number that is there lies in the range.
abbrev pub AllWithin : ℕ → ℕ → Option ℕ → Type 0
AllWithin lo hi none = Unit {0}
AllWithin lo hi (some n) = (lo ≤ n) × (n ≤ hi)

-- The battery's level goes with its voltage.
abbrev pub BatteryAgrees : Option ℕ → Option ℕ → Bool → Type 0
BatteryAgrees none level low = (level ≡ none) × (low ≡ false)
BatteryAgrees (some v) level low =
    (1 ≤ v) × (level ≡ some (min 5 ((v - 55) / 5))) × (low ≡ ltb v 50)

-- The mode and the days that are left agree with the state.
abbrev pub OffAgrees : ControllerState → OffMode → Option ℕ → Type 0
OffAgrees state_on mode days = (mode ≡ mode_on) × (days ≡ some 0)
OffAgrees state_off temporary days = (d : ℕ) × (days ≡ some d) × (1 ≤ d) × (d ≤ 15)
OffAgrees state_off permanent days = days ≡ some 0
OffAgrees _ _ days = ⊥

pub battery_level_9v_lem : (v : ℕ) → battery_level_9v v ≡ min 5 ((v - 55) / 5)
unfolding battery_level_9v
battery_level_9v_lem v = ground arith

battery-BatteryAgrees :
    (frame : Bytes) → let (v, l, low) = parse_battery_9v frame in BatteryAgrees v l low
unfolding parse_battery_9v
battery-BatteryAgrees frame = ground (arith, battery_level_9v_lem (at frame 10))

valid_remaining-AllWithin : (n : ℕ) → AllWithin 1 14400 (valid_remaining n)
unfolding valid_remaining
valid_remaining-AllWithin n = ground arith

first_valid-AllWithin : (candidates : List ℕ) → AllWithin 1 14400 (first_valid candidates)
unfolding first_valid
first_valid-AllWithin [] = tt
first_valid-AllWithin (n ∷ ns) =
    ground (arith, valid_remaining-AllWithin n, first_valid-AllWithin ns)

remaining-AllWithin :
    (frame : Bytes) (station : Option ℕ) → AllWithin 1 14400 (parse_remaining_seconds frame station)
unfolding parse_remaining_seconds
remaining-AllWithin frame none = tt
remaining-AllWithin frame (some station) =
    ground (arith, first_valid-AllWithin (remaining_candidates frame station))

-- The controller's off state is read without an exception from a frame of five bytes or more.
off_state_total :
    (frame : Bytes) (is_on : Bool)
    → 5 ≤ length frame
    → (off : OffMode × ℕ) × (parse_controller_off_state frame is_on ≡ ok off)
      × OffAgrees (if is_on then state_on else state_off) off.0 (some off.1)
unfolding parse_controller_off_state
off_state_total frame true h = ((mode_on, 0), refl, (refl, refl))
off_state_total frame false h =
    elim (Bool-cases (leb 1 (at frame 4 % 64) && leb (at frame 4 % 64) 15)) [
      | inl days ↦ (
        (temporary, at frame 4 % 64),
        ground arith,
        (at frame 4 % 64, refl, ground arith, ground arith),
      )
      | inr forever ↦ ((permanent, 0), ground arith, refl)
    ]

-- The statement for a value that is there.
abbrev pub WhenSome : Option ℕ → Type 0 → Type 0
WhenSome none P = Unit
WhenSome (some n) P = P

-- With a controller that is not on, nothing runs.
abbrev pub NoRunUnless : ControllerState → SolemStatus → Type 0
NoRunUnless state_on s = Unit
NoRunUnless _ s =
    (s.is_watering ≡ false)
    × (s.station_num ≡ none)
    × (s.remaining_seconds ≡ none)
    × (s.active_program ≡ none)
    × (s.watering_origin ≡ none)

-- What a status says fits together. A run needs a controller that is on, a remaining time needs a
-- station, and an active program makes the origin a program.
pub record IsConsistent (max_station : ℕ) (s : SolemStatus) : Type 0 where
  pub off_agrees :
      OffAgrees s.controller_state s.controller_off_mode s.controller_off_days_remaining
  pub station_within : AllWithin 1 max_station s.station_num
  pub remaining_within : AllWithin 1 14400 s.remaining_seconds
  pub program_within : AllWithin 1 3 s.active_program
  pub battery_agrees : BatteryAgrees s.battery_voltage s.battery_level s.battery_low
  pub station_waters : WhenSome s.station_num (s.is_watering ≡ true)
  pub remaining_has_station : WhenSome s.remaining_seconds (s.station_num ≢ none)
  pub program_origin : WhenSome s.active_program (s.watering_origin ≡ some program)
  pub run_is_on : NoRunUnless s.controller_state s

-- The number, if it lies from 1 to `hi`.
abbrev pub when_within : ℕ → ℕ → Option ℕ
when_within hi n = if leb 1 n && leb n hi then some n else none

-- Where in the frame the status stands: the state, the alarm and the activity bits in byte 3, the
-- program in byte 8 and the station in byte 9, the last three only with a controller that is on.
pub record ReadsFrame (frame : Bytes) (max_station : ℕ) (s : SolemStatus) : Type 0 where
  pub state_bit : s.controller_state ≡ (if has_bits (at frame 3) 0x40 then state_on else state_off)
  pub alarm_bit : s.time_alarm ≡ has_bits (at frame 3) 0x20
  pub watering_bits :
      s.is_watering
      ≡ has_bits (at frame 3) 0x40
        && (has_bits (at frame 3) 0x06 || is_some (when_within max_station (at frame 9)))
  pub station_byte :
      s.station_num
      ≡ (if has_bits (at frame 3) 0x40 then when_within max_station (at frame 9) else none)
  pub program_byte :
      s.active_program ≡ (if has_bits (at frame 3) 0x40 then when_within 3 (at frame 8) else none)

module _ (frame : Bytes) (max_station : ℕ) where
  off_status-ReadsFrame :
      (off : OffMode × ℕ)
      → has_bits (at frame 3) 0x40 ≡ false
      → ReadsFrame frame max_station (off_status frame off)
  unfolding off_status
  off_status-ReadsFrame off is_off = record {
    state_bit = rw is_off refl;
    alarm_bit = refl;
    watering_bits = rw is_off refl;
    station_byte = rw is_off refl;
    program_byte = rw is_off refl;
  }

  on_status-ReadsFrame :
      (off : OffMode × ℕ)
      → 18 ≤ length frame
      → has_bits (at frame 3) 0x40 ≡ true
      → ReadsFrame frame max_station (on_status frame max_station off)
  unfolding on_status is_watering_status active_station parse_active_program
  on_status-ReadsFrame off h18 is_on = record {
    state_bit = rw is_on refl;
    alarm_bit = refl;
    watering_bits = ground arith;
    station_byte = rw is_on refl;
    program_byte = ground arith;
  }

  off_status-IsConsistent :
      (off : OffMode × ℕ)
      → OffAgrees state_off off.0 (some off.1)
      → IsConsistent max_station (off_status frame off)
  unfolding off_status
  off_status-IsConsistent off h = record {
    off_agrees = h;
    station_within = tt;
    remaining_within = tt;
    program_within = tt;
    battery_agrees = battery-BatteryAgrees frame;
    station_waters = tt;
    remaining_has_station = tt;
    program_origin = tt;
    run_is_on = (refl, refl, refl, refl, refl);
  }

  active_station-AllWithin : AllWithin 1 max_station (active_station frame max_station)
  unfolding active_station
  active_station-AllWithin = ground arith

  active_program-AllWithin : AllWithin 1 3 (parse_active_program frame true)
  unfolding parse_active_program
  active_program-AllWithin = ground arith

  on_status-IsConsistent :
      (off : OffMode × ℕ)
      → OffAgrees state_on off.0 (some off.1)
      → IsConsistent max_station (on_status frame max_station off)
  unfolding on_status watering_origin_of
  on_status-IsConsistent off h = record {
    off_agrees = h;
    station_within = active_station-AllWithin;
    remaining_within = ground (arith, remaining-AllWithin frame (active_station frame max_station));
    program_within = active_program-AllWithin;
    battery_agrees = battery-BatteryAgrees frame;
    station_waters = ground arith;
    remaining_has_station = unfold parse_remaining_seconds in ground arith;
    program_origin = ground arith;
    run_is_on = tt;
  }

-- A status frame is at least 18 bytes long, has 2 in byte 2 and not 0x10 in byte 3.
abbrev pub IsStatusFrame : Bytes → Type 0
IsStatusFrame frame = (18 ≤ length frame) × (at frame 2 ≡ 2) × (at frame 3 ≢ 0x10)

-- On a status frame the parser raises nothing and returns a status that is consistent, whatever the
-- other bytes are, and that has its state, alarm, activity, program and station from bytes 3, 8 and 9.
-- With a controller that is not on, whatever the activity bits say, no run is reported: the protocol
-- document reads 0x02 in byte 3 as manual watering.
pub status-IsConsistent :
    (frame : Bytes) (max_station : ℕ)
    → IsStatusFrame frame
    → (s : SolemStatus) × (parse_status_notification frame max_station ≡ ok (some s))
      × IsConsistent max_station s
      × ReadsFrame frame max_station s
unfolding parse_status_notification
status-IsConsistent frame max_station (h18, h2, h3) =
    elim (Bool-cases (has_bits (at frame 3) 0x40)) [
      | inl is_on ↦
          let (off, e, agrees) = off_state_total frame true (omega arith) in
          (
            on_status frame max_station off,
            ground (arith, e),
            on_status-IsConsistent frame max_station off agrees,
            on_status-ReadsFrame frame max_station off h18 is_on,
          )
      | inr is_off ↦
          let (off, e, agrees) = off_state_total frame false (omega arith) in
          (
            off_status frame off,
            ground (arith, e),
            off_status-IsConsistent frame max_station off agrees,
            off_status-ReadsFrame frame max_station off is_off,
          )
    ]

-- Any other frame is no status, and raises nothing either.
pub status_other :
    (frame : Bytes) (max_station : ℕ)
    → ¬ IsStatusFrame frame
    → parse_status_notification frame max_station ≡ ok none
unfolding parse_status_notification
status_other frame max_station h = ground arith
