-- ===== src/Protocol/Program.antt =====
-- Writing an irrigation program in src/solem_blip_ble/protocol.py: the program's fields, their
-- validation and normalisation, the comparison after a read-back, and the frames of a write.
pub mod Synchro
pub mod Shapes
pub mod Writable
use Prim.Native.Nat.{◌≤◌}
use solem_blip_ble.Common.{
  ℕ, ◌-◌, ◌%◌, length, take, replicate, List, [], ◌∷◌, ◌++◌, map, ◌&&◌, Option, none, some, ltb,
  leb, ◌==◌, if◌then◌else◌, ℤ, pos, pos_part, between, eq_ℤ, Result, ok, err, guard, ◌>>=◌, ◌>>◌,
}
use solem_blip_ble.Common.Results.{
  field_range, period_length_range, synchro_day_range, start_times_count, start_time_range,
  max_stations_range, durations_count, duration_range, date_text,
}
use solem_blip_ble.Common.Text.{Str, encode, decode_replace}
use solem_blip_ble.Common.Calendar.{Date, to_ordinal}

-- The values that the date arguments may hold.
pub data DateInput : Type 0 where
  a_date : Date → DateInput
  iso_text : Str → DateInput
  a_datetime other_value : DateInput

pub record IrrigationProgram : Type 0 where
  pub name : Str
  pub inter_station_delay : ℤ
  pub water_budget : ℤ
  pub cycle : ℤ
  pub week_days : ℤ
  pub period_length : ℤ
  pub synchro_day : ℤ
  pub period_start_date : Option DateInput
  pub controller_date : Option Date
  pub start_times : List (Option ℤ)
  pub station_durations : List ℤ

-- Python's clock and its reading of ISO dates.
pub record Dates : Type 0 where
  pub today : Date
  pub fromisoformat : Str → Option Date

abbrev pub disabled_start_time : ℕ
disabled_start_time = 1440

abbrev pub max_program_name_bytes : ℕ
max_program_name_bytes = 31

abbrev pub max_start_times : ℕ
max_start_times = 8

abbrev pub max_program_stations : ℕ
max_program_stations = 12

unfoldable pub validate_u16 : ℤ → Result (Unit {0})
validate_u16 value = guard (between 0 value 0xFFFF) field_range

unfoldable pub validate_u8 : ℤ → Result (Unit {0})
validate_u8 value = guard (between 0 value 0xFF) field_range

unfoldable pub coerce_today : Dates → Option DateInput → Result Date
coerce_today dates none = ok dates.today
coerce_today dates (some (a_date d)) = ok d
coerce_today dates (some (iso_text s)) = err date_text
coerce_today dates (some a_datetime) = err date_text
coerce_today dates (some other_value) = err date_text

unfoldable pub coerce_period_start_date : Dates → DateInput → Result Date
coerce_period_start_date dates (a_date d) = ok d
coerce_period_start_date dates (iso_text s) = elim (dates.fromisoformat s) [
  | none ↦ err date_text
  | some d ↦ ok d
]
coerce_period_start_date dates a_datetime = err date_text
coerce_period_start_date dates other_value = err date_text

-- `(a - b) % p` in Python, where the remainder of a negative number is not negative.
unfoldable pub sub_mod : ℕ → ℕ → ℕ → ℕ
sub_mod a b p = if leb b a then (a - b) % p else (p - (b - a) % p) % p

-- The days from `today` to the next day of the cycle that `anchor` starts.
unfoldable pub synchro_countdown : Date → Date → ℕ → ℕ
unfolding sub_mod
synchro_countdown today anchor period =
    (period - sub_mod (to_ordinal today) (to_ordinal anchor) period) % period

unfoldable pub period_start_to_synchro : Dates → DateInput → ℤ → Option DateInput → Result ℕ
period_start_to_synchro dates period_start_date period_length today = do
  anchor ← coerce_period_start_date dates period_start_date
  guard (ltb 0 (pos_part period_length)) period_length_range
  day ← coerce_today dates today
  ok (synchro_countdown day anchor (pos_part period_length))

-- One minute value of a slot, or 1440 for a slot with none.
unfoldable pub normalized_start_time : Option ℤ → Result ℕ
normalized_start_time none = ok disabled_start_time
normalized_start_time (some minutes) =
    guard (between 0 minutes 1439) start_time_range >> ok (pos_part minutes)

unfoldable pub normalize_each_start : List (Option ℤ) → Result (List ℕ)
unfolding normalized_start_time
normalize_each_start [] = ok []
normalize_each_start (t ∷ ts) = do
  n ← normalized_start_time t
  ns ← normalize_each_start ts
  ok (n ∷ ns)

unfoldable pub normalized_start_times : IrrigationProgram → Result (List ℕ)
normalized_start_times program = do
  guard (leb (length program.start_times) max_start_times) start_times_count
  normalize_each_start
      (program.start_times ++ replicate (max_start_times - length program.start_times) none)

unfoldable pub normalize_each_duration : List ℤ → Result (List ℕ)
normalize_each_duration [] = ok []
normalize_each_duration (d ∷ ds) = do
  guard (between 0 d 0xFFFFFF) duration_range
  ns ← normalize_each_duration ds
  ok (pos_part d ∷ ns)

-- A `max_stations` below 0 is refused as 0 is.
unfoldable pub normalized_station_durations : IrrigationProgram → ℕ → Result (List ℕ)
normalized_station_durations program max_stations = do
  guard (leb 1 max_stations && leb max_stations max_program_stations) max_stations_range
  guard (leb (length program.station_durations) max_stations) durations_count
  normalize_each_duration (
      program.station_durations
      ++ replicate (max_program_stations - length program.station_durations) (pos 0))

-- `None if minutes == DISABLED_START_TIME else minutes`
abbrev pub shown_start : ℕ → Option ℤ
shown_start minutes = if minutes == disabled_start_time then none else some (pos minutes)

-- The coerced anchor of a program.
unfoldable pub coerced_anchor : Dates → Option DateInput → Result (Option DateInput)
unfolding coerce_period_start_date
coerced_anchor dates none = ok none
coerced_anchor dates (some v) = do d ← coerce_period_start_date dates v; ok (some (a_date d))

unfoldable pub anchored_synchro : Dates → Option DateInput → ℤ → ℤ → Option DateInput → Result ℤ
unfolding period_start_to_synchro
anchored_synchro dates none period_length synchro_day today = ok synchro_day
anchored_synchro dates (some anchor) period_length synchro_day today = do
  n ← period_start_to_synchro dates anchor period_length today
  ok (pos n)

-- The `if program["cycle"] == 4` block; it returns the synchro day.
unfoldable pub cycle_synchro :
    Dates → IrrigationProgram → Option DateInput → Option DateInput → Result ℤ
unfolding anchored_synchro
cycle_synchro dates program anchor today =
    if eq_ℤ program.cycle (pos 4)
    then (do
      guard (ltb 0 (pos_part program.period_length)) period_length_range
      synchro ← anchored_synchro dates anchor program.period_length program.synchro_day today
      guard (between 0 synchro (pos_part program.period_length - 1)) synchro_day_range
      ok synchro)
    else ok program.synchro_day

-- `if today is not None: today = _coerce_today(today)`
unfoldable pub coerced_today : Dates → Option DateInput → Result (Option DateInput)
unfolding coerce_today
coerced_today dates none = ok none
coerced_today dates (some v) = do d ← coerce_today dates (some v); ok (some (a_date d))

unfoldable pub validate_fields : IrrigationProgram → Result (Unit {0})
unfolding validate_u16 validate_u8
validate_fields program = do
  validate_u16 program.inter_station_delay
  validate_u16 program.water_budget
  validate_u8 program.cycle
  validate_u8 program.week_days
  validate_u8 program.period_length
  validate_u8 program.synchro_day

unfoldable pub normalize_irrigation_program_for_write :
    Dates → IrrigationProgram → Option DateInput → ℕ → Result IrrigationProgram
normalize_irrigation_program_for_write dates program today max_stations = do
  day ← coerced_today dates today
  validate_fields program
  anchor ← coerced_anchor dates program.period_start_date
  synchro ← cycle_synchro dates program anchor day
  starts ← normalized_start_times program
  durations ← normalized_station_durations program max_stations
  ok (record {
    name = decode_replace (take max_program_name_bytes (encode program.name));
    inter_station_delay = program.inter_station_delay;
    water_budget = program.water_budget;
    cycle = program.cycle;
    week_days = program.week_days;
    period_length = program.period_length;
    synchro_day = synchro;
    period_start_date = anchor;
    controller_date = program.controller_date;
    start_times = map shown_start starts;
    station_durations = map pos (take max_stations durations);
  })
