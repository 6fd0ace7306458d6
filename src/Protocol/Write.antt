-- ===== src/Protocol/Write.antt =====
-- The comparison of a program with its read-back, and the seven frames of a program write, in
-- src/solem_blip_ble/protocol.py.
pub mod Chunks
pub mod NameHalves
pub mod Slots
pub mod Groups
pub mod ReadBack
pub mod Verified
pub mod Verify
use Prim.Native.Nat.{◌≤◌}
use solem_blip_ble.Common.{
  ℕ, ◌+◌, ◌-◌, ◌%◌, Bytes, byte, length, take, drop, replicate, List, [], ◌∷◌, ◌++◌, map, Bool,
  true, false, Option, none, some, ◌==◌, ℤ, pos_part, between, eq_ℤ, list_eq, Result, ok, guard,
  ◌>>=◌, ◌>>◌,
}
use solem_blip_ble.Common.Results.{program_index_range}
use solem_blip_ble.Common.Text.{Str, encode, ljust}
use solem_blip_ble.Common.Calendar.{Date}
use solem_blip_ble.Protocol.Program.{
  DateInput, a_date, IrrigationProgram, Dates, disabled_start_time, max_program_name_bytes,
  max_program_stations, coerce_today, normalize_irrigation_program_for_write,
}

unfoldable pub start_eq : Option ℤ → Option ℤ → Bool
start_eq none none = true
start_eq (some a) (some b) = eq_ℤ a b
start_eq none (some b) = false
start_eq (some a) none = false

-- An entry of the dict of mismatches: the field, the expected value and the actual one.
pub data Mismatch : Type 0 where
  no_program : IrrigationProgram → Mismatch
  name_differs : Str → Str → Mismatch
  inter_station_delay_differs water_budget_differs cycle_differs week_days_differs
        period_length_differs synchro_day_differs :
      ℤ → ℤ → Mismatch
  start_times_differ : List (Option ℤ) → List (Option ℤ) → Mismatch
  station_durations_differ : List ℤ → List ℤ → Mismatch

-- `if written[field] != expected[field]: mismatches[field] = ...`
abbrev pub entry_if : Bool → Mismatch → List Mismatch
entry_if true m = []
entry_if false m = m ∷ []

unfoldable pub program_mismatches : IrrigationProgram → IrrigationProgram → List Mismatch
program_mismatches w e =
    entry_if (list_eq ◌==◌ w.name e.name) (name_differs e.name w.name)
    ++ (entry_if (eq_ℤ w.inter_station_delay e.inter_station_delay)
          (inter_station_delay_differs e.inter_station_delay w.inter_station_delay)
        ++ (entry_if (eq_ℤ w.water_budget e.water_budget)
              (water_budget_differs e.water_budget w.water_budget)
            ++ (entry_if (eq_ℤ w.cycle e.cycle) (cycle_differs e.cycle w.cycle)
                ++ (entry_if (eq_ℤ w.week_days e.week_days)
                      (week_days_differs e.week_days w.week_days)
                    ++ (entry_if (eq_ℤ w.period_length e.period_length)
                          (period_length_differs e.period_length w.period_length)
                        ++ (entry_if (eq_ℤ w.synchro_day e.synchro_day)
                              (synchro_day_differs e.synchro_day w.synchro_day)
                            ++ (entry_if (list_eq start_eq w.start_times e.start_times)
                                  (start_times_differ e.start_times w.start_times)
                                ++ entry_if (list_eq eq_ℤ w.station_durations e.station_durations) (
                                    station_durations_differ e.station_durations
                                      w.station_durations))))))))

unfoldable pub irrigation_program_write_mismatches :
    Option IrrigationProgram → IrrigationProgram → List Mismatch
irrigation_program_write_mismatches none expected = no_program expected ∷ []
irrigation_program_write_mismatches (some written) expected = program_mismatches written expected

-- `DISABLED_START_TIME if minutes is None else minutes`
abbrev pub stored_start : Option ℤ → ℕ
stored_start none = disabled_start_time
stored_start (some minutes) = pos_part minutes

unfoldable pub header_frame : ℕ → IrrigationProgram → Date → Bytes
header_frame key p write_date =
    0x37
    ∷ 0x0E
    ∷ 0x00
    ∷ key
    ∷ byte (pos_part p.inter_station_delay) 8
    ∷ byte (pos_part p.inter_station_delay) 0
    ∷ byte (pos_part p.water_budget) 8
    ∷ byte (pos_part p.water_budget) 0
    ∷ byte (pos_part p.cycle) 0
    ∷ byte (pos_part p.week_days) 0
    ∷ byte (pos_part p.period_length) 0
    ∷ byte (pos_part p.synchro_day) 0
    ∷ write_date.day
    ∷ write_date.month
    ∷ byte write_date.year 8
    ∷ byte write_date.year 0
    ∷ []

-- The loop over the slots writes two bytes each behind the four of the head.
unfoldable pub start_bytes : List ℕ → Bytes
start_bytes [] = []
start_bytes (minutes ∷ rest) = byte minutes 8 ∷ byte minutes 0 ∷ start_bytes rest

unfoldable pub start_frame : ℕ → List ℕ → Bytes
unfolding start_bytes
start_frame key start_times = 0x37 ∷ 0x12 ∷ 0x01 ∷ key ∷ start_bytes start_times

-- Three bytes for each station of a chunk.
unfoldable pub duration_bytes : List ℕ → Bytes
duration_bytes [] = []
duration_bytes (seconds ∷ rest) =
    byte seconds 16 ∷ byte seconds 8 ∷ byte seconds 0 ∷ duration_bytes rest

unfoldable pub duration_frame : ℕ → ℕ → ℕ → List ℕ → Bytes
unfolding duration_bytes
duration_frame key chunk_id frame_len durations =
    0x37 ∷ (frame_len - 2) ∷ chunk_id ∷ key ∷ duration_bytes durations

-- `seconds` for the twelve slots: the normalised durations, padded with zeros.
unfoldable pub twelve_durations : IrrigationProgram → List ℕ
twelve_durations p =
    map pos_part p.station_durations
    ++ replicate (max_program_stations - length p.station_durations) 0

unfoldable pub padded_name : IrrigationProgram → Bytes
padded_name p = ljust max_program_name_bytes (take max_program_name_bytes (encode p.name))

unfoldable pub program_frames : ℕ → IrrigationProgram → Date → List Bytes
unfolding header_frame start_frame duration_frame twelve_durations padded_name
program_frames key p write_date =
    (0x2F ∷ 0x12 ∷ 0x00 ∷ key ∷ take 16 (padded_name p))
    ∷ (0x2F ∷ 0x12 ∷ 0x01 ∷ key ∷ (take 15 (drop 16 (padded_name p)) ++ (0x00 ∷ [])))
    ∷ header_frame key p write_date
    ∷ start_frame key (map stored_start p.start_times)
    ∷ duration_frame key 0x02 19 (take 5 (twelve_durations p))
    ∷ duration_frame key 0x03 19 (take 5 (drop 5 (twelve_durations p)))
    ∷ duration_frame key 0x04 10 (take 2 (drop 10 (twelve_durations p)))
    ∷ []

-- `0x10 | (program_index & 0x0F)`; the operands share no bit.
abbrev pub program_key : ℕ → ℕ
program_key program_index = 0x10 + program_index % 16

unfoldable pub pack_set_irrigation_program :
    Dates → ℤ → IrrigationProgram → Option DateInput → ℕ → Result (List Bytes)
pack_set_irrigation_program dates program_index program today max_stations = do
  guard (between 0 program_index 2) program_index_range
  write_date ← coerce_today dates today
  normalized ←
      normalize_irrigation_program_for_write dates program (some (a_date write_date)) max_stations
  ok (program_frames (program_key (pos_part program_index)) normalized write_date)
