-- ===== src/Tests/Programs.antt =====
-- Irrigation programs of src/solem_blip_ble/protocol.py.
use solem_blip_ble.Common.{at, map, inr, replicate}
use Prim.Native.Nat.{◌≤◌}
use solem_blip_ble.Protocol.Program.{coerce_today}
use solem_blip_ble.Common.Text.{encode_point, encode, decode_replace}
use solem_blip_ble.Protocol.Config.{assemble_irrigation_programs}
use solem_blip_ble.Protocol.Program.{
  coerced_anchor, coerced_today, cycle_synchro, normalize_each_duration, normalize_each_start,
  normalized_start_times, normalized_station_durations, synchro_countdown, validate_fields, a_date,
  IrrigationProgram, Dates, period_start_to_synchro, normalize_irrigation_program_for_write,
}
use solem_blip_ble.Common.{
  ◌+◌, ◌%◌, ◌≤◌, ◌<◌, ◌≡◌, refl, ◌≢◌, ◌↔◌, ◌⊎◌, Option, none, some, List, [], ◌∷◌, arith, Bytes,
  take, ℤ, pos, ok,
}
use solem_blip_ble.Common.Calendar.{Date, to_ordinal}
use solem_blip_ble.Common.Dict.{Dict}
use solem_blip_ble.Protocol.Program.Synchro.{synchro_next_run}
use solem_blip_ble.Protocol.Program.Writable.{IsWritable, normalize-IsWritable}
use solem_blip_ble.Protocol.Write.Verified.{pack_set_irrigation_program_verifies}
use solem_blip_ble.Protocol.Write.{
  pack_set_irrigation_program, program_frames, program_key, irrigation_program_write_mismatches,
}
use solem_blip_ble.Protocol.Write.ReadBack.{seven_heads, reported, program_frames_read_back}
use solem_blip_ble.Protocol.Write.Verify.{SameWritable, irrigation_program_write_mismatches_none}
use solem_blip_ble.Protocol.Config.Assemble.{AllPrograms, IsSized, assemble_total}

abbrev sunday : Date
sunday = record { year = 2024; month = 6; day = 2 }

abbrev pub thursday : Date
thursday = record { year = 2024; month = 6; day = 6 }

abbrev pub no_clock : Dates
no_clock = record { today = sunday; fromisoformat = λ s. none }

-- Every third day, anchored in the past.
abbrev pub lawn : IrrigationProgram
lawn = record {
  name = 0x4C ∷ 0x61 ∷ 0x77 ∷ 0x6E ∷ [];
  inter_station_delay = pos 30;
  water_budget = pos 100;
  cycle = pos 4;
  week_days = pos 127;
  period_length = pos 3;
  synchro_day = pos 0;
  period_start_date = some (a_date sunday);
  controller_date = none;
  start_times = some (pos 360) ∷ none ∷ [];
  station_durations = pos 600 ∷ pos 300 ∷ [];
}

abbrev lawn_starts : List (Option ℤ)
lawn_starts = some (pos 360) ∷ none ∷ none ∷ none ∷ none ∷ none ∷ none ∷ none ∷ []

abbrev lawn_written : IrrigationProgram
lawn_written = record lawn { synchro_day = pos 2; start_times = lawn_starts }

lawn_normal :
    normalize_irrigation_program_for_write no_clock lawn (some (a_date thursday)) 2
    ≡ ok lawn_written
unfolding normalize_irrigation_program_for_write coerced_today validate_fields coerced_anchor
    cycle_synchro synchro_countdown to_ordinal normalized_start_times normalize_each_start
    normalized_station_durations normalize_each_duration decode_replace encode encode_point
lawn_normal = refl

normalize-IsWritable_example :
    IsWritable 2 lawn_written
    × (lawn_written.name ≡ decode_replace (take 31 (encode lawn.name)))
    × (lawn_written.inter_station_delay ≡ lawn.inter_station_delay)
    × (lawn_written.water_budget ≡ lawn.water_budget)
    × (lawn_written.cycle ≡ lawn.cycle)
    × (lawn_written.week_days ≡ lawn.week_days)
    × (lawn_written.period_length ≡ lawn.period_length)
normalize-IsWritable_example =
    normalize-IsWritable no_clock lawn (some (a_date thursday)) 2 {p = lawn_written} lawn_normal

synchro_next_run_example :
    (period_start_to_synchro no_clock (a_date sunday) (pos 3) (some (a_date thursday)) ≡ ok 2)
    × (2 < 3)
    × ((to_ordinal thursday + 2) % 3 ≡ to_ordinal sunday % 3)
    × ((2 ≤ 1) ⊎ ((to_ordinal thursday + 1) % 3 ≢ to_ordinal sunday % 3))
unfolding synchro_countdown to_ordinal
synchro_next_run_example = synchro_next_run no_clock thursday sunday 3 1 (omega arith)

irrigation_program_write_mismatches_none_example :
    (irrigation_program_write_mismatches (some lawn) lawn_written ≡ [])
    ↔ SameWritable lawn lawn_written
irrigation_program_write_mismatches_none_example =
    irrigation_program_write_mismatches_none lawn lawn_written

abbrev first_half : Bytes
first_half =
    0x3A ∷ 0x12 ∷ 0x06 ∷ 0x10 ∷ 0x4C ∷ 0x61 ∷ 0x77 ∷ 0x6E ∷ 0x00 ∷ 0x00 ∷ 0x00 ∷ 0x00 ∷ 0x00 ∷ 0x00
    ∷ 0x00 ∷ 0x00 ∷ 0x00 ∷ 0x00 ∷ 0x00 ∷ 0x00 ∷ []

assemble_total_example :
    (d : Dict IrrigationProgram) × (assemble_irrigation_programs
        (first_half ∷ (0x3A ∷ 0x00 ∷ []) ∷ [])
        6
      ≡ ok d)
    × AllPrograms (IsSized 6) d
assemble_total_example = assemble_total (first_half ∷ (0x3A ∷ 0x00 ∷ []) ∷ []) 6

abbrev pub lawn_stored : IrrigationProgram
lawn_stored = record lawn_written { station_durations = pos 600 ∷ pos 300 ∷ replicate 10 (pos 0) }

lawn_stored-IsWritable : IsWritable 12 lawn_stored
lawn_stored-IsWritable = record {
  delay_range = ground arith;
  budget_range = ground arith;
  cycle_range = ground arith;
  week_days_range = ground arith;
  period_range = ground arith;
  synchro_range = ground arith;
  interval = inr (ground arith);
  eight_starts = refl;
  starts_range = ground arith;
  all_durations = refl;
  durations_range = ground arith;
}

program_frames_read_back_example :
    (q : IrrigationProgram) × (assemble_irrigation_programs
        (reported 6 (program_frames (program_key 2) lawn_stored thursday))
        12
      ≡ ok ((2, q) ∷ []))
    × SameWritable q lawn_stored
    × (map (λ frame. (at frame 0, at frame 2)) (program_frames (program_key 2) lawn_stored thursday)
        ≡ seven_heads)
unfolding encode encode_point
program_frames_read_back_example =
    program_frames_read_back 2 lawn_stored thursday (omega arith) lawn_stored-IsWritable
      (ground arith) (ground arith) (omega arith)

abbrev pub lawn_frames : List Bytes
lawn_frames = program_frames (program_key 2) lawn_stored thursday

pub lawn_packed :
    pack_set_irrigation_program no_clock (pos 2) lawn (some (a_date thursday)) 12 ≡ ok lawn_frames
unfolding pack_set_irrigation_program coerce_today normalize_irrigation_program_for_write
    coerced_today validate_fields coerced_anchor cycle_synchro synchro_countdown to_ordinal
    normalized_start_times normalize_each_start normalized_station_durations normalize_each_duration
    decode_replace encode encode_point
lawn_packed = refl

pack_set_irrigation_program_verifies_example :
    (date : Date) × (p : IrrigationProgram) × (q : IrrigationProgram) × (coerce_today no_clock
        (some (a_date thursday))
      ≡ ok date)
    × (normalize_irrigation_program_for_write no_clock lawn (some (a_date date)) 12 ≡ ok p)
    × (assemble_irrigation_programs (reported 6 lawn_frames) 12 ≡ ok ((2, q) ∷ []))
    × (irrigation_program_write_mismatches (some q) p ≡ [])
unfolding encode encode_point
pack_set_irrigation_program_verifies_example =
    pack_set_irrigation_program_verifies no_clock (pos 2) lawn (some (a_date thursday))
      {frames = lawn_frames} lawn_packed (ground arith) (ground arith) (omega arith)
