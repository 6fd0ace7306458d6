-- ===== src/Client/ProgramSetting.antt =====
-- `write_irrigation_program` and `set_irrigation_program` of src/solem_blip_ble/client_v2.py: the
-- frames of one program, each with an executor's run of its own, and the comparison of a read-back.
pub mod Verified
use solem_blip_ble.Common.{
  ℕ, Bytes, List, [], ◌∷◌, Option, none, some, Result, ok, ◌>>=◌, ℤ, pos_part,
}
use solem_blip_ble.Common.Dict.{Dict, lookup}
use solem_blip_ble.Protocol.Program.{
  DateInput, a_date, IrrigationProgram, Dates, normalize_irrigation_program_for_write,
  max_program_stations,
}
use solem_blip_ble.Protocol.Write.{
  pack_set_irrigation_program, irrigation_program_write_mismatches, Mismatch,
}
use solem_blip_ble.Snapshot.{ProgramSnapshot}
use solem_blip_ble.Client.Polling.{Exception, connection_error, Outcome, returns, raises, waits}
use solem_blip_ble.Client.Session.{Session, only, and_then}
use solem_blip_ble.Client.ConfigReading.{ConfigCall, get_irrigation_config}

-- The loop over the frames. For each, what `_run_operation` raises in the end, if it does; it may have
-- written the frame more than once.
abbrev pub write_one : Bytes → Option Exception → Session (Unit {0})
write_one frame none = record { sent = frame ∷ []; outcome = returns tt }
write_one frame (some e) = record { sent = frame ∷ []; outcome = raises e }

unfoldable pub write_each : List Bytes → List (Option Exception) → Session (Unit {0})
write_each [] runs = only (returns tt)
write_each (frame ∷ frames) [] = only waits
write_each (frame ∷ frames) (run ∷ runs) =
    and_then (write_one frame run) (λ done. write_each frames runs)

-- `err` is a ValueError, before anything is sent.
unfoldable pub write_irrigation_program :
    Dates
    → ℤ
    → IrrigationProgram
    → Option DateInput
    → List (Option Exception)
    → Result (Session (Unit {0}))
write_irrigation_program dates program_index program today runs = do
  frames ← pack_set_irrigation_program dates program_index program today max_program_stations
  ok (write_each frames runs)

-- `if today is None: today = date.today()`
abbrev pub write_day : Dates → Option DateInput → DateInput
write_day dates none = a_date dates.today
write_day dates (some day) = day

abbrev pub no_mismatch : List Mismatch → Dict IrrigationProgram → Outcome (Dict IrrigationProgram)
no_mismatch [] programs = returns programs
no_mismatch (m ∷ ms) programs = raises connection_error

-- `programs.get(program_index)` against the expected program.
unfoldable pub verified_programs :
    ℤ → IrrigationProgram → ProgramSnapshot → Outcome (Dict IrrigationProgram)
verified_programs program_index expected snapshot =
    no_mismatch
      (irrigation_program_write_mismatches (lookup (pos_part program_index) snapshot.programs)
        expected)
      snapshot.programs

-- STATUS_NOTIFY_TIMEOUT and IRRIGATION_CONFIG_IDLE_TIMEOUT are `timeout` and `idle`; `readback` is the
-- run of the read that ends its executor.
unfoldable pub set_irrigation_program :
    Dates
    → ℕ
    → ℕ
    → ℤ
    → IrrigationProgram
    → Option DateInput
    → List (Option Exception)
    → ConfigCall
    → Result (Session (Dict IrrigationProgram))
unfolding verified_programs
set_irrigation_program dates idle timeout program_index program today runs readback = do
  let day = some (write_day dates today)
  expected ← normalize_irrigation_program_for_write dates program day max_program_stations
  written ← write_irrigation_program dates program_index program day runs
  ok (
      and_then written (λ done.
        and_then (only (get_irrigation_config idle timeout readback))
          (λ snapshot. only (verified_programs program_index expected snapshot))))
