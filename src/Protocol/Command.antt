-- ===== src/Protocol/Command.antt =====
-- The command packers of src/solem_blip_ble/protocol.py: fixed frames, and frames with a checked
-- argument. Arguments are Python ints, so they may be negative.
pub mod Durations
use Prim.Native.Nat.{◌≤◌}
use solem_blip_ble.Common.{
  ℕ, ◌*◌, ◌%◌, Bytes, byte, ℤ, pos, pos_part, between, Result, ok, guard, ◌>>◌, [], ◌∷◌,
}
use solem_blip_ble.Common.Results.{
  days_range, seconds_range, station_range, minutes_range, program_range,
}

abbrev pub max_station_num : ℕ
max_station_num = 8

abbrev pub max_turn_off_days : ℕ
max_turn_off_days = 15

unfoldable pub pack_commit : Bytes
pack_commit = 0x3B ∷ 0x00 ∷ []

-- `struct.pack(">HBBBH", 0x3105, a, 0, b, 0)`
abbrev pub control_frame : ℕ → ℕ → Bytes
control_frame a b = 0x31 ∷ 0x05 ∷ a ∷ 0x00 ∷ b ∷ 0x00 ∷ 0x00 ∷ []

unfoldable pub pack_turn_on : Bytes
pack_turn_on = control_frame 0xA0 0x00

unfoldable pub pack_turn_off_permanent : Bytes
pack_turn_off_permanent = control_frame 0xC0 0x00

unfoldable pub pack_turn_off_x_days : ℤ → Result Bytes
pack_turn_off_x_days days = do
  guard (between 0 days max_turn_off_days) days_range
  ok (control_frame 0xC0 (pos_part days % 256))

-- Three bytes, most significant first.
unfoldable pub pack_v5_duration_command : ℕ → ℕ → ℤ → Result Bytes
pack_v5_duration_command opcode station seconds = do
  guard (between 1 seconds 0xFFFFFF) seconds_range
  ok (
      0x31
      ∷ 0x05
      ∷ (opcode % 256)
      ∷ (station % 256)
      ∷ byte (pos_part seconds) 16
      ∷ byte (pos_part seconds) 8
      ∷ byte (pos_part seconds) 0
      ∷ [])

unfoldable pub pack_sprinkle_station : ℤ → ℤ → Result Bytes
unfolding pack_v5_duration_command
pack_sprinkle_station station minutes = do
  guard (between 1 station max_station_num) station_range
  guard (between 1 minutes 240) minutes_range
  pack_v5_duration_command 0x12 (pos_part station) (pos (pos_part minutes * 60))

unfoldable pub pack_sprinkle_all_stations : ℤ → Result Bytes
unfolding pack_v5_duration_command
pack_sprinkle_all_stations minutes = do
  guard (between 1 minutes 240) minutes_range
  pack_v5_duration_command 0x11 0 (pos (pos_part minutes * 60))

unfoldable pub pack_run_program : ℤ → Result Bytes
pack_run_program program = do
  guard (between 1 program 3) program_range
  ok (control_frame 0x14 (pos_part program % 256))

unfoldable pub pack_stop_manual_sprinkle : Bytes
pack_stop_manual_sprinkle = control_frame 0x15 0xFF
