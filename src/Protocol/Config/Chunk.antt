-- ===== src/Protocol/Config/Chunk.antt =====
-- `_apply_irrigation_chunk` of src/solem_blip_ble/protocol.py: the fields that a fragment sets.
use solem_blip_ble.Common.{
  ℕ, zero, suc, ◌+◌, ◌-◌, ◌*◌, min, Bytes, at, length, take, drop, set, List, [], ◌++◌, Option,
  none, some, ltb, leb, ◌==◌, if◌then◌else◌, ℤ, pos, Result, ok, err, ◌>>=◌,
}
use solem_blip_ble.Common.Results.{out_of_range}
use solem_blip_ble.Common.Text.{decode_replace, until_nul}
use solem_blip_ble.Protocol.Program.{IrrigationProgram, disabled_start_time}
use solem_blip_ble.Protocol.Config.Fragment.{parse_config_int3, parse_controller_date}

-- `struct.unpack(">H", b[i:i + 2])[0]`, `b[i]` and `xs[i] = v`, which raise out of range.
unfoldable pub u16_at : Bytes → ℕ → Result ℕ
u16_at b i = if leb (i + 2) (length b) then ok (at b i * 256 + at b (i + 1)) else err out_of_range

unfoldable pub byte_at : Bytes → ℕ → Result ℕ
byte_at b i = if ltb i (length b) then ok (at b i) else err out_of_range

unfoldable pub set_item {ℓ} : {A : Type ℓ} → List A → ℕ → A → Result (List A)
set_item xs i v = if ltb i (length xs) then ok (set xs i v) else err out_of_range

-- `None if minutes >= DISABLED_START_TIME else minutes`
abbrev pub read_start : ℕ → Option ℤ
read_start minutes = if leb disabled_start_time minutes then none else some (pos minutes)

-- The loop over the slots from `slot` on; `offset` is 4 + 2 * slot.
unfoldable pub apply_starts : ℕ → ℕ → Bytes → List (Option ℤ) → Result (List (Option ℤ))
unfolding u16_at set_item
apply_starts zero slot frame starts = ok starts
apply_starts (suc rounds) slot frame starts = do
  minutes ← u16_at frame (4 + slot * 2)
  starts' ← set_item starts slot (read_start minutes)
  apply_starts rounds (suc slot) frame starts'

-- The loop over the stations of a chunk, which ends at `max_stations`.
unfoldable pub apply_durations : ℕ → ℕ → ℕ → Bytes → ℕ → List ℤ → Result (List ℤ)
unfolding byte_at set_item
apply_durations zero station offset frame max_stations durations = ok durations
apply_durations (suc rounds) station offset frame max_stations durations =
    let round = (do
      b0 ← byte_at frame offset
      b1 ← byte_at frame (offset + 1)
      b2 ← byte_at frame (offset + 2)
      durations' ← set_item durations station (pos (parse_config_int3 b0 b1 b2))
      apply_durations rounds (suc station) (offset + 3) frame max_stations durations') in
    if leb max_stations station then ok durations else round

-- What `_apply_irrigation_chunk` changes: the program, and the first part of the name.
abbrev pub Assembly : Type 0
Assembly = IrrigationProgram × Option Bytes

unfoldable pub apply_header : IrrigationProgram → Bytes → Result IrrigationProgram
unfolding u16_at byte_at
apply_header program frame = do
  delay ← u16_at frame 4
  budget ← u16_at frame 6
  cycle ← byte_at frame 8
  week_days ← byte_at frame 9
  period_length ← byte_at frame 10
  ok (record program {
    inter_station_delay = pos delay;
    water_budget = pos budget;
    cycle = pos cycle;
    week_days = pos week_days;
    period_length = pos period_length;
    synchro_day = if ltb 11 (length frame) then pos (at frame 11) else program.synchro_day;
    period_start_date = none;
    controller_date = parse_controller_date frame;
  })

abbrev pub name_bytes_or_empty : Option Bytes → Bytes
name_bytes_or_empty none = []
name_bytes_or_empty (some b) = b

-- `normalized[4:20]` up to a NUL.
abbrev pub name_part : Bytes → Bytes
name_part frame = until_nul (take 16 (drop 4 frame))

abbrev pub with_durations : Assembly → Result (List ℤ) → Result Assembly
with_durations (program, part) (ok durations) =
    ok (record program { station_durations = durations }, part)
with_durations s (err e) = err e

unfoldable pub apply_irrigation_chunk : Assembly → Bytes → ℕ → ℕ → Result Assembly
unfolding apply_header apply_starts apply_durations
apply_irrigation_chunk (program, part) frame chunk max_stations =
    if chunk == 0
    then ok (program, some (name_part frame))
    else if chunk == 1
    then ok (
      record program { name = decode_replace (name_bytes_or_empty part ++ name_part frame) },
      part,
    )
    else if chunk == 2
    then (apply_header program frame >>= λ p. ok (p, part))
    else if chunk == 3
    then (apply_starts 8 0 frame program.start_times >>= λ s.
        ok (record program { start_times = s }, part))
    else if chunk == 4
    then with_durations (program, part)
        (apply_durations 5 0 4 frame max_stations program.station_durations)
    else if chunk == 5
    then with_durations (program, part)
        (apply_durations 5 5 4 frame max_stations program.station_durations)
    else if chunk == 6
    then with_durations (program, part)
        (apply_durations (min 12 max_stations - 10) 10 4 frame max_stations
          program.station_durations)
    else ok (program, part)
