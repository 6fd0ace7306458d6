-- ===== src/Protocol/Config/Fragment.antt =====
-- The notifications of a configuration read in src/solem_blip_ble/protocol.py: their layouts and what
-- a fragment holds.
use solem_blip_ble.Common.{
  ℕ, ◌+◌, ◌-◌, ◌*◌, ◌/◌, ◌%◌, Bytes, at, length, drop, replicate, get_or, List, [], ◌∷◌, Bool, ◌&&◌,
  ◌||◌, Option, none, some, ltb, leb, ◌==◌, if◌then◌else◌, ℤ, pos, negsuc,
}
use solem_blip_ble.Common.Calendar.{Date, is_date}
use solem_blip_ble.Protocol.Program.{IrrigationProgram}

pub record IrrigationConfigFragment : Type 0 where
  pub program_index : ℕ
  pub fragment_id : ℕ
  pub logical_chunk : ℤ

unfoldable pub pack_get_irrigation_config : Bytes
pack_get_irrigation_config = 0x39 ∷ 0x00 ∷ []

-- `op in (0x2F, 0x37, 0x39, 0x3A)`
unfoldable pub is_config_op : ℕ → Bool
is_config_op op = op == 0x2F || (op == 0x37 || (op == 0x39 || op == 0x3A))

unfoldable pub normalize_config_notification : Bytes → Option Bytes
normalize_config_notification frame =
    if ltb (length frame) 4
    then none
    else if is_config_op (at frame 0)
    then some frame
    else if at frame 0 == 0x30
    then some (0x2F ∷ drop 1 frame)
    else if at frame 0 == 0x38
    then some (0x37 ∷ drop 1 frame)
    else if at frame 0 == 0x10 && (leb 5 (length frame) && is_config_op (at frame 1))
    then some (drop 1 frame)
    else if at frame 0 == 0x10 && (leb 5 (length frame) && at frame 1 == 0x30)
    then some (0x2F ∷ drop 2 frame)
    else if at frame 0 == 0x10 && (leb 5 (length frame) && at frame 1 == 0x38)
    then some (0x37 ∷ drop 2 frame)
    else none

-- The operands of `|` are three bytes, so it is a sum.
unfoldable pub parse_config_int3 : ℕ → ℕ → ℕ → ℕ
parse_config_int3 b0 b1 b2 = b0 * 65536 + b1 * 256 + b2

unfoldable pub parse_controller_date : Bytes → Option Date
parse_controller_date normalized =
    if ltb (length normalized) 16
    then none
    else let day = at normalized 12 in
      let month = at normalized 13 in
      let year = at normalized 14 * 256 + at normalized 15 in
      if leb 2000 year
        && leb year 2100
        && (leb 1 month && leb month 12 && (leb 1 day && leb day 31))
      then (if is_date year month day
          then some (record { year = year; month = month; day = day })
          else none)
      else none

unfoldable pub empty_irrigation_program : ℕ → IrrigationProgram
empty_irrigation_program max_stations = record {
  name = [];
  inter_station_delay = pos 0;
  water_budget = pos 0;
  cycle = pos 0;
  week_days = pos 0;
  period_length = pos 0;
  synchro_day = pos 0;
  period_start_date = none;
  controller_date = none;
  start_times = replicate 8 none;
  station_durations = replicate max_stations (pos 0);
}

abbrev pub irrigation_chunk_min_lengths : List ℕ
irrigation_chunk_min_lengths = 20 ∷ 20 ∷ 11 ∷ 20 ∷ 19 ∷ 19 ∷ 10 ∷ []

abbrev pub irrigation_logical_chunks : ℕ
irrigation_logical_chunks = 7

-- A frame of a program of the class that the library reads, with its index.
unfoldable pub is_program_frame : Bytes → Bool
is_program_frame normalized = at normalized 3 / 16 == 1 && ltb (at normalized 3 % 16) 3

-- The chunk of a fragment, given the first fragment's id: both range checks.
unfoldable pub logical_chunk_of : Bytes → ℕ → Option ℕ
logical_chunk_of normalized first =
    if leb (at normalized 2) first
      && (ltb (first - at normalized 2) irrigation_logical_chunks
          && leb (get_or irrigation_chunk_min_lengths (first - at normalized 2) 0)
              (length normalized))
    then some (first - at normalized 2)
    else none

unfoldable pub parse_irrigation_config_fragment : Bytes → Option ℕ → Option IrrigationConfigFragment
parse_irrigation_config_fragment frame first = elim (normalize_config_notification frame) [
  | none ↦ none
  | some normalized ↦
      if is_program_frame normalized
      then elim first [
        | none ↦ some (record {
          program_index = at normalized 3 % 16;
          fragment_id = at normalized 2;
          logical_chunk = negsuc 0;
        })
        | some first_id ↦ elim (logical_chunk_of normalized first_id) [
          | none ↦ none
          | some chunk ↦ some (record {
            program_index = at normalized 3 % 16;
            fragment_id = at normalized 2;
            logical_chunk = pos chunk;
          })
        ]
      ]
      else none
]
