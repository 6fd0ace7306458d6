-- ===== src/Snapshot/Patch.antt =====
-- `patch` of src/solem_blip_ble/snapshot.py: fields written into the bytes of one program's blocks.
pub mod Layout
use Prim.Native.Nat.{◌≤◌}
use solem_blip_ble.Common.{
  ℕ, suc, ◌+◌, ◌-◌, ◌*◌, max, Bytes, byte, at, length, take, drop, set, get_or, List, [], ◌∷◌, ◌++◌,
  Bool, true, false, not, ◌&&◌, ◌||◌, Option, none, some, is_some, ltb, leb, ◌==◌, bytes_eq,
  list_eq, if◌then◌else◌, ℤ, pos, negsuc, pos_part, between, Result, ok, err, guard, ◌>>=◌, ◌>>◌,
}
use solem_blip_ble.Common.Results.{
  program_or_station_count, cycle_mode, block_lengths, integer_range, program_name_text,
  start_slots, interval_invariant, field_range, out_of_range,
}
use solem_blip_ble.Common.Text.{Str, encode, ljust}
use solem_blip_ble.Common.Dict.{Dict, lookup, group_of}
use solem_blip_ble.Protocol.Program.{disabled_start_time}
use solem_blip_ble.Protocol.Config.{normalize_config_notification}
use solem_blip_ble.Protocol.Metadata.{has_nul}
use package.solem_blip_ble.Snapshot.{
  ProgramSnapshot, fragment_lengths, require_known_programs, from_frames,
}
use solem_blip_ble.Snapshot.Restore.{writes_from}

-- A value given for a number: `none` is one that is no int, or a bool.
abbrev pub NumberArg : Type 0
NumberArg = Option ℤ

-- A start slot: `None`, or a value.
pub data SlotArg : Type 0 where
  no_start : SlotArg
  start_at : NumberArg → SlotArg

-- An entry of `changes`. A text, list or dict of `none` is a value of another type.
pub data Change : Type 0 where
  name : Option Str → Change
  inter_station_delay water_budget cycle week_days period_length synchro_day : NumberArg → Change
  start_times : Option (List SlotArg) → Change
  station_durations : Option (List (NumberArg × NumberArg)) → Change
  unsupported : Str → Change

unfoldable pub integer : NumberArg → ℕ → ℕ → Result ℕ
integer none maximum minimum = err integer_range
integer (some value) maximum minimum =
    guard (between minimum value maximum) integer_range >> ok (pos_part value)

-- `frame[i:i + len(b)] = b`
unfoldable pub splice : ℕ → Bytes → Bytes → Bytes
splice i b frame = take i frame ++ (b ++ drop (i + length b) frame)

-- The same in one block of the list.
unfoldable pub splice_block : ℕ → ℕ → Bytes → List Bytes → List Bytes
unfolding splice
splice_block chunk i b blocks = set blocks chunk (splice i b (get_or blocks chunk []))

abbrev pub two_bytes : ℕ → Bytes
two_bytes n = byte n 8 ∷ byte n 0 ∷ []

abbrev pub three_bytes : ℕ → Bytes
three_bytes n = byte n 16 ∷ byte n 8 ∷ byte n 0 ∷ []

unfoldable pub slot_minutes : SlotArg → Result ℕ
unfolding integer
slot_minutes no_start = ok disabled_start_time
slot_minutes (start_at value) = integer value 1439 0

unfoldable pub patch_starts : ℕ → List SlotArg → List Bytes → Result (List Bytes)
unfolding slot_minutes splice_block
patch_starts slot [] blocks = ok blocks
patch_starts slot (value ∷ rest) blocks = do
  minutes ← slot_minutes value
  patch_starts (suc slot) rest (splice_block 3 (4 + slot * 2) (two_bytes minutes) blocks)

-- The chunk and the slot of a station that counts from 0.
unfoldable pub duration_place : ℕ → ℕ × ℕ
duration_place station =
    if ltb station 5
    then (4, station)
    else if ltb station 10
    then (5, station - 5)
    else (6, station - 10)

unfoldable pub patch_duration : ℕ → ℕ → List Bytes → List Bytes
unfolding duration_place splice_block
patch_duration station seconds blocks =
    let (chunk, slot) = duration_place station in
    splice_block chunk (4 + slot * 3) (three_bytes seconds) blocks

unfoldable pub patch_durations : ℕ → List (NumberArg × NumberArg) → List Bytes → Result (List Bytes)
unfolding integer patch_duration
patch_durations physical [] blocks = ok blocks
patch_durations physical ((station, seconds) ∷ rest) blocks = do
  place ← integer station physical 1
  value ← integer seconds 0xFFFFFF 0
  patch_durations physical rest (patch_duration (place - 1) value blocks)

-- One byte of the header block.
unfoldable pub patch_header_byte : ℕ → NumberArg → ℕ → ℕ → List Bytes → Result (List Bytes)
unfolding integer splice_block
patch_header_byte offset value maximum minimum blocks = do
  n ← integer value maximum minimum
  ok (splice_block 2 offset (n ∷ []) blocks)

unfoldable pub patch_header_word : ℕ → NumberArg → List Bytes → Result (List Bytes)
unfolding integer splice_block
patch_header_word offset value blocks = do
  n ← integer value 65535 0
  ok (splice_block 2 offset (two_bytes n) blocks)

unfoldable pub patch_name : Str → List Bytes → Result (List Bytes)
unfolding splice_block
patch_name text blocks = do
  guard (not (has_nul text) && leb (length (encode text)) 31) program_name_text
  let encoded = ljust 31 (encode text)
  ok (splice_block 1 4 (drop 16 encoded) (splice_block 0 4 (take 16 encoded) blocks))

-- The body of the loop over the changes.
unfoldable pub apply_change : ℕ → Change → List Bytes → Result (List Bytes)
unfolding patch_name patch_header_word patch_header_byte patch_starts patch_durations
apply_change physical (name none) blocks = err program_name_text
apply_change physical (name (some text)) blocks = patch_name text blocks
apply_change physical (inter_station_delay value) blocks = patch_header_word 4 value blocks
apply_change physical (water_budget value) blocks = patch_header_word 6 value blocks
apply_change physical (cycle value) blocks = patch_header_byte 8 value 4 0 blocks
apply_change physical (week_days value) blocks = patch_header_byte 9 value 127 0 blocks
apply_change physical (period_length value) blocks = patch_header_byte 10 value 255 1 blocks
apply_change physical (synchro_day value) blocks = patch_header_byte 11 value 255 0 blocks
apply_change physical (start_times none) blocks = err start_slots
apply_change physical (start_times (some slots)) blocks =
    guard (length slots == 8) start_slots >> patch_starts 0 slots blocks
apply_change physical (station_durations none) blocks = err integer_range
apply_change physical (station_durations (some entries)) blocks =
    patch_durations physical entries blocks
apply_change physical (unsupported key) blocks = ok blocks

unfoldable pub apply_changes : ℕ → List Change → List Bytes → Result (List Bytes)
apply_changes physical [] blocks = ok blocks
apply_changes physical (change ∷ rest) blocks =
    apply_change physical change blocks >>= λ blocks'. apply_changes physical rest blocks'

-- `set(changes) - supported` is empty.
unfoldable pub all_supported : List Change → Bool
all_supported [] = true
all_supported (unsupported key ∷ rest) = false
all_supported (_ ∷ rest) = all_supported rest

-- `index in self.blocks`
abbrev pub has_index : ℤ → Dict (List Bytes) → Bool
has_index (pos i) blocks = is_some (lookup i blocks)
has_index (negsuc i) blocks = false

unfoldable pub has_known_cycle : ProgramSnapshot → ℕ → Result (Unit {0})
has_known_cycle s index = elim (lookup index s.programs) [
  | none ↦ err out_of_range
  | some program ↦ guard (between 0 program.cycle 4) cycle_mode
]

-- `any(len(frame) != length for frame, length in zip(blocks, _FRAGMENT_LENGTHS))` fails: `zip` ends
-- with the shorter list.
unfoldable pub lengths_match : List Bytes → List ℕ → Bool
lengths_match [] lengths = true
lengths_match (frame ∷ rest) [] = true
lengths_match (frame ∷ rest) (n ∷ lengths) = length frame == n && lengths_match rest lengths

-- The cycle-4 rule on the header block after the patch.
unfoldable pub keeps_interval_rule : List Bytes → Bool
keeps_interval_rule blocks =
    let header = get_or blocks 2 [] in
    not (at header 8 == 4) || (not (at header 10 == 0) && ltb (at header 11) (at header 10))

-- `frame[3] == 0x10 + index` on a normalised frame.
abbrev pub is_of_program : ℕ → Bytes → Bool
is_of_program index frame = at frame 3 == 0x10 + index

-- `max(frame[2] ...)` over the program's frames.
unfoldable pub first_fragment : ℕ → List Bytes → ℕ
first_fragment index [] = 0
first_fragment index (raw ∷ rest) =
    let later = first_fragment index rest in
    elim (normalize_config_notification raw) [
      | none ↦ later
      | some frame ↦ if is_of_program index frame then max (at frame 2) later else later
    ]

-- The response that the patched blocks would give: `blocks[first - frame[2]][4:]` behind the head.
unfoldable pub expected_response : ℕ → ℕ → List Bytes → List Bytes → List Bytes
expected_response index first blocks [] = []
expected_response index first blocks (raw ∷ rest) =
    (elim (normalize_config_notification raw) [
      | none ↦ raw
      | some frame ↦
          if is_of_program index frame
          then take 4 frame ++ drop 4 (get_or blocks (first - at frame 2) [])
          else raw
    ])
    ∷ expected_response index first blocks rest

-- What remains once the changes are applied: the rule, and the frames unless nothing changed.
unfoldable pub finish_patch :
    ProgramSnapshot → ℕ → List Bytes → Result (List Bytes × ProgramSnapshot)
unfolding keeps_interval_rule expected_response first_fragment
finish_patch s index blocks = do
  guard (keeps_interval_rule blocks) interval_invariant
  (if list_eq bytes_eq blocks (group_of index s.blocks)
      then ok ([], s)
      else from_frames (expected_response index (first_fragment index s.frames) blocks s.frames)
        >>= λ expected. ok (writes_from 0 blocks, expected))

unfoldable pub patch : ProgramSnapshot → ℤ → List Change → ℤ → Result (List Bytes × ProgramSnapshot)
patch s index changes physical_stations = do
  require_known_programs s
  guard (has_index index s.blocks && between 1 physical_stations 12) program_or_station_count
  guard (all_supported changes) field_range
  has_known_cycle s (pos_part index)
  guard (lengths_match (group_of (pos_part index) s.blocks) fragment_lengths) block_lengths
  blocks ← apply_changes (pos_part physical_stations) changes (group_of (pos_part index) s.blocks)
  finish_patch s (pos_part index) blocks
