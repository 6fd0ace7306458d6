-- ===== src/Snapshot/Restore.antt =====
-- `write_frames` and `validate_expected_write` of src/solem_blip_ble/snapshot.py: the write that
-- restores a snapshot, and the test that a write leads from one snapshot to another.
pub mod Blocks
pub mod Expected
pub mod Agreement
use solem_blip_ble.Common.{
  ℕ, zero, suc, ◌+◌, ◌-◌, ◌*◌, ◌%◌, Bytes, at, length, drop, List, [], ◌∷◌, ◌++◌, map, Bool, true,
  not, ◌&&◌, ◌||◌, Option, none, some, is_some, ltb, ◌==◌, bytes_eq, list_eq, if◌then◌else◌, Result,
  ok, err, guard, ◌>>=◌, ◌>>◌,
}
use solem_blip_ble.Common.Results.{
  twelve_slots, fragment_layout, preflight_layout, write_frame, write_layout, uncovered_change,
  write_mismatch,
}
use solem_blip_ble.Common.Dict.{Dict, lookup, insert, group_of, sort_desc}
use solem_blip_ble.Protocol.Config.{fragment_key}
use package.solem_blip_ble.Snapshot.{
  ProgramSnapshot, fragment_lengths, slot_groups, require_known_programs,
}

-- One write frame: the command and the chunk's number within it, from the chunk and its bytes.
unfoldable pub write_of : ℕ → Bytes → Bytes
write_of chunk frame =
    (if ltb chunk 2 then 0x2F else 0x37)
    ∷ (length frame - 2)
    ∷ (if ltb chunk 2 then chunk else chunk - 2)
    ∷ at frame 3
    ∷ drop 4 frame

unfoldable pub writes_from : ℕ → List Bytes → List Bytes
unfolding write_of
writes_from chunk [] = []
writes_from chunk (frame ∷ rest) = write_of chunk frame ∷ writes_from (suc chunk) rest

-- A/B/C blocks stand in chunk order; the hidden slots are sorted from the highest id down.
unfoldable pub ordered_group : ℕ → List Bytes → List Bytes
ordered_group index group = if ltb index 3 then group else sort_desc fragment_key group

-- The loop over the slots from `index` on.
unfoldable pub slot_writes : ℕ → ℕ → Dict (List Bytes) → Result (List Bytes)
unfolding writes_from ordered_group
slot_writes zero index grouped = ok []
slot_writes (suc rounds) index grouped = do
  let group = group_of index grouped
  guard (length group == 7) twelve_slots
  guard (list_eq ◌==◌ (map length (ordered_group index group)) fragment_lengths) fragment_layout
  rest ← slot_writes rounds (suc index) grouped
  ok (writes_from 0 (ordered_group index group) ++ rest)

abbrev pub first_blocks : ProgramSnapshot → Dict (List Bytes)
first_blocks s = (0, group_of 0 s.blocks) ∷ (1, group_of 1 s.blocks) ∷ (2, group_of 2 s.blocks) ∷ []

unfoldable pub write_frames : ProgramSnapshot → Result (List Bytes)
unfolding slot_writes
write_frames s =
    require_known_programs s >> slot_writes 12 0 (slot_groups s.extras (first_blocks s))

-- The key `(index, chunk)` of a dict, as one number; an index is below 16.
abbrev pub slot_key : ℕ → ℕ → ℕ
slot_key index chunk = index + 16 * chunk

-- `by_key[(index, chunk)] = frame` for the frames of one group, each under the index it names.
unfoldable pub key_block : ℕ → List Bytes → Dict Bytes → Dict Bytes
key_block chunk [] keyed = keyed
key_block chunk (frame ∷ rest) keyed =
    key_block (suc chunk) rest (insert (slot_key (at frame 3 % 16) chunk) frame keyed)

unfoldable pub key_slots : Dict (List Bytes) → Dict Bytes → Dict Bytes
unfolding key_block
key_slots [] keyed = keyed
key_slots ((index, group) ∷ rest) keyed =
    key_slots rest (key_block 0 (sort_desc fragment_key group) keyed)

-- Every frame of a snapshot by its slot and chunk.
unfoldable pub by_key : ProgramSnapshot → Dict Bytes
unfolding key_slots
by_key s = key_slots (slot_groups s.extras []) (
    key_block 0 (group_of 2 s.blocks)
      (key_block 0 (group_of 1 s.blocks) (key_block 0 (group_of 0 s.blocks) [])))

-- Every key of the first dict is a key of the second.
unfoldable pub keys_within : Dict Bytes → Dict Bytes → Bool
keys_within [] other = true
keys_within ((k, v) ∷ d) other = is_some (lookup k other) && keys_within d other

abbrev pub write_chunk : Bytes → ℕ
write_chunk frame = if at frame 0 == 0x2F then at frame 2 else at frame 2 + 2

unfoldable pub collect_written : List Bytes → Dict Bytes → Dict Bytes → Result (Dict Bytes)
collect_written [] current written = ok written
collect_written (frame ∷ rest) current written = do
  guard (not (ltb (length frame) 4) && (at frame 0 == 0x2F || at frame 0 == 0x37)) write_frame
  let key = slot_key (at frame 3 % 16) (write_chunk frame)
  guard (is_some (lookup key current) && ltb (write_chunk frame) 7) write_layout
  collect_written rest current (insert key (drop 4 frame) written)

-- What is expected of one key: the frame as it was, or the bytes that were written.
unfoldable pub agrees : Bytes → Option Bytes → Option Bytes → Result (Unit {0})
agrees current none payload = err preflight_layout
agrees current (some expected) none = guard (bytes_eq expected current) uncovered_change
agrees current (some expected) (some payload) =
    guard (bytes_eq (drop 4 expected) payload) write_mismatch

unfoldable pub check_keys : Dict Bytes → Dict Bytes → Dict Bytes → Result (Unit {0})
unfolding agrees
check_keys [] expected written = ok tt
check_keys ((k, frame) ∷ rest) expected written =
    agrees frame (lookup k expected) (lookup k written) >> check_keys rest expected written

unfoldable pub validate_expected_write :
    ProgramSnapshot → List Bytes → ProgramSnapshot → Result (Unit {0})
validate_expected_write s frames expected = do
  guard (keys_within (by_key s) (by_key expected) && keys_within (by_key expected) (by_key s))
      preflight_layout
  written ← collect_written frames (by_key s) []
  check_keys (by_key s) (by_key expected) written
