-- ===== src/Snapshot.antt =====
-- The program snapshots of src/solem_blip_ble/snapshot.py: building one from the frames of a
-- response, its revision, and the hidden slots. The edits stand in the children.
pub mod Patch
pub mod Restore
use Prim.Native.Nat.{◌≤◌}
use solem_blip_ble.Common.{
  ℕ, zero, suc, ◌+◌, ◌-◌, ◌/◌, ◌%◌, Bytes, byte, at, length, take, drop, List, [], ◌∷◌, ◌++◌, map,
  Bool, true, false, not, ◌&&◌, ◌||◌, Option, none, some, is_some, ltb, leb, ◌==◌, bytes_eq,
  list_eq, if◌then◌else◌, Result, ok, err, guard, ◌>>=◌, ◌>>◌,
}
use solem_blip_ble.Common.Results.{
  programs_incomplete, fragments_conflict, fragment_layout, slot_layout, slot_fragment_layout,
  out_of_range,
}
use solem_blip_ble.Common.Text.{Str}
use solem_blip_ble.Common.Dict.{Dict, lookup, insert, push, group_of, sort_desc}
use solem_blip_ble.Protocol.Program.{IrrigationProgram}
use solem_blip_ble.Protocol.Config.{
  normalize_config_notification, irrigation_config_complete, assemble_irrigation_programs,
  fragment_key, all_below,
}

abbrev pub fragment_lengths : List ℕ
fragment_lengths = 20 ∷ 20 ∷ 16 ∷ 20 ∷ 19 ∷ 19 ∷ 10 ∷ []

pub record ProgramSnapshot : Type 0 where
  pub frames : List Bytes
  pub blocks : Dict (List Bytes)
  pub extras : List Bytes
  pub programs : Dict IrrigationProgram

-- The order of bytes objects.
unfoldable pub bytes_le : Bytes → Bytes → Bool
bytes_le [] ys = true
bytes_le (x ∷ xs) [] = false
bytes_le (x ∷ xs) (y ∷ ys) =
    let rest = bytes_le xs ys in if ltb x y then true else if x == y then rest else false

-- `extras.add(frame)` on a set that is kept sorted.
unfoldable pub add_extra : Bytes → List Bytes → List Bytes
unfolding bytes_le
add_extra frame [] = frame ∷ []
add_extra frame (e ∷ es) =
    let later = add_extra frame es in
    if bytes_eq frame e then e ∷ es else if bytes_le frame e then frame ∷ e ∷ es else e ∷ later

-- The loop's variables. A group maps a fragment's id to the frame.
pub record Sorting : Type 0 where
  pub groups : Dict (Dict Bytes)
  pub extras : List Bytes

abbrev pub no_groups : Sorting
no_groups = record { groups = (0, []) ∷ (1, []) ∷ (2, []) ∷ []; extras = [] }

-- `old is not None and old != frame`
unfoldable pub conflicts : Option Bytes → Bytes → Bool
conflicts none frame = false
conflicts (some old) frame = not (bytes_eq old frame)

unfoldable pub add_frame : Bytes → Sorting → Result Sorting
unfolding conflicts
add_frame frame s =
    if not (at frame 3 / 16 == 1)
    then ok (record s { extras = add_extra frame s.extras })
    else elim (lookup (at frame 3 % 16) s.groups) [
      | none ↦ ok (record s { extras = add_extra frame s.extras })
      | some group ↦
          guard (not (conflicts (lookup (at frame 2) group) frame)) fragments_conflict
          >> ok (record s {
            groups = insert (at frame 3 % 16) (insert (at frame 2) frame group) s.groups;
          })
    ]

unfoldable pub sort_frames : List Bytes → Sorting → Result Sorting
sort_frames [] s = ok s
sort_frames (raw ∷ rest) s =
    (elim (normalize_config_notification raw) [ none ↦ ok s | some frame ↦ add_frame frame s ])
    >>= λ s'. sort_frames rest s'

abbrev pub group_key : ℕ × Bytes → ℕ
group_key (fragment, frame) = fragment

-- `frame[:2] + bytes([chunk]) + frame[3:]` for the frames in order.
unfoldable pub canonical : ℕ → List (ℕ × Bytes) → List Bytes
canonical chunk [] = []
canonical chunk ((fragment, frame) ∷ rest) =
    (take 2 frame ++ (chunk ∷ drop 3 frame)) ∷ canonical (suc chunk) rest

-- The last element's key, or the default.
unfoldable pub last_key {ℓ} : {A : Type ℓ} → (A → ℕ) → ℕ → List A → ℕ
last_key key d [] = d
last_key key d (x ∷ xs) = last_key key (key x) xs

-- `max - min` over a list that is sorted from the highest key down.
unfoldable pub key_span {ℓ} : {A : Type ℓ} → (A → ℕ) → List A → ℕ
unfolding last_key
key_span key [] = 0
key_span key (x ∷ xs) = key x - last_key key (key x) xs

unfoldable pub block_of : Dict Bytes → Result (List Bytes)
unfolding key_span
block_of group = do
  let ordered = sort_desc group_key group
  guard (length ordered == 7 && key_span group_key ordered == 6) fragment_layout
  ok (canonical 0 ordered)

unfoldable pub blocks_of : Dict (Dict Bytes) → Result (Dict (List Bytes))
blocks_of [] = ok []
blocks_of ((index, group) ∷ rest) = do
  block ← block_of group
  blocks ← blocks_of rest
  ok ((index, block) ∷ blocks)

unfoldable pub from_frames : List Bytes → Result ProgramSnapshot
from_frames frames = do
  guard (irrigation_config_complete frames 3) programs_incomplete
  sorting ← sort_frames frames no_groups
  blocks ← blocks_of sorting.groups
  programs ← assemble_irrigation_programs frames 12
  ok (record { frames = frames; blocks = blocks; extras = sorting.extras; programs = programs })

-- The bytes that are hashed: each frame behind its length in two bytes.
unfoldable pub digest_bytes : List Bytes → Bytes
digest_bytes [] = []
digest_bytes (frame ∷ rest) =
    byte (length frame) 8 ∷ byte (length frame) 0 ∷ (frame ++ digest_bytes rest)

unfoldable pub revision : (Bytes → Str) → ProgramSnapshot → Str
unfolding digest_bytes
revision sha256 s = sha256 (
    digest_bytes
      (group_of 0 s.blocks ++ (group_of 1 s.blocks ++ (group_of 2 s.blocks ++ s.extras))))

-- The frames among the extras that belong to a program slot, by their index.
unfoldable pub slot_groups : List Bytes → Dict (List Bytes) → Dict (List Bytes)
slot_groups [] grouped = grouped
slot_groups (frame ∷ rest) grouped =
    slot_groups rest
      (if at frame 3 / 16 == 1 then push (at frame 3 % 16) frame grouped else grouped)

-- `set(groups) == set(range(3, 12))`: each of the nine is a key, and there are nine keys.
unfoldable pub is_nine_slots : Dict (List Bytes) → Bool
unfolding all_below
is_nine_slots groups = length groups == 9 && all_below 9 (λ i. is_some (lookup (i + 3) groups))

-- Sorted from the highest id down by steps of one: distinct ids.
unfoldable pub is_strict_desc : List Bytes → Bool
is_strict_desc [] = true
is_strict_desc (a ∷ []) = true
is_strict_desc (a ∷ b ∷ rest) = ltb (at b 2) (at a 2) && is_strict_desc (b ∷ rest)

unfoldable pub has_slot_layout : List Bytes → Bool
unfolding key_span is_strict_desc
has_slot_layout ordered =
    length ordered == 7
    && (key_span fragment_key ordered == 6
        && (is_strict_desc ordered && list_eq ◌==◌ (map length ordered) fragment_lengths))

-- `frame[:3] + b"\x10" + frame[4:]`
abbrev pub as_first_program : Bytes → Bytes
as_first_program frame = take 3 frame ++ (0x10 ∷ drop 4 frame)

unfoldable pub first_program : Dict IrrigationProgram → Result IrrigationProgram
first_program programs = elim (lookup 0 programs) [ none ↦ err out_of_range | some p ↦ ok p ]

unfoldable pub decode_slots : Dict (List Bytes) → Result (Dict IrrigationProgram)
unfolding first_program
decode_slots [] = ok []
decode_slots ((index, group) ∷ rest) = do
  let ordered = sort_desc fragment_key group
  guard (has_slot_layout ordered) slot_fragment_layout
  assembled ← assemble_irrigation_programs (map as_first_program ordered) 12
  program ← first_program assembled
  programs ← decode_slots rest
  ok ((index, program) ∷ programs)

unfoldable pub additional_programs : ProgramSnapshot → Result (Dict IrrigationProgram)
additional_programs s = do
  let groups = slot_groups s.extras []
  guard (length groups == 0 || is_nine_slots groups) slot_layout
  decode_slots groups

unfoldable pub require_known_programs : ProgramSnapshot → Result (Unit {0})
require_known_programs s = additional_programs s >>= λ _. ok tt
