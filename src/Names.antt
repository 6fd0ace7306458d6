-- ===== src/Names.antt =====
-- The station-name snapshots of src/solem_blip_ble/station_names.py.
pub mod Rename
pub mod Collected
pub mod Complete
use Prim.Native.Nat.{◌≤◌}
use solem_blip_ble.Common.{
  ℕ, zero, suc, ◌+◌, ◌*◌, ◌%◌, max, Bytes, at, length, drop, List, [], ◌∷◌, ◌++◌, Bool, true, false,
  not, ◌&&◌, ◌||◌, Option, none, some, is_some, ltb, ◌==◌, bytes_eq, ℤ, Result, ok, guard, ◌>>=◌,
  ◌>>◌, pos_part,
}
use solem_blip_ble.Common.Results.{
  station_name_frame, station_name_conflict, station_names_incomplete,
}
use solem_blip_ble.Common.Text.{Str, until_nul, decode_replace}
use solem_blip_ble.Common.Dict.{Dict, lookup, insert, max_key, sort_desc}
use solem_blip_ble.Protocol.Metadata.{pack_station_name}
use mathlib.Core.List.{reverse}

-- `StationNameSnapshot.raw_names`
abbrev pub StationNameSnapshot : Type 0
StationNameSnapshot = Dict Bytes

-- `parts` and `sequences` of the loop over the frames.
pub record Fragments : Type 0 where
  pub parts : Dict (Dict Bytes)
  pub sequences : List ℕ

unfoldable pub is_name_fragment : Bytes → Bool
is_name_fragment frame =
    length frame == 20
    && ((at frame 0 == 0x36 || at frame 0 == 0x35) && (at frame 1 == 0x12 && ltb (at frame 3) 12))

abbrev pub group_or_empty : Option (Dict Bytes) → Dict Bytes
group_or_empty none = []
group_or_empty (some group) = group

-- `part in group and group[part] != frame[4:]`
unfoldable pub conflicts : Option Bytes → Bytes → Bool
conflicts none half = false
conflicts (some old) half = not (bytes_eq old half)

unfoldable pub add_fragment : Bytes → Fragments → Result Fragments
unfolding conflicts is_name_fragment
add_fragment frame s = do
  guard (is_name_fragment frame) station_name_frame
  let station = at frame 3 + 1
  let part = at frame 2 % 2
  let group = group_or_empty (lookup station s.parts)
  guard (not (conflicts (lookup part group) (drop 4 frame))) station_name_conflict
  ok (record {
    parts = insert station (insert part (drop 4 frame) group) s.parts;
    sequences = at frame 2 ∷ s.sequences;
  })

unfoldable pub collect : List Bytes → Fragments → Result Fragments
collect [] s = ok s
collect (frame ∷ rest) s = add_fragment frame s >>= λ s'. collect rest s'

-- `set(group) == {0, 1}`: no other key occurs.
unfoldable pub has_both_halves : Dict Bytes → Bool
has_both_halves group = is_some (lookup 0 group) && is_some (lookup 1 group)

unfoldable pub all_have_both : Dict (Dict Bytes) → Bool
unfolding has_both_halves
all_have_both [] = true
all_have_both ((station, group) ∷ rest) = has_both_halves group && all_have_both rest

-- Every station from 1 to the count is in `parts`.
unfoldable pub all_reported : ℕ → Dict (Dict Bytes) → Bool
all_reported zero parts = true
all_reported (suc n) parts = is_some (lookup (suc n) parts) && all_reported n parts

unfoldable pub contains_number : ℕ → List ℕ → Bool
contains_number n [] = false
contains_number n (m ∷ ms) = m == n || contains_number n ms

-- No number below the bound is missing.
unfoldable pub no_gap_below : ℕ → List ℕ → Bool
unfolding contains_number
no_gap_below zero sequences = true
no_gap_below (suc n) sequences = contains_number n sequences && no_gap_below n sequences

-- `max(sequences, default=-1) + 1`
unfoldable pub sequence_end : List ℕ → ℕ
sequence_end [] = 0
sequence_end (n ∷ ns) = max (suc n) (sequence_end ns)

abbrev pub entry_key {ℓ} : {V : Type ℓ} → ℕ × V → ℕ
entry_key (k, v) = k

-- Whether `details` stays empty.
unfoldable pub is_complete : ℕ → List Bytes → Fragments → Bool
unfolding all_have_both all_reported no_gap_below sequence_end
is_complete physical_stations frames s =
    all_have_both s.parts
    && (all_reported physical_stations s.parts
        && (not (ltb (length frames) (2 * max physical_stations (max_key entry_key s.parts)))
            && no_gap_below (sequence_end s.sequences) s.sequences))

abbrev pub half_or_empty : Option Bytes → Bytes
half_or_empty none = []
half_or_empty (some half) = half

-- `group[1] + group[0]`
abbrev pub joined_halves : Dict Bytes → Bytes
joined_halves group = half_or_empty (lookup 1 group) ++ half_or_empty (lookup 0 group)

unfoldable pub join_all : Dict (Dict Bytes) → Dict Bytes
join_all [] = []
join_all ((station, group) ∷ rest) = (station, joined_halves group) ∷ join_all rest

abbrev pub no_fragments : Fragments
no_fragments = record { parts = []; sequences = [] }

-- A `physical_stations` below 0 asks for no station, as 0 does.
unfoldable pub from_frames : List Bytes → ℕ → Result StationNameSnapshot
from_frames frames physical_stations = do
  s ← collect frames no_fragments
  guard (is_complete physical_stations frames s) station_names_incomplete
  ok (join_all s.parts)

-- One decoded name.
abbrev pub decoded_name : Bytes → Str
decoded_name raw = decode_replace (until_nul raw)

unfoldable pub names : StationNameSnapshot → Dict Str
names [] = []
names ((station, raw) ∷ rest) = (station, decoded_name raw) ∷ names rest

unfoldable pub named_stations : Dict Str → Dict Str
named_stations [] = []
named_stations ((station, []) ∷ rest) = named_stations rest
named_stations ((station, c ∷ s) ∷ rest) = (station, c ∷ s) ∷ named_stations rest

unfoldable pub station_count : StationNameSnapshot → ℕ
unfolding names named_stations
station_count snapshot = elim (named_stations (names snapshot)) [
  | [] ↦ max_key entry_key snapshot
  | entry ∷ rest ↦ max (entry_key entry) (max_key entry_key rest)
]

unfoldable pub reported_count : StationNameSnapshot → ℕ
reported_count snapshot = length snapshot

-- The bytes that are hashed: `bytes([station]) + raw` in the stations' order.
unfoldable pub revision_bytes : Dict Bytes → Bytes
revision_bytes [] = []
revision_bytes ((station, raw) ∷ rest) = station ∷ (raw ++ revision_bytes rest)

unfoldable pub revision : (Bytes → Str) → StationNameSnapshot → Str
unfolding revision_bytes
revision sha256 snapshot = sha256 (revision_bytes (reverse (sort_desc entry_key snapshot)))

-- `frames[0][4:] + frames[1][4:]`
unfoldable pub written_name : List Bytes → Bytes
written_name [] = []
written_name (a ∷ []) = drop 4 a
written_name (a ∷ b ∷ rest) = drop 4 a ++ drop 4 b

unfoldable pub renamed : StationNameSnapshot → ℤ → Str → ℤ → Result StationNameSnapshot
unfolding written_name
renamed snapshot station name physical_stations = do
  frames ← pack_station_name station name physical_stations
  ok (insert (pos_part station) (written_name frames) snapshot)
