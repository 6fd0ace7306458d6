-- ===== src/Protocol/Metadata.antt =====
-- Output names, firmware version, set-time and controller name in src/solem_blip_ble/protocol.py.
use solem_blip_ble.Common.{
  ℕ, ◌+◌, ◌-◌, ◌*◌, ◌%◌, Bytes, at, length, take, drop, Bool, true, false, not, ◌&&◌, ◌||◌, Option,
  none, some, [], ◌∷◌, ◌++◌, ltb, leb, ◌==◌, if◌then◌else◌, ℤ, between, pos_part, Result, ok, guard,
  ◌>>◌,
}
use solem_blip_ble.Common.Results.{station_range, station_name_text, station_name_length}
use solem_blip_ble.Common.Text.{Str, encode, decode_strict, until_nul, strip, ljust, decimal}
use solem_blip_ble.Common.Calendar.{Moment}
use mathlib.Core.List.{List}

pub record FirmwareVersion : Type 0 where
  pub major : ℕ
  pub minor : ℕ
  pub patch : ℕ
  pub raw_hex : Str

pub record StationNameFragment : Type 0 where
  pub station : ℕ
  pub sequence : ℕ
  pub name_bytes : Bytes

unfoldable pub pack_get_station_names : Bytes
pack_get_station_names = 0x35 ∷ 0x00 ∷ []

unfoldable pub parse_station_name_fragment : Bytes → Option StationNameFragment
parse_station_name_fragment frame =
    if ltb (length frame) 20
      || (not (at frame 0 == 0x35 || at frame 0 == 0x36) || not (at frame 1 == 0x12))
    then none
    else some (record {
      station = at frame 3 + 1;
      sequence = at frame 2 % 2;
      name_bytes = until_nul (take 16 (drop 4 frame));
    })

unfoldable pub pack_get_firmware_version : Bytes
pack_get_firmware_version = 0x0F ∷ 0x00 ∷ []

-- `when or now()`; 2048 is added so that `& 0xFF` of a year before 1900 comes out right.
unfoldable pub pack_set_time : Moment → Option Moment → Bytes
pack_set_time now chosen =
    let moment : Moment = elim chosen [ some m ↦ m | none ↦ now ] in
    0x03
    ∷ 0x06
    ∷ 0x00
    ∷ ((moment.year + 2048 - 1900) % 256)
    ∷ (moment.month % 256)
    ∷ (moment.day % 256)
    ∷ (moment.hour % 256)
    ∷ (moment.minute % 256)
    ∷ (moment.second % 256)
    ∷ []

unfoldable pub parse_set_time_reply : Bytes → Option Bool
parse_set_time_reply frame =
    if ltb (length frame) 2 || not (at frame 0 == 0x04)
    then none
    else let rejected =
        ltb 2 (length frame) && at frame 2 == 0xF0 || ltb 3 (length frame) && at frame 3 == 0xF0 in
      some (not rejected)

unfoldable pub parse_firmware_version_response : Bytes → Option FirmwareVersion
parse_firmware_version_response frame =
    if ltb (length frame) 17
    then none
    else if at frame 0 == 0x0F && at frame 2 == 0x01
        || at frame 0 == 0x10 && (at frame 1 == 0x0F && at frame 2 == 0x01)
    then some (record {
      major = at frame 12;
      minor = at frame 13;
      patch = at frame 14;
      raw_hex =
          decimal (at frame 12)
          ++ (b'.' ∷ (decimal (at frame 13) ++ (b'.' ∷ decimal (at frame 14))));
    })
    else none

-- `any(b)`
unfoldable pub any_byte : Bytes → Bool
any_byte [] = false
any_byte (b ∷ bs) = not (b == 0) || any_byte bs

-- `name if name and name.isprintable() else None`; `printable` is Unicode's table.
unfoldable pub all_printable : (ℕ → Bool) → Str → Bool
all_printable printable [] = true
all_printable printable (c ∷ s) = printable c && all_printable printable s

unfoldable pub named : (ℕ → Bool) → Str → Option Str
unfolding all_printable
named printable [] = none
named printable (c ∷ s) = if all_printable printable (c ∷ s) then some (c ∷ s) else none

-- The bytes of the name in a complete record: `data[3:data[1] + 2]`.
unfoldable pub name_field : Bytes → Bytes
name_field frame = take (at frame 1 + 2 - 3) (drop 3 frame)

unfoldable pub is_name_record : Bytes → Bool
unfolding any_byte
is_name_record frame =
    leb 17 (length frame)
    && (leb (length frame) 20
        && (at frame 0 == 0x10
            && ((at frame 1 == 0x0F || at frame 1 == 0x10)
                && (at frame 2 == 0
                    && (leb (at frame 1 + 2) (length frame)
                        && not (any_byte (drop (at frame 1 + 2) frame)))))))

unfoldable pub parse_controller_name_response : (ℕ → Bool) → Bytes → Option Str
parse_controller_name_response printable frame =
    if is_name_record frame
    then elim (decode_strict (until_nul (name_field frame))) [
      | none ↦ none
      | some s ↦ named printable (strip s)
    ]
    else none

-- `"\0" in name`
unfoldable pub has_nul : Str → Bool
has_nul [] = false
has_nul (c ∷ s) = c == 0 || has_nul s

abbrev pub is_empty : Str → Bool
is_empty [] = true
is_empty (c ∷ s) = false

-- One of the two frames: the part, the output's index and 16 bytes.
abbrev pub name_frame : ℕ → ℕ → Bytes → Bytes
name_frame part index padded = 0x33 ∷ 0x12 ∷ part ∷ index ∷ take 16 (drop (16 * part) padded)

-- `station` and `name` are of the types that the code checks for.
unfoldable pub pack_station_name : ℤ → Str → ℤ → Result (List Bytes)
pack_station_name station name physical_stations = do
  guard (between 1 station (pos_part physical_stations) && between 0 physical_stations 12)
      station_range
  guard (not (is_empty (strip name) || has_nul name)) station_name_text
  let encoded = encode name
  guard (leb (length encoded) 32) station_name_length
  let padded = ljust 32 encoded
  let index = pos_part station - 1
  ok (name_frame 0 index padded ∷ name_frame 1 index padded ∷ [])
