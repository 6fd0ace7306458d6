-- ===== src/Client/Handlers.antt =====
-- The notification handlers of src/solem_blip_ble/client_v2.py: each takes the state that its
-- operation keeps and one frame, and returns the new state. `none` stands for an exception in the
-- handler, which the parser of status frames could raise.
pub mod Acknowledged
use Prim.Native.Nat.{◌≤◌}
use solem_blip_ble.Common.{
  ℕ, Bytes, at, length, take, List, [], ◌∷◌, ◌++◌, Bool, true, false, not, ◌&&◌, ◌||◌, Option, none,
  some, is_some, ltb, leb, ◌==◌, bytes_eq, if◌then◌else◌, Result, ok, ◌>>=◌,
}
use solem_blip_ble.Protocol.Status.{
  SolemStatus, parse_status_notification, parse_intermediate_remaining, is_command_notification,
}
use solem_blip_ble.Protocol.Metadata.{parse_set_time_reply}

-- `_StationNameWriteSession`: `reading` is the phase "preflight" or "readback".
pub record NameWrite : Type 0 where
  pub reading : Bool
  pub acknowledged : Bool
  pub rejected : Bool
  pub expected_header : Option Bytes
  pub read_frames : List Bytes
  pub last_reply_header : Bytes
  pub last_reply_length : ℕ

-- The prefixes 36 12 and 35 12 of the frames that a name read collects.
abbrev pub is_name_frame : Bytes → Bool
is_name_frame frame =
    bytes_eq (take 2 frame) (0x36 ∷ 0x12 ∷ []) || bytes_eq (take 2 frame) (0x35 ∷ 0x12 ∷ [])

unfoldable pub name_frames : List Bytes → List Bytes
name_frames [] = []
name_frames (frame ∷ rest) =
    if is_name_frame frame then frame ∷ name_frames rest else name_frames rest

abbrev pub is_expected : Bytes → Option Bytes → Bool
is_expected header none = false
is_expected header (some expected) = bytes_eq header expected

unfoldable pub handle_name_reply : NameWrite → Bytes → NameWrite
handle_name_reply s frame =
    if bytes_eq frame (0x34 ∷ 0x00 ∷ [])
    then record s { acknowledged = true }
    else if ltb (length frame) 3 || not (at frame 0 == 0x34)
    then s
    else if at frame 2 == 0xF0 || (ltb 3 (length frame) && at frame 3 == 0xF0)
    then record s { rejected = true; acknowledged = true }
    else if is_expected (take 4 frame) s.expected_header
    then record s { acknowledged = true }
    else s

unfoldable pub handle_name_notification : NameWrite → Bytes → NameWrite
unfolding handle_name_reply
handle_name_notification s frame =
    if s.reading
    then (if bytes_eq (take 2 frame) (0x36 ∷ 0x12 ∷ [])
          || bytes_eq (take 2 frame) (0x35 ∷ 0x12 ∷ [])
        then record s { read_frames = s.read_frames ++ (frame ∷ []) }
        else s)
    else handle_name_reply
        (record s { last_reply_header = take 4 frame; last_reply_length = length frame }) frame

-- `get_status`: the dict, empty at first, and the event.
pub record StatusPoll : Type 0 where
  pub status_result : Option SolemStatus
  pub status_event : Bool

-- The remaining time of a seq 0x01 frame, where the poll still lacks it.
unfoldable pub late_remaining : ℕ → SolemStatus → Bytes → Option ℕ
late_remaining station_count status frame =
    if leb 3 (length frame)
      && (at frame 2 == 1 && (status.is_watering && not (is_some status.remaining_seconds)))
    then elim status.station_num [
      | none ↦ none
      | some station ↦ parse_intermediate_remaining frame station station_count
    ]
    else none

unfoldable pub add_late_remaining : ℕ → StatusPoll → SolemStatus → Bytes → StatusPoll
add_late_remaining station_count s status frame = elim (late_remaining station_count status frame) [
  | none ↦ s
  | some remaining ↦ record {
    status_result = some (record status { remaining_seconds = some remaining });
    status_event = true;
  }
]

unfoldable pub handle_status : ℕ → StatusPoll → Bytes → Result StatusPoll
handle_status station_count s frame = parse_status_notification frame station_count >>= λ parsed.
    ok (elim parsed [
      | some status ↦ record { status_result = some status; status_event = true }
      | none ↦ elim s.status_result [
        | none ↦ s
        | some status ↦ add_late_remaining station_count s status frame
      ]
    ])

-- `_execute_command`: the last status, and the event of a seq 0x00 frame.
pub record CommandWait : Type 0 where
  pub last_status : Option SolemStatus
  pub response_event : Bool

unfoldable pub handle_command : ℕ → CommandWait → Bytes → Result CommandWait
handle_command station_count s frame =
    if is_command_notification frame
    then (parse_status_notification frame station_count >>= λ parsed. ok (record {
      last_status = elim parsed [ none ↦ s.last_status | some status ↦ some status ];
      response_event = s.response_event || at frame 2 == 0;
    }))
    else ok s

-- `set_time`: the status dict, both events and the reply.
pub record TimeSync : Type 0 where
  pub status_result : Option SolemStatus
  pub status_event : Bool
  pub reply_event : Bool
  pub reply_acknowledged : Option Bool

unfoldable pub handle_time : ℕ → TimeSync → Bytes → Result TimeSync
handle_time station_count s frame = parse_status_notification frame station_count >>= λ parsed.
    ok (elim parsed [
      | some status ↦ record s { status_result = some status; status_event = true }
      | none ↦ elim (parse_set_time_reply frame) [
        | none ↦ s
        | some reply ↦ record s { reply_acknowledged = some reply; reply_event = true }
      ]
    ])
