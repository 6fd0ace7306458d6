-- ===== src/Client/Polls.antt =====
-- The operations of `get_status` and `get_firmware_version` of src/solem_blip_ble/client_v2.py, which
-- send one request and wait for a notification.
pub mod Heard
use solem_blip_ble.Common.{
  ℕ, ◌+◌, Bytes, List, [], ◌∷◌, Option, none, some, is_some, Bool, true, false, not, ◌||◌, Result,
  ok, err, leb, ltb, if◌then◌else◌,
}
use solem_blip_ble.Common.Text.{Str}
use solem_blip_ble.Protocol.Command.{pack_commit}
use solem_blip_ble.Protocol.Status.{SolemStatus}
use solem_blip_ble.Protocol.Metadata.{
  FirmwareVersion, pack_get_firmware_version, parse_controller_name_response,
  parse_firmware_version_response,
}
use solem_blip_ble.Client.Handlers.{StatusPoll, handle_status}
use solem_blip_ble.Client.Polling.{
  Exception, connection_error, Outcome, returns, raises, waits, handle_all,
}
use solem_blip_ble.Client.Session.{Session, only, unless_raised, and_then, PartWait, write_and_wait}

-- The handler on a connection: what it raises ends in the backend.
unfoldable pub on_poll : ℕ → StatusPoll → Bytes → StatusPoll
on_poll station_count s frame = elim (handle_status station_count s frame) [
  | ok s' ↦ s'
  | err e ↦ s
]

abbrev pub no_status : StatusPoll
no_status = record { status_result = none; status_event = false }

abbrev pub has_status : StatusPoll → Bool
has_status s = s.status_event

-- Watering at a station from 3 on, whose remaining time is not yet known.
unfoldable pub awaits_remaining : SolemStatus → Bool
awaits_remaining status =
    if status.is_watering
    then elim status.remaining_seconds [
      | some seconds ↦ false
      | none ↦ elim status.station_num [ none ↦ false | some station ↦ leb 3 station ]
    ]
    else false

-- What the poll meets: an exception of `_start_notify` or `_ensure_client`, the write with its wait, and
-- the notifications in the delay behind it.
pub record StatusLink : Type 0 where
  pub subscribed : Option Exception
  pub poll : PartWait
  pub settled : List Bytes

abbrev pub found_status : Option SolemStatus → Outcome SolemStatus
found_status none = raises connection_error
found_status (some status) = returns status

-- Behind the wait. The handler may still add to the dict in the delay.
unfoldable pub settle : ℕ → List Bytes → StatusPoll → Outcome SolemStatus
unfolding awaits_remaining
settle station_count settled s = elim s.status_result [
  | none ↦ raises connection_error
  | some status ↦
      if awaits_remaining status
      then found_status ((handle_all (on_poll station_count) s settled).status_result)
      else returns status
]

-- `timeout` is STATUS_NOTIFY_TIMEOUT.
unfoldable pub get_status : ℕ → ℕ → StatusLink → Session SolemStatus
unfolding settle
get_status station_count timeout link = unless_raised link.subscribed (
    and_then
      (write_and_wait has_status (on_poll station_count) timeout pack_commit link.poll no_status)
      (λ s. only (settle station_count link.settled s)))

-- The variables of the firmware read.
pub record FirmwareRead : Type 0 where
  pub firmware_version : Option FirmwareVersion
  pub firmware_event : Bool
  pub controller_name : Option Str
  pub name_event : Bool

-- `printable` is str.isprintable of one character.
abbrev pub with_name : Option Str → FirmwareRead → FirmwareRead
with_name none s = s
with_name (some name) s = record s { controller_name = some name; name_event = true }

abbrev pub with_version : Option FirmwareVersion → FirmwareRead → FirmwareRead
with_version none s = s
with_version (some version) s = record s { firmware_version = some version; firmware_event = true }

unfoldable pub handle_firmware : (ℕ → Bool) → FirmwareRead → Bytes → FirmwareRead
handle_firmware printable s frame =
    with_version (parse_firmware_version_response frame)
      (with_name (parse_controller_name_response printable frame) s)

abbrev pub no_firmware : FirmwareRead
no_firmware = record {
  firmware_version = none;
  firmware_event = false;
  controller_name = none;
  name_event = false;
}

abbrev pub has_firmware : FirmwareRead → Bool
has_firmware s = s.firmware_event

-- The notifications until the name has come, or the short timeout.
unfoldable pub wait_for_name : (ℕ → Bool) → List Bytes → FirmwareRead → FirmwareRead
wait_for_name printable [] s = s
wait_for_name printable (frame ∷ rest) s =
    let later = wait_for_name printable rest (handle_firmware printable s frame) in
    if s.name_event then s else later

pub record FirmwareLink : Type 0 where
  pub subscribed : Option Exception
  pub request : PartWait
  pub named : List Bytes

-- The version with the controller's name, which is optional.
abbrev pub named_version : FirmwareRead → Outcome (FirmwareVersion × Option Str)
named_version s = elim s.firmware_version [
  | none ↦ raises connection_error
  | some version ↦ returns (version, s.controller_name)
]

unfoldable pub get_firmware_version :
    (ℕ → Bool) → ℕ → FirmwareLink → Session (FirmwareVersion × Option Str)
unfolding wait_for_name
get_firmware_version printable timeout link = unless_raised link.subscribed (
    and_then
      (write_and_wait has_firmware (handle_firmware printable) timeout pack_get_firmware_version
        link.request no_firmware)
      (λ s. only (named_version (wait_for_name printable link.named s))))
