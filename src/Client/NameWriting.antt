-- ===== src/Client/NameWriting.antt =====
-- `write_station_name` of src/solem_blip_ble/client_v2.py: the preflight, the two frames with their
-- acknowledgements and the readback on one connection, and the exceptions that it makes of theirs.
pub mod Plan
pub mod Verified
use solem_blip_ble.Common.{
  ℕ, Bytes, length, take, drop, List, [], ◌∷◌, Bool, true, false, Option, none, some, list_eq, ◌==◌,
  if◌then◌else◌, Result, ok, err, ◌>>=◌, ℤ, pos_part,
}
use solem_blip_ble.Common.Text.{Str}
use solem_blip_ble.Names.{StationNameSnapshot, revision}
use solem_blip_ble.Protocol.Metadata.{pack_station_name, pack_get_station_names}
use solem_blip_ble.Client.Handlers.{NameWrite, handle_name_notification}
use solem_blip_ble.Client.Polling.{
  Exception, stale_program, uncertain_write, invalid_snapshot, write_rejected, Outcome, returns,
  raises, waits,
}
use solem_blip_ble.Client.Session.{
  Session, only, unless_raised, judged, and_then, PartWait, write_and_wait,
}
use package.solem_blip_ble.Client.Reading.{ReadCall, read_station_names}

-- STATION_NAMES_IDLE_TIMEOUT, STATUS_NOTIFY_TIMEOUT and `max_station_num`.
pub record NameLimits : Type 0 where
  pub idle : ℕ
  pub timeout : ℕ
  pub max_station_num : ℤ

-- `subscribed` is the exception of `_run_operation`, `_start_notify` or `_ensure_client` before the
-- preflight, if there is one.
pub record NameLink : Type 0 where
  pub subscribed : Option Exception
  pub preflight : ReadCall
  pub parts : List PartWait
  pub readback : ReadCall

-- A name read, with its request.
abbrev pub name_read : NameLimits → ReadCall → Session StationNameSnapshot
name_read limits call = record {
  sent = pack_get_station_names ∷ [];
  outcome = read_station_names limits.idle limits.timeout (pos_part limits.max_station_num) call;
}

-- The session before the write of a part.
abbrev pub name_part : Bytes → NameWrite → NameWrite
name_part frame s = record s {
  reading = false;
  expected_header = some (0x34 ∷ take 3 (drop 1 frame));
  acknowledged = false;
  rejected = false;
}

abbrev pub name_acknowledged : NameWrite → Bool
name_acknowledged s = s.acknowledged

-- One turn of the loop over the two frames.
unfoldable pub write_name_part : ℕ → Bytes → PartWait → NameWrite → Session NameWrite
write_name_part timeout frame part s =
    and_then
      (write_and_wait name_acknowledged handle_name_notification timeout frame part
        (name_part frame s))
      (λ s'. only (if s'.rejected then raises uncertain_write else returns s'))

unfoldable pub write_name_parts : ℕ → List Bytes → List PartWait → NameWrite → Session NameWrite
write_name_parts timeout [] parts s = only (returns s)
write_name_parts timeout (frame ∷ frames) [] s = only waits
write_name_parts timeout (frame ∷ frames) (part ∷ parts) s =
    and_then (write_name_part timeout frame part s) (write_name_parts timeout frames parts)

-- A new `_StationNameWriteSession`.
abbrev pub new_name_write : NameWrite
new_name_write = record {
  reading = true;
  acknowledged = false;
  rejected = false;
  expected_header = none;
  read_frames = [];
  last_reply_header = [];
  last_reply_length = 0;
}

abbrev pub same_text : Str → Str → Bool
same_text = list_eq ◌==◌

-- `if actual.revision != wanted.revision: raise`
unfoldable pub require_revision :
    (Bytes → Str)
    → Exception
    → StationNameSnapshot
    → StationNameSnapshot
    → Outcome StationNameSnapshot
require_revision sha256 e wanted actual =
    if same_text (revision sha256 actual) (revision sha256 wanted) then returns actual else raises e

-- `_op`, behind the subscription.
unfoldable pub name_transaction :
    (Bytes → Str)
    → NameLimits
    → NameLink
    → List Bytes
    → StationNameSnapshot
    → StationNameSnapshot
    → Session StationNameSnapshot
name_transaction sha256 limits link frames expected before =
    and_then (name_read limits link.preflight) (λ current.
      and_then (only (require_revision sha256 stale_program before current)) (λ current.
        and_then (write_name_parts limits.timeout frames link.parts new_name_write) (λ s.
          and_then (name_read limits link.readback)
            (λ actual. only (require_revision sha256 uncertain_write expected actual)))))

-- The clauses around `_run_operation`: UncertainWrite and its subclass, StaleProgram and
-- InvalidSnapshot pass.
unfoldable pub name_verdict : Exception → Exception
name_verdict uncertain_write = uncertain_write
name_verdict write_rejected = write_rejected
name_verdict stale_program = stale_program
name_verdict invalid_snapshot = invalid_snapshot
name_verdict e = uncertain_write

-- `err` is the ValueError of `pack_station_name`, before anything is sent.
unfoldable pub write_station_name :
    (Bytes → Str)
    → NameLimits
    → NameLink
    → ℤ
    → Str
    → StationNameSnapshot
    → StationNameSnapshot
    → Result (Session StationNameSnapshot)
write_station_name sha256 limits link station name expected before = do
  frames ← pack_station_name station name limits.max_station_num
  ok (
      judged name_verdict (
        unless_raised link.subscribed (name_transaction sha256 limits link frames expected before)))
