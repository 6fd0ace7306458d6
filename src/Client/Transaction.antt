-- ===== src/Client/Transaction.antt =====
-- The operation of `set_time` in src/solem_blip_ble/client_v2.py on a connected client, and a poll for
-- the status. Each wait is given the frames that arrive in it; without its event it fails. What is
-- written to the controller is returned with the outcome.
pub mod Written
use Prim.Native.Nat.{◌≤◌}
use solem_blip_ble.Common.{
  ℕ, Bytes, List, [], ◌∷◌, ◌++◌, Bool, true, false, Option, none, some, is_some, if◌then◌else◌,
  Result, ok, err,
}
use solem_blip_ble.Protocol.Status.{SolemStatus}
use solem_blip_ble.Protocol.Command.{pack_commit}
use solem_blip_ble.Client.Handlers.{TimeSync, handle_time}

-- How the operation ends. `link_failed` is a SolemConnectionError of a wait.
pub data Outcome : Type 0 where
  done link_failed busy rejected verification_failed : Outcome

-- The handler over the frames of one wait, until the event is set. Frames that arrive between the
-- event and the turn in which the operation goes on are left out.
unfoldable pub wait_frames {ℓ} :
    {S : Type ℓ} → (S → Bool) → (S → Bytes → Result S) → List Bytes → S → S
wait_frames event handle [] s = s
wait_frames event handle (frame ∷ rest) s = elim (event s) [
  | true ↦ s
  | false ↦ elim (handle s frame) [
    | err e ↦ wait_frames event handle rest s
    | ok s' ↦ wait_frames event handle rest s'
  ]
]

abbrev pub status_done : TimeSync → Bool
status_done s = s.status_event

abbrev pub reply_done : TimeSync → Bool
reply_done s = s.reply_event

-- `read_status` clears the dict and the event, and waits for a status.
unfoldable pub read_status : ℕ → List Bytes → TimeSync → TimeSync
unfolding wait_frames
read_status station_count frames s =
    wait_frames status_done (handle_time station_count) frames
      (record s { status_result = none; status_event = false })

abbrev pub start : TimeSync
start = record {
  status_result = none;
  status_event = false;
  reply_event = false;
  reply_acknowledged = none;
}

-- The status that a wait has brought; `none` where it timed out.
abbrev pub status_of : TimeSync → Option SolemStatus
status_of s = if s.status_event then s.status_result else none

-- After the acknowledgement: the second status read.
unfoldable pub verify : ℕ → List Bytes → TimeSync → List Bytes → Outcome × List Bytes
verify station_count frames s written = elim (status_of (read_status station_count frames s)) [
  | none ↦ (link_failed, written ++ (pack_commit ∷ []))
  | some status ↦
      (if status.time_alarm then verification_failed else done, written ++ (pack_commit ∷ []))
]

unfoldable pub after_reply : ℕ → List Bytes → TimeSync → List Bytes → Outcome × List Bytes
unfolding verify
after_reply station_count frames s written =
    if s.reply_event
    then elim s.reply_acknowledged [
      | some false ↦ (rejected, written)
      | some true ↦ verify station_count frames s written
      | none ↦ verify station_count frames s written
    ]
    else (link_failed, written)

-- The whole operation, over the frames of its three waits.
unfoldable pub set_time_op : ℕ → Bytes → List Bytes → List Bytes → List Bytes → Outcome × List Bytes
unfolding after_reply
set_time_op station_count payload first second third =
    let s = read_status station_count first start in
    elim (status_of s) [
      | none ↦ (link_failed, pack_commit ∷ [])
      | some status ↦
          if status.is_watering
          then (busy, pack_commit ∷ [])
          else if is_some status.active_program
          then (busy, pack_commit ∷ [])
          else after_reply station_count third
              (wait_frames reply_done (handle_time station_count) second s)
              (pack_commit ∷ payload ∷ [])
    ]
