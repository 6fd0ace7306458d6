-- ===== src/Client/ProgramWriting.antt =====
-- `write_program_frames` of src/solem_blip_ble/client_v2.py: the preflight on a connection of its own,
-- then the blocks with their acknowledgements and the readback on one connection that is not tried
-- again, and the exceptions that the method makes of theirs.
pub mod Plan
pub mod Verified
use solem_blip_ble.Common.{
  ℕ, ◌+◌, Bytes, at, length, take, drop, List, [], ◌∷◌, Bool, true, false, not, ◌&&◌, ◌||◌, Option,
  none, some, ltb, leb, ◌==◌, bytes_eq, if◌then◌else◌, Result, ok, err,
}
use solem_blip_ble.Common.Text.{Str}
use solem_blip_ble.Snapshot.{ProgramSnapshot, revision}
use solem_blip_ble.Snapshot.Restore.{validate_expected_write}
use solem_blip_ble.Client.Polling.{
  Exception, stale_program, uncertain_write, write_rejected, Outcome, returns, raises, waits, bind,
}
use solem_blip_ble.Client.Session.{
  Session, only, unless_raised, judged, and_then, PartWait, write_and_wait,
}
use solem_blip_ble.Client.NameWriting.{same_text}
use solem_blip_ble.Client.ConfigReading.{
  ConfigCall, get_irrigation_config, read_snapshot, error_class,
}

-- The variables of the handler in the phase "await_ack".
pub record BlockWrite : Type 0 where
  pub acknowledged : Bool
  pub rejected : Bool
  pub expected_header : Bytes
  pub expected_length : ℕ

-- F0 third or fourth.
abbrev pub is_rejection : Bytes → Bool
is_rejection frame =
    leb 3 (length frame) && (at frame 2 == 0xF0 || (ltb 3 (length frame) && at frame 3 == 0xF0))

unfoldable pub handle_block : BlockWrite → Bytes → BlockWrite
handle_block s frame =
    if length frame == 0
      || (length s.expected_header == 0 || not (at frame 0 == at s.expected_header 0))
    then s
    else if is_rejection frame
    then record s { rejected = true; acknowledged = true }
    else if bytes_eq frame (at s.expected_header 0 ∷ 0x00 ∷ [])
    then record s { acknowledged = true }
    else if length frame == s.expected_length && bytes_eq (take 4 frame) s.expected_header
    then record s { acknowledged = true }
    else s

-- The variables before the write of a block. `bytes([frame[0] + 1])` raises for FF and for an empty
-- frame, which no frame of a program is.
abbrev pub block_expected : Bytes → BlockWrite
block_expected frame = record {
  acknowledged = false;
  rejected = false;
  expected_header = (at frame 0 + 1) ∷ take 3 (drop 1 frame);
  expected_length = length frame;
}

abbrev pub block_acknowledged : BlockWrite → Bool
block_acknowledged s = s.acknowledged

-- One turn of the loop over the blocks.
unfoldable pub write_block : ℕ → Bytes → PartWait → Session (Unit {0})
write_block timeout frame part =
    and_then
      (write_and_wait block_acknowledged handle_block timeout frame part (block_expected frame))
      (λ s. only (if s.rejected then raises write_rejected else returns tt))

unfoldable pub write_blocks : ℕ → List Bytes → List PartWait → Session (Unit {0})
write_blocks timeout [] parts = only (returns tt)
write_blocks timeout (frame ∷ frames) [] = only waits
write_blocks timeout (frame ∷ frames) (part ∷ parts) =
    and_then (write_block timeout frame part) (λ done. write_blocks timeout frames parts)

-- `subscribed` is the exception of `_run_operation` or `_start_notify` before the first block, if
-- there is one.
pub record ProgramLink : Type 0 where
  pub preflight : ConfigCall
  pub subscribed : Option Exception
  pub parts : List PartWait
  pub readback : ConfigCall

-- IRRIGATION_CONFIG_IDLE_TIMEOUT and STATUS_NOTIFY_TIMEOUT.
pub record ProgramLimits : Type 0 where
  pub idle : ℕ
  pub timeout : ℕ

-- `_op`, behind the subscription.
unfoldable pub program_transaction :
    (Bytes → Str)
    → ProgramLimits
    → ProgramLink
    → List Bytes
    → ProgramSnapshot
    → Session ProgramSnapshot
program_transaction sha256 limits link frames expected =
    and_then (write_blocks limits.timeout frames link.parts) (λ done.
      and_then (read_snapshot limits.idle limits.timeout link.readback) (λ actual. only (
        if same_text (revision sha256 actual) (revision sha256 expected)
        then returns actual
        else raises uncertain_write)))

-- The preflight's revision, and the frames against the expected snapshot.
unfoldable pub checked_preflight :
    (Bytes → Str) → List Bytes → ProgramSnapshot → Str → ProgramSnapshot → Outcome (Unit {0})
checked_preflight sha256 frames expected before_revision current =
    if same_text (revision sha256 current) before_revision
    then elim (validate_expected_write current frames expected) [
      | ok done ↦ returns done
      | err e ↦ raises (error_class e)
    ]
    else raises stale_program

-- The clauses around the transaction: UncertainWrite and its subclass pass, and so does everything
-- while `mutation_started` is false, which no frame has been handed to `_write` means.
unfoldable pub program_verdict : List Bytes → Exception → Exception
program_verdict [] e = e
program_verdict (frame ∷ sent) uncertain_write = uncertain_write
program_verdict (frame ∷ sent) write_rejected = write_rejected
program_verdict (frame ∷ sent) e = uncertain_write

-- The frames whose write has been begun when the operation runs.
abbrev pub started_frames : Option Exception → List Bytes → List Bytes
started_frames none frames = frames
started_frames (some e) frames = []

-- What is sent is what the transaction sends.
unfoldable pub write_program_frames :
    (Bytes → Str)
    → ProgramLimits
    → ProgramLink
    → List Bytes
    → ProgramSnapshot
    → Str
    → Session ProgramSnapshot
write_program_frames sha256 limits link frames expected before_revision =
    and_then (only (get_irrigation_config limits.idle limits.timeout link.preflight)) (λ current.
      and_then (only (checked_preflight sha256 frames expected before_revision current)) (λ done.
        judged (program_verdict (started_frames link.subscribed frames))
          (unless_raised link.subscribed (program_transaction sha256 limits link frames expected))))
