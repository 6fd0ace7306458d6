-- ===== src/Client/ProgramWriting/Verified.antt =====
-- What `write_program_frames` of src/solem_blip_ble/client_v2.py has checked when it returns.
use solem_blip_ble.Common.{
  ℕ, ◌+◌, ◌≡◌, sym, ap, ◌∙◌, inl, inr, Bool, true, false, not, ◌&&◌, ◌||◌, List, [], ◌∷◌, ◌++◌,
  arith, Bytes, at, ◌==◌, Bool-cases, length, take, drop, bytes_eq, ok, Result-cases,
}
use solem_blip_ble.Common.Text.{Str}
use solem_blip_ble.Snapshot.{ProgramSnapshot, revision}
use solem_blip_ble.Snapshot.Restore.{validate_expected_write}
use solem_blip_ble.Snapshot.Restore.Expected.{MakesExpected}
use solem_blip_ble.Snapshot.Restore.Agreement.{validate_expected_write-MakesExpected}
use solem_blip_ble.Client.Polling.{returns, handle_all}
use solem_blip_ble.Client.Handlers.Acknowledged.{any_frame, or_assoc}
use solem_blip_ble.Client.Session.{only, unless_raised, PartWait, write_and_wait}
use solem_blip_ble.Client.Session.Log.{and_then-returns, judged-returns, unless_raised-returns}
use solem_blip_ble.Client.Session.Heard.{write_and_wait_heard, part_frames}
use solem_blip_ble.Client.NameWriting.{same_text}
use solem_blip_ble.Client.NameWriting.Verified.{same_text_sound}
use solem_blip_ble.Client.ConfigReading.{get_irrigation_config, read_snapshot}
use package.solem_blip_ble.Client.ProgramWriting.{
  BlockWrite, is_rejection, handle_block, block_expected, block_acknowledged, write_block,
  write_blocks, ProgramLink, ProgramLimits, program_transaction, checked_preflight, program_verdict,
  started_frames, write_program_frames,
}

-- The reply is not empty and begins as the expected header.
abbrev pub is_reply : Bytes → Bytes → Bool
is_reply header frame =
    not (length frame == 0) && (not (length header == 0) && at frame 0 == at header 0)

-- A rejection of the expected command.
unfoldable pub is_block_rejection : Bytes → Bytes → Bool
is_block_rejection header frame = is_reply header frame && is_rejection frame

-- A rejection, the command's byte and 00 alone, or a frame of the block's length and header.
unfoldable pub is_block_acknowledgement : ℕ → Bytes → Bytes → Bool
is_block_acknowledgement expected_length header frame =
    is_reply header frame
    && (is_rejection frame
        || (bytes_eq frame (at header 0 ∷ 0x00 ∷ [])
            || (length frame == expected_length && bytes_eq (take 4 frame) header)))

handle_block_step :
    (s : BlockWrite) (frame : Bytes)
    → ((handle_block s frame).acknowledged
        ≡ s.acknowledged || is_block_acknowledgement s.expected_length s.expected_header frame)
      × ((handle_block s frame).rejected ≡ s.rejected || is_block_rejection s.expected_header frame)
      × ((handle_block s frame).expected_header ≡ s.expected_header)
      × ((handle_block s frame).expected_length ≡ s.expected_length)
unfolding handle_block is_block_acknowledgement is_block_rejection
handle_block_step s frame = ground arith

-- What the handler makes of the frames of one wait.
handle_blocks :
    (s : BlockWrite) (frames : List Bytes)
    → ((handle_all handle_block s frames).acknowledged
        ≡ s.acknowledged
          || any_frame (is_block_acknowledgement s.expected_length s.expected_header) frames)
      × ((handle_all handle_block s frames).rejected
          ≡ s.rejected || any_frame (is_block_rejection s.expected_header) frames)
unfolding handle_all any_frame
handle_blocks s [] = ground arith
handle_blocks s (frame ∷ rest) =
    let (a, r, header, len) = handle_block_step s frame in
    let (later_a, later_r) = handle_blocks (handle_block s frame) rest in
    (
      later_a
          ∙ rw (a, header, len)
              (or_assoc s.acknowledged
                (is_block_acknowledgement s.expected_length s.expected_header frame)
                (any_frame (is_block_acknowledgement s.expected_length s.expected_header) rest)),
      later_r
          ∙ rw (r, header)
              (or_assoc s.rejected (is_block_rejection s.expected_header frame)
                (any_frame (is_block_rejection s.expected_header) rest)),
    )

-- The first notifications of a part hold an acknowledgement of its block, and no rejection.
unfoldable pub IsAcknowledged : Bytes → PartWait → Type 0
IsAcknowledged frame part =
    let header = (at frame 0 + 1) ∷ take 3 (drop 1 frame) in
    (heard : List Bytes) × (later : List Bytes) × (part_frames part ≡ heard ++ later)
    × (any_frame (is_block_acknowledgement (length frame) header) heard ≡ true)
    × (any_frame (is_block_rejection header) heard ≡ false)

-- Each block is acknowledged in its part.
unfoldable pub AreAcknowledged : List Bytes → List PartWait → Type 0
AreAcknowledged [] parts = Unit {0}
AreAcknowledged (frame ∷ frames) [] = ⊥
AreAcknowledged (frame ∷ frames) (part ∷ parts) =
    IsAcknowledged frame part × AreAcknowledged frames parts

write_block-IsAcknowledged :
    (timeout : ℕ) (frame : Bytes) (part : PartWait)
    → (write_block timeout frame part).outcome ≡ returns tt
    → IsAcknowledged frame part
unfolding write_block IsAcknowledged
write_block-IsAcknowledged timeout frame part h =
    let (t, waited, unrejected) =
      and_then-returns
        (write_and_wait block_acknowledged handle_block timeout frame part (block_expected frame)) _
        tt h in
    let (heard, later, split, same, seen) =
      write_and_wait_heard block_acknowledged handle_block timeout frame part (block_expected frame)
        t waited in
    let (acks, rejections) = handle_blocks (block_expected frame) heard in
    (
      heard,
      later,
      split,
      sym acks ∙ ap (λ (u : BlockWrite). u.acknowledged) (sym same) ∙ seen,
      sym rejections ∙ ap (λ (u : BlockWrite). u.rejected) (sym same) ∙ ground arith,
    )

write_blocks-AreAcknowledged :
    (timeout : ℕ) (frames : List Bytes) (parts : List PartWait)
    → (write_blocks timeout frames parts).outcome ≡ returns tt
    → AreAcknowledged frames parts
unfolding write_blocks AreAcknowledged
write_blocks-AreAcknowledged timeout [] parts h = tt
write_blocks-AreAcknowledged timeout (frame ∷ frames) [] h = ground arith
write_blocks-AreAcknowledged timeout (frame ∷ frames) (part ∷ parts) h =
    let (t, first, later) =
      and_then-returns (write_block timeout frame part) (λ done. write_blocks timeout frames parts)
        tt h in
    (
      write_block-IsAcknowledged timeout frame part first,
      write_blocks-AreAcknowledged timeout frames parts later,
    )

checked_preflight-returns :
    (sha256 : Bytes → Str) (frames : List Bytes) (expected : ProgramSnapshot)
    (before_revision : Str) (current : ProgramSnapshot)
    → checked_preflight sha256 frames expected before_revision current ≡ returns tt
    → (revision sha256 current ≡ before_revision)
      × (validate_expected_write current frames expected ≡ ok tt)
unfolding checked_preflight
checked_preflight-returns sha256 frames expected before_revision current h =
    elim (Bool-cases (same_text (revision sha256 current) before_revision)) [
      | inr other ↦ absurd (ground arith)
      | inl same ↦ elim (Result-cases (validate_expected_write current frames expected)) [
        | inl (done, valid) ↦
            (same_text_sound (revision sha256 current) before_revision same, valid)
        | inr (e, invalid) ↦ absurd (ground arith)
      ]
    ]

program_transaction-returns :
    (sha256 : Bytes → Str) (limits : ProgramLimits) (link : ProgramLink) (frames : List Bytes)
    (expected actual : ProgramSnapshot)
    → (program_transaction sha256 limits link frames expected).outcome ≡ returns actual
    → AreAcknowledged frames link.parts
      × ((read_snapshot limits.idle limits.timeout link.readback).outcome ≡ returns actual)
      × (revision sha256 actual ≡ revision sha256 expected)
unfolding program_transaction
program_transaction-returns sha256 limits link frames expected actual h =
    let (done, written, h1) =
      and_then-returns (write_blocks limits.timeout frames link.parts) _ actual h in
    let (found, read, h2) =
      and_then-returns (read_snapshot limits.idle limits.timeout link.readback) _ actual h1 in
    elim (Bool-cases (same_text (revision sha256 found) (revision sha256 expected))) [
      | inr other ↦ absurd (ground arith)
      | inl same ↦
          let found_is : found ≡ actual = ground arith in
          (
            write_blocks-AreAcknowledged limits.timeout frames link.parts written,
            read ∙ ap returns found_is,
            ap (revision sha256) (sym found_is)
                ∙ same_text_sound (revision sha256 found) (revision sha256 expected) same,
          )
    ]

-- If the method returns, the preflight has read programs of the expected revision; the frames write
-- blocks that are there, and make exactly the expected snapshot: it has the same blocks, and each has
-- the bytes of the last frame that writes it, or is as the preflight has read it where none does. Each
-- block has been acknowledged and none rejected, and the snapshot that it returns was read back and
-- has the revision of the expected one.
pub write_program_frames_verified :
    (sha256 : Bytes → Str) (limits : ProgramLimits) (link : ProgramLink) (frames : List Bytes)
    (expected : ProgramSnapshot) (before_revision : Str) (actual : ProgramSnapshot)
    → (write_program_frames sha256 limits link frames expected before_revision).outcome
      ≡ returns actual
    → (current : ProgramSnapshot) × (get_irrigation_config limits.idle limits.timeout link.preflight
        ≡ returns current)
      × (revision sha256 current ≡ before_revision)
      × (validate_expected_write current frames expected ≡ ok tt)
      × MakesExpected current frames expected
      × AreAcknowledged frames link.parts
      × ((read_snapshot limits.idle limits.timeout link.readback).outcome ≡ returns actual)
      × (revision sha256 actual ≡ revision sha256 expected)
unfolding write_program_frames
write_program_frames_verified sha256 limits link frames expected before_revision actual h =
    let transaction = program_transaction sha256 limits link frames expected in
    let (current, read, h1) =
      and_then-returns (only (get_irrigation_config limits.idle limits.timeout link.preflight)) _
        actual h in
    let (done, passed, h2) =
      and_then-returns (only (checked_preflight sha256 frames expected before_revision current)) _
        actual h1 in
    let (unchanged, valid) =
      checked_preflight-returns sha256 frames expected before_revision current passed in
    let (acknowledged, readback, verified) =
      program_transaction-returns sha256 limits link frames expected actual (
        unless_raised-returns link.subscribed transaction actual (
          judged-returns (program_verdict (started_frames link.subscribed frames))
            (unless_raised link.subscribed transaction) actual h2)) in
    (
      current,
      read,
      unchanged,
      valid,
      validate_expected_write-MakesExpected current frames expected valid,
      acknowledged,
      readback,
      verified,
    )
