-- ===== src/Client/ProgramWriting/Plan.antt =====
-- What `write_program_frames` of src/solem_blip_ble/client_v2.py sends, and how it fails.
use solem_blip_ble.Common.{
  ℕ, ◌≡◌, refl, ◌⊎◌, inl, inr, Option, none, some, List, [], ◌∷◌, ◌++◌, arith, Bytes, if◌then◌else◌,
}
use solem_blip_ble.Common.Text.{Str}
use solem_blip_ble.Snapshot.{ProgramSnapshot, revision}
use solem_blip_ble.Protocol.Config.{pack_get_irrigation_config}
use solem_blip_ble.Client.Polling.{
  Exception, uncertain_write, write_rejected, Outcome, returns, raises, waits,
}
use solem_blip_ble.Client.Session.{
  Session, only, unless_raised, judged, and_then, PartWait, write_and_wait,
}
use solem_blip_ble.Client.Session.Log.{
  KeepsTo, only-KeepsTo, one-KeepsTo, and_then-KeepsTo, unless_raised-KeepsTo, judged-KeepsTo,
  judged-raises,
}
use solem_blip_ble.Client.ConfigReading.{get_irrigation_config, read_snapshot}
use package.solem_blip_ble.Client.ProgramWriting.{
  handle_block, block_expected, block_acknowledged, write_block, write_blocks, ProgramLink,
  ProgramLimits, program_transaction, checked_preflight, program_verdict, started_frames,
  write_program_frames,
}
use solem_blip_ble.Client.NameWriting.{same_text}

write_block-KeepsTo :
    (timeout : ℕ) (frame : Bytes) (part : PartWait)
    → KeepsTo (frame ∷ []) (write_block timeout frame part)
unfolding write_block write_and_wait
write_block-KeepsTo timeout frame part =
    and_then-KeepsTo (frame ∷ []) []
      (write_and_wait block_acknowledged handle_block timeout frame part (block_expected frame))
      (λ s. only (if s.rejected then raises write_rejected else returns tt))
      (one-KeepsTo frame
        (write_and_wait block_acknowledged handle_block timeout frame part
          (block_expected frame)).outcome)
      (λ s. only-KeepsTo (if s.rejected then raises write_rejected else returns tt))

write_blocks-KeepsTo :
    (timeout : ℕ) (frames : List Bytes) (parts : List PartWait)
    → KeepsTo frames (write_blocks timeout frames parts)
unfolding write_blocks KeepsTo
write_blocks-KeepsTo timeout [] parts = ([], refl, refl)
write_blocks-KeepsTo timeout (frame ∷ frames) [] = (frame ∷ frames, refl, tt)
write_blocks-KeepsTo timeout (frame ∷ frames) (part ∷ parts) =
    and_then-KeepsTo (frame ∷ []) frames (write_block timeout frame part) _
      (write_block-KeepsTo timeout frame part) (λ done. write_blocks-KeepsTo timeout frames parts)

-- The frames, and the request of the readback.
abbrev pub program_plan : List Bytes → List Bytes
program_plan frames = frames ++ ((pack_get_irrigation_config ∷ []) ++ [])

program_transaction-KeepsTo :
    (sha256 : Bytes → Str) (limits : ProgramLimits) (link : ProgramLink) (frames : List Bytes)
    (expected : ProgramSnapshot)
    → KeepsTo (program_plan frames) (program_transaction sha256 limits link frames expected)
unfolding program_transaction read_snapshot
program_transaction-KeepsTo sha256 limits link frames expected =
    let request = pack_get_irrigation_config ∷ [] in
    and_then-KeepsTo frames (request ++ []) (write_blocks limits.timeout frames link.parts) _
      (write_blocks-KeepsTo limits.timeout frames link.parts)
      (λ done.
        and_then-KeepsTo request [] (read_snapshot limits.idle limits.timeout link.readback) _
          (one-KeepsTo pack_get_irrigation_config
            (read_snapshot limits.idle limits.timeout link.readback).outcome)
          (λ actual. only-KeepsTo (
            if same_text (revision sha256 actual) (revision sha256 expected)
            then returns actual
            else raises uncertain_write)))

-- What is sent on the connection of the transaction is a beginning of: the frames, each once, and the
-- request of the readback. All of it is sent if the method returns.
pub write_program_frames_plan :
    (sha256 : Bytes → Str) (limits : ProgramLimits) (link : ProgramLink) (frames : List Bytes)
    (expected : ProgramSnapshot) (before_revision : Str)
    → KeepsTo
        (program_plan frames)
        (write_program_frames sha256 limits link frames expected before_revision)
unfolding write_program_frames
write_program_frames_plan sha256 limits link frames expected before_revision =
    let plan = program_plan frames in
    and_then-KeepsTo [] plan
      (only (get_irrigation_config limits.idle limits.timeout link.preflight)) _
      (only-KeepsTo (get_irrigation_config limits.idle limits.timeout link.preflight))
      (λ current.
        and_then-KeepsTo [] plan
          (only (checked_preflight sha256 frames expected before_revision current)) _
          (only-KeepsTo (checked_preflight sha256 frames expected before_revision current))
          (λ done. judged-KeepsTo (program_verdict (started_frames link.subscribed frames)) plan _ (
            unless_raised-KeepsTo link.subscribed plan _
              (program_transaction-KeepsTo sha256 limits link frames expected))))

-- A session that has sent nothing, or an exception of a write whose outcome is uncertain.
abbrev pub IsAccounted : Session ProgramSnapshot → Exception → Type 0
IsAccounted session e = (session.sent ≡ []) ⊎ (e ≡ uncertain_write) ⊎ (e ≡ write_rejected)

only-IsAccounted :
    {A : Type 0} (outcome : Outcome A) (next : A → Session ProgramSnapshot) (e : Exception)
    → ((a : A) → (next a).outcome ≡ raises e → IsAccounted (next a) e)
    → (and_then (only outcome) next).outcome ≡ raises e
    → IsAccounted (and_then (only outcome) next) e
unfolding and_then
only-IsAccounted (returns a) next e later h = later a h
only-IsAccounted (raises cause) next e later h = inl refl
only-IsAccounted waits next e later h = inl refl

mutation_verdict :
    (frame : Bytes) (frames : List Bytes) (cause e : Exception)
    → program_verdict (frame ∷ frames) cause ≡ e
    → (e ≡ uncertain_write) ⊎ (e ≡ write_rejected)
unfolding program_verdict
mutation_verdict frame frames cause e h = ground arith

mutation-IsAccounted :
    (frame : Bytes) (frames : List Bytes) (raised : Option Exception) (e : Exception)
    (session : Session ProgramSnapshot)
    → (judged
        (program_verdict (started_frames raised (frame ∷ frames)))
        (unless_raised raised session)).outcome
      ≡ raises e
    → IsAccounted
        (judged
          (program_verdict (started_frames raised (frame ∷ frames)))
          (unless_raised raised session))
        e
unfolding unless_raised
mutation-IsAccounted frame frames none e session h =
    let (cause, was, became) = judged-raises (program_verdict (frame ∷ frames)) session e h in
    inr (mutation_verdict frame frames cause e became)
mutation-IsAccounted frame frames (some cause) e session h = inl refl

-- If the method fails with frames to write, then nothing has been sent on the connection of the
-- transaction, or the exception is an UncertainWrite or its subclass.
pub write_program_frames_verdict :
    (sha256 : Bytes → Str) (limits : ProgramLimits) (link : ProgramLink) (frame : Bytes)
    (frames : List Bytes) (expected : ProgramSnapshot) (before_revision : Str) (e : Exception)
    → (write_program_frames sha256 limits link (frame ∷ frames) expected before_revision).outcome
      ≡ raises e
    → IsAccounted
        (write_program_frames sha256 limits link (frame ∷ frames) expected before_revision)
        e
unfolding write_program_frames
write_program_frames_verdict sha256 limits link frame frames expected before_revision e =
    only-IsAccounted (get_irrigation_config limits.idle limits.timeout link.preflight) _ e
      (λ current.
        only-IsAccounted
          (checked_preflight sha256 (frame ∷ frames) expected before_revision current) _ e
          (λ done.
            mutation-IsAccounted frame frames link.subscribed e
              (program_transaction sha256 limits link (frame ∷ frames) expected)))
