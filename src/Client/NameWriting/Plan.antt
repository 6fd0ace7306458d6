-- ===== src/Client/NameWriting/Plan.antt =====
-- What `write_station_name` of src/solem_blip_ble/client_v2.py sends, and how it fails.
use solem_blip_ble.Common.{
  ℕ, ◌≡◌, refl, ap, ◌∙◌, ◌⊎◌, List, [], ◌∷◌, ◌++◌, arith, Bytes, if◌then◌else◌, ℤ, ok, ok-injective,
  >>=-eq-ok,
}
use mathlib.Core.Path.{subst}
use solem_blip_ble.Common.Text.{Str}
use solem_blip_ble.Names.{StationNameSnapshot}
use solem_blip_ble.Protocol.Metadata.{pack_station_name, pack_get_station_names}
use solem_blip_ble.Client.Polling.{
  Exception, stale_program, uncertain_write, invalid_snapshot, write_rejected, returns, raises,
}
use solem_blip_ble.Client.Handlers.{NameWrite, handle_name_notification}
use solem_blip_ble.Client.Session.{Session, only, unless_raised, PartWait, write_and_wait}
use solem_blip_ble.Client.Session.Log.{
  unless_raised-KeepsTo, judged-KeepsTo, judged-raises, KeepsTo, only-KeepsTo, one-KeepsTo,
  and_then-KeepsTo,
}
use package.solem_blip_ble.Client.NameWriting.{
  NameLimits, NameLink, name_read, name_part, name_acknowledged, write_name_part, write_name_parts,
  new_name_write, require_revision, name_transaction, name_verdict, write_station_name,
}

write_name_part-KeepsTo :
    (timeout : ℕ) (frame : Bytes) (part : PartWait) (s : NameWrite)
    → KeepsTo (frame ∷ []) (write_name_part timeout frame part s)
unfolding write_name_part write_and_wait
write_name_part-KeepsTo timeout frame part s =
    and_then-KeepsTo (frame ∷ []) []
      (write_and_wait name_acknowledged handle_name_notification timeout frame part
        (name_part frame s))
      (λ s'. only (if s'.rejected then raises uncertain_write else returns s'))
      (one-KeepsTo frame
        (write_and_wait name_acknowledged handle_name_notification timeout frame part
          (name_part frame s)).outcome)
      (λ s'. only-KeepsTo (if s'.rejected then raises uncertain_write else returns s'))

write_name_parts-KeepsTo :
    (timeout : ℕ) (frames : List Bytes) (parts : List PartWait) (s : NameWrite)
    → KeepsTo frames (write_name_parts timeout frames parts s)
unfolding write_name_parts KeepsTo
write_name_parts-KeepsTo timeout [] parts s = only-KeepsTo (returns s)
write_name_parts-KeepsTo timeout (frame ∷ frames) [] s = (frame ∷ frames, refl, tt)
write_name_parts-KeepsTo timeout (frame ∷ frames) (part ∷ parts) s =
    and_then-KeepsTo (frame ∷ []) frames (write_name_part timeout frame part s)
      (write_name_parts timeout frames parts) (write_name_part-KeepsTo timeout frame part s)
      (write_name_parts-KeepsTo timeout frames parts)

-- The request, the frames, and the request again.
abbrev pub name_plan : List Bytes → List Bytes
name_plan frames =
    (pack_get_station_names ∷ []) ++ ([] ++ (frames ++ ((pack_get_station_names ∷ []) ++ [])))

name_transaction-KeepsTo :
    (sha256 : Bytes → Str) (limits : NameLimits) (link : NameLink) (frames : List Bytes)
    (expected before : StationNameSnapshot)
    → KeepsTo (name_plan frames) (name_transaction sha256 limits link frames expected before)
unfolding name_transaction
name_transaction-KeepsTo sha256 limits link frames expected before =
    let request = pack_get_station_names ∷ [] in
    and_then-KeepsTo request ([] ++ (frames ++ (request ++ []))) (name_read limits link.preflight) _
      (one-KeepsTo pack_get_station_names (name_read limits link.preflight).outcome)
      (λ current.
        and_then-KeepsTo [] (frames ++ (request ++ []))
          (only (require_revision sha256 stale_program before current)) _
          (only-KeepsTo (require_revision sha256 stale_program before current))
          (λ current.
            and_then-KeepsTo frames (request ++ [])
              (write_name_parts limits.timeout frames link.parts new_name_write) _
              (write_name_parts-KeepsTo limits.timeout frames link.parts new_name_write)
              (λ s.
                and_then-KeepsTo request [] (name_read limits link.readback) _
                  (one-KeepsTo pack_get_station_names (name_read limits link.readback).outcome)
                  (λ actual.
                    only-KeepsTo (require_revision sha256 uncertain_write expected actual)))))

-- What is sent is a beginning of: the request, the frames of the name, each once, and the request
-- again. All of it is sent if the method returns.
pub write_station_name_plan :
    (sha256 : Bytes → Str) (limits : NameLimits) (link : NameLink) (station : ℤ) (name : Str)
    (expected before : StationNameSnapshot) (session : Session StationNameSnapshot)
    → write_station_name sha256 limits link station name expected before ≡ ok session
    → (frames : List Bytes) × (pack_station_name station name limits.max_station_num ≡ ok frames)
      × KeepsTo (name_plan frames) session
unfolding write_station_name
write_station_name_plan sha256 limits link station name expected before session h =
    let (frames, packed, same) =
      >>=-eq-ok (pack_station_name station name limits.max_station_num) _ h in
    (
      frames,
      packed,
      subst (KeepsTo (name_plan frames)) (ok-injective same) (
          judged-KeepsTo name_verdict (name_plan frames) _ (
            unless_raised-KeepsTo link.subscribed (name_plan frames) _
              (name_transaction-KeepsTo sha256 limits link frames expected before))),
    )

-- Every failure is one of the three verdicts, or a rejection.
pub write_station_name_verdict :
    (sha256 : Bytes → Str) (limits : NameLimits) (link : NameLink) (station : ℤ) (name : Str)
    (expected before : StationNameSnapshot) (session : Session StationNameSnapshot) (e : Exception)
    → write_station_name sha256 limits link station name expected before ≡ ok session
    → session.outcome ≡ raises e
    → (e ≡ uncertain_write) ⊎ (e ≡ write_rejected) ⊎ (e ≡ stale_program) ⊎ (e ≡ invalid_snapshot)
unfolding write_station_name name_verdict
write_station_name_verdict sha256 limits link station name expected before session e h failed =
    let (frames, packed, same) =
      >>=-eq-ok (pack_station_name station name limits.max_station_num) _ h in
    let (cause, was, became) =
      judged-raises name_verdict
        (unless_raised link.subscribed (name_transaction sha256 limits link frames expected before))
        e (ap (λ (t : Session StationNameSnapshot). t.outcome) (ok-injective same) ∙ failed) in
    ground arith
