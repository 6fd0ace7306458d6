-- ===== src/Client/NameWriting/Verified.antt =====
-- What `write_station_name` of src/solem_blip_ble/client_v2.py has checked before it writes and when
-- it returns.
use solem_blip_ble.Common.{◌≢◌}
use solem_blip_ble.Common.{
  ℕ, ◌≡◌, refl, sym, ap, ◌∙◌, inl, inr, true, false, some, List, [], ◌∷◌, ◌++◌, arith, Bytes, ◌==◌,
  Bool-cases, Option-cases, take, drop, ℤ, ok, ok-injective, >>=-eq-ok,
}
use solem_blip_ble.Common.Text.{Str}
use solem_blip_ble.Names.{StationNameSnapshot, revision}
use solem_blip_ble.Protocol.Metadata.{pack_station_name, pack_get_station_names}
use solem_blip_ble.Client.Polling.{Exception, stale_program, uncertain_write, returns}
use solem_blip_ble.Client.Handlers.{NameWrite, handle_name_notification}
use solem_blip_ble.Client.Handlers.Acknowledged.{
  any_frame, is_acknowledgement, is_name_rejection, handle_names_rejects, handle_names_acknowledges,
}
use solem_blip_ble.Client.Session.{Session, only, unless_raised, and_then, PartWait, write_and_wait}
use solem_blip_ble.Client.Session.Log.{
  unless_raised-returns, and_then-returns, and_then-sent, Outcome-cases, judged-returns,
}
use solem_blip_ble.Client.Session.Heard.{write_and_wait_heard, part_frames}
use package.solem_blip_ble.Client.NameWriting.{
  NameLimits, NameLink, name_read, name_part, name_acknowledged, write_name_part, write_name_parts,
  new_name_write, same_text, require_revision, name_transaction, name_verdict, write_station_name,
}
use solem_blip_ble.Common.Lists.{list_eq_sound}

-- The first notifications of a part hold an acknowledgement of its frame, and no rejection.
unfoldable pub IsAcknowledged : Bytes → PartWait → Type 0
IsAcknowledged frame part =
    (heard : List Bytes) × (later : List Bytes) × (part_frames part ≡ heard ++ later)
    × (any_frame (is_acknowledgement (some (0x34 ∷ take 3 (drop 1 frame)))) heard ≡ true)
    × (any_frame is_name_rejection heard ≡ false)

-- Each frame is acknowledged in its part.
unfoldable pub AreAcknowledged : List Bytes → List PartWait → Type 0
AreAcknowledged [] parts = Unit {0}
AreAcknowledged (frame ∷ frames) [] = ⊥
AreAcknowledged (frame ∷ frames) (part ∷ parts) =
    IsAcknowledged frame part × AreAcknowledged frames parts

write_name_part-IsAcknowledged :
    (timeout : ℕ) (frame : Bytes) (part : PartWait) (s s' : NameWrite)
    → (write_name_part timeout frame part s).outcome ≡ returns s'
    → IsAcknowledged frame part
unfolding write_name_part IsAcknowledged
write_name_part-IsAcknowledged timeout frame part s s' h =
    let (t, waited, unrejected) =
      and_then-returns
        (write_and_wait name_acknowledged handle_name_notification timeout frame part
          (name_part frame s))
        _ s' h in
    let (heard, later, split, same, seen) =
      write_and_wait_heard name_acknowledged handle_name_notification timeout frame part
        (name_part frame s) t waited in
    (
      heard,
      later,
      split,
      sym (handle_names_acknowledges (name_part frame s) heard refl)
          ∙ ap (λ (u : NameWrite). u.acknowledged) (sym same)
          ∙ seen,
      sym (handle_names_rejects (name_part frame s) heard refl)
          ∙ ap (λ (u : NameWrite). u.rejected) (sym same)
          ∙ ground arith,
    )

write_name_parts-AreAcknowledged :
    (timeout : ℕ) (frames : List Bytes) (parts : List PartWait) (s s' : NameWrite)
    → (write_name_parts timeout frames parts s).outcome ≡ returns s'
    → AreAcknowledged frames parts
unfolding write_name_parts AreAcknowledged
write_name_parts-AreAcknowledged timeout [] parts s s' h = tt
write_name_parts-AreAcknowledged timeout (frame ∷ frames) [] s s' h = ground arith
write_name_parts-AreAcknowledged timeout (frame ∷ frames) (part ∷ parts) s s' h =
    let (t, first, later) =
      and_then-returns (write_name_part timeout frame part s)
        (write_name_parts timeout frames parts) s' h in
    (
      write_name_part-IsAcknowledged timeout frame part s t first,
      write_name_parts-AreAcknowledged timeout frames parts t s' later,
    )

-- Texts that compare equal are equal.
pub same_text_sound : (s t : Str) → same_text s t ≡ true → s ≡ t
same_text_sound s t = list_eq_sound ◌==◌ (λ a b h. ground arith) s t

pub require_revision-returns :
    (sha256 : Bytes → Str) (e : Exception) (wanted actual found : StationNameSnapshot)
    → require_revision sha256 e wanted actual ≡ returns found
    → (found ≡ actual) × (revision sha256 actual ≡ revision sha256 wanted)
unfolding require_revision
require_revision-returns sha256 e wanted actual found h =
    elim (Bool-cases (same_text (revision sha256 actual) (revision sha256 wanted))) [
      | inl same ↦
          (ground arith, same_text_sound (revision sha256 actual) (revision sha256 wanted) same)
      | inr other ↦ ground arith
    ]

-- What the transaction has checked when it returns: the preflight against the baseline, the
-- acknowledgements, and the readback against the expected names.
name_transaction-returns :
    (sha256 : Bytes → Str) (limits : NameLimits) (link : NameLink) (frames : List Bytes)
    (expected before actual : StationNameSnapshot)
    → (name_transaction sha256 limits link frames expected before).outcome ≡ returns actual
    → (current : StationNameSnapshot) × ((name_read limits link.preflight).outcome
        ≡ returns current)
      × (revision sha256 current ≡ revision sha256 before)
      × AreAcknowledged frames link.parts
      × ((name_read limits link.readback).outcome ≡ returns actual)
      × (revision sha256 actual ≡ revision sha256 expected)
unfolding name_transaction
name_transaction-returns sha256 limits link frames expected before actual h =
    let (current, first, h1) = and_then-returns (name_read limits link.preflight) _ actual h in
    let (checked, second, h2) =
      and_then-returns (only (require_revision sha256 stale_program before current)) _ actual h1 in
    let (s, third, h3) =
      and_then-returns (write_name_parts limits.timeout frames link.parts new_name_write) _ actual
        h2 in
    let (found, fourth, h4) = and_then-returns (name_read limits link.readback) _ actual h3 in
    let (same, verified) =
      require_revision-returns sha256 uncertain_write expected found actual h4 in
    (
      current,
      first,
      (require_revision-returns sha256 stale_program before current checked second).1,
      write_name_parts-AreAcknowledged limits.timeout frames link.parts new_name_write s third,
      fourth ∙ ap returns (sym same),
      ap (revision sha256) same ∙ verified,
    )

-- If the method returns, its preflight has read names of the baseline's revision, each frame of the
-- name has been acknowledged and none rejected, and the names that it returns were read back and have
-- the expected revision.
pub write_station_name_verified :
    (sha256 : Bytes → Str) (limits : NameLimits) (link : NameLink) (station : ℤ) (name : Str)
    (expected before : StationNameSnapshot) (session : Session StationNameSnapshot)
    (actual : StationNameSnapshot)
    → write_station_name sha256 limits link station name expected before ≡ ok session
    → session.outcome ≡ returns actual
    → (frames : List Bytes) × (current : StationNameSnapshot) × (pack_station_name station name
          limits.max_station_num
        ≡ ok frames)
      × ((name_read limits link.preflight).outcome ≡ returns current)
      × (revision sha256 current ≡ revision sha256 before)
      × AreAcknowledged frames link.parts
      × ((name_read limits link.readback).outcome ≡ returns actual)
      × (revision sha256 actual ≡ revision sha256 expected)
unfolding write_station_name
write_station_name_verified sha256 limits link station name expected before session actual h done =
    let (frames, packed, same) =
      >>=-eq-ok (pack_station_name station name limits.max_station_num) _ h in
    let returned =
      judged-returns name_verdict
        (unless_raised link.subscribed (name_transaction sha256 limits link frames expected before))
        actual (ap (λ (t : Session StationNameSnapshot). t.outcome) (ok-injective same) ∙ done) in
    let (current, read, unchanged, acknowledged, readback, verified) =
      name_transaction-returns sha256 limits link frames expected before actual
        (unless_raised-returns link.subscribed _ actual returned) in
    (frames, current, packed, read, unchanged, acknowledged, readback, verified)

-- The list is the request alone, or nothing, and holds another frame.
only_request :
    (request frame : Bytes) (sent earlier later : List Bytes)
    → sent ≡ request ∷ []
    → sent ≡ earlier ++ (frame ∷ later)
    → frame ≢ request
    → ⊥
only_request request frame sent [] later one h other = ground arith
only_request request frame sent (x ∷ []) later one h other = ground arith
only_request request frame sent (x ∷ y ∷ earlier) later one h other = ground arith

nothing_sent : (frame : Bytes) (earlier later : List Bytes) → [] ≡ earlier ++ (frame ∷ later) → ⊥
nothing_sent frame [] later h = ground arith
nothing_sent frame (x ∷ earlier) later h = ground arith

-- A frame other than the request stands behind it.
behind_request :
    (request frame : Bytes) (tail earlier later : List Bytes)
    → request ∷ tail ≡ earlier ++ (frame ∷ later)
    → frame ≢ request
    → (rest : List Bytes) × (earlier ≡ request ∷ rest)
behind_request request frame tail [] later h other = absurd (ground arith)
behind_request request frame tail (x ∷ earlier) later h other = (earlier, ground arith)

name_transaction-guarded :
    (sha256 : Bytes → Str) (limits : NameLimits) (link : NameLink) (frames : List Bytes)
    (expected before : StationNameSnapshot) (frame : Bytes) (earlier later : List Bytes)
    → (name_transaction sha256 limits link frames expected before).sent ≡ earlier ++ (frame ∷ later)
    → frame ≢ pack_get_station_names
    → (current : StationNameSnapshot) × (rest : List Bytes) × (earlier
        ≡ pack_get_station_names ∷ rest)
      × ((name_read limits link.preflight).outcome ≡ returns current)
      × (revision sha256 current ≡ revision sha256 before)
unfolding name_transaction and_then require_revision
name_transaction-guarded sha256 limits link frames expected before frame earlier later h other =
    let alone =
      λ (one : (name_transaction sha256 limits link frames expected before).sent
          ≡ pack_get_station_names ∷ []).
        only_request pack_get_station_names frame _ earlier later one h other in
    elim (Outcome-cases (name_read limits link.preflight).outcome) [
      | inl (current, read) ↦
          elim (Bool-cases (same_text (revision sha256 current) (revision sha256 before))) [
            | inl same ↦
                let (rest, first) =
                  behind_request pack_get_station_names frame _ earlier later
                    (sym (and_then-sent (name_read limits link.preflight) _ current read) ∙ h)
                    other in
                (
                  current,
                  rest,
                  first,
                  read,
                  same_text_sound (revision sha256 current) (revision sha256 before) same,
                )
            | inr different ↦ absurd (alone (ground arith))
          ]
      | inr (inl (e, read)) ↦ absurd (alone (ground arith))
      | inr (inr read) ↦ absurd (alone (ground arith))
    ]

-- A frame other than the request is written only behind the request of a preflight that has read
-- names of the baseline's revision.
pub write_station_name_guarded :
    (sha256 : Bytes → Str) (limits : NameLimits) (link : NameLink) (station : ℤ) (name : Str)
    (expected before : StationNameSnapshot) (session : Session StationNameSnapshot) (frame : Bytes)
    (earlier later : List Bytes)
    → write_station_name sha256 limits link station name expected before ≡ ok session
    → session.sent ≡ earlier ++ (frame ∷ later)
    → frame ≢ pack_get_station_names
    → (current : StationNameSnapshot) × (rest : List Bytes) × (earlier
        ≡ pack_get_station_names ∷ rest)
      × ((name_read limits link.preflight).outcome ≡ returns current)
      × (revision sha256 current ≡ revision sha256 before)
unfolding write_station_name unless_raised
write_station_name_guarded sha256 limits link station name expected before session frame earlier
      later h done other =
    let (frames, packed, same) =
      >>=-eq-ok (pack_station_name station name limits.max_station_num) _ h in
    let sent = ap (λ (t : Session StationNameSnapshot). t.sent) (ok-injective same) ∙ done in
    elim (Option-cases link.subscribed) [
      | inl eq ↦
          name_transaction-guarded sha256 limits link frames expected before frame earlier later
            (sym (
                ap
                  (λ raised.
                    (unless_raised raised
                      (name_transaction sha256 limits link frames expected before)).sent)
                  eq)
              ∙ sent)
            other
      | inr (e, eq) ↦ absurd (nothing_sent frame earlier later (ground arith))
    ]
