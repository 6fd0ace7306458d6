-- ===== src/Client/Commands/Answered.antt =====
-- What a manual command of src/solem_blip_ble/client_v2.py has sent and heard when it returns.
use solem_blip_ble.Common.{
  ℕ, ◌*◌, ◌≡◌, refl, sym, ap, ◌∙◌, ◌⊎◌, inl, inr, Bool, true, false, ◌&&◌, ◌||◌, Option, none, some,
  List, [], ◌∷◌, ◌++◌, arith, Bytes, at, ◌==◌, if◌then◌else◌, Option-cases, ℤ, pos_part, InRange,
  Result, ok, err, Result-cases, ok-injective, >>=-eq-ok,
}
use mathlib.Core.Path.{subst}
use solem_blip_ble.Common.Lists.{append_assoc}
use solem_blip_ble.Protocol.Command.{pack_commit, pack_sprinkle_station}
use solem_blip_ble.Protocol.Command.Durations.{sprinkle_station_fields}
use solem_blip_ble.Protocol.Status.{
  SolemStatus, parse_status_notification, is_command_notification, valid_remaining, parse_int3,
}
use solem_blip_ble.Client.Handlers.{CommandWait, handle_command}
use solem_blip_ble.Client.Polling.{returns, handle_all}
use solem_blip_ble.Client.Session.{Session, only, and_then, write_and_wait}
use solem_blip_ble.Client.Session.Log.{
  KeepsTo, KeepsTo-sent, only-KeepsTo, one-KeepsTo, and_then-KeepsTo, unless_raised-KeepsTo,
  and_then-returns, unless_raised-returns,
}
use solem_blip_ble.Client.Session.Heard.{write_and_wait_heard, part_frames, handle_all-append}
use solem_blip_ble.Client.Handlers.Acknowledged.{any_frame, or_assoc}
use package.solem_blip_ble.Client.Commands.{
  on_command, CommandLink, no_response, has_response, send_command, execute_command,
  sprinkle_station_x_for_y_minutes,
}

-- A command notification with seq 0, which the parser accepts or passes over.
unfoldable pub is_response : ℕ → Bytes → Bool
is_response station_count frame =
    is_command_notification frame
    && (at frame 2 == 0 && elim (parse_status_notification frame station_count) [
      | ok parsed ↦ true
      | err e ↦ false
    ])

abbrev pub status_in : Result (Option SolemStatus) → Option SolemStatus
status_in (ok parsed) = parsed
status_in (err e) = none

-- The status of a command notification, if it has one.
unfoldable pub reported_status : ℕ → Bytes → Option SolemStatus
reported_status station_count frame =
    if is_command_notification frame
    then status_in (parse_status_notification frame station_count)
    else none

-- No frame reports a status.
unfoldable pub AreSilent : ℕ → List Bytes → Type 0
AreSilent station_count [] = Unit {0}
AreSilent station_count (frame ∷ rest) =
    (reported_status station_count frame ≡ none) × AreSilent station_count rest

-- The status of the last frame that reports one, if some frame does.
unfoldable pub IsLastStatus : ℕ → List Bytes → Option SolemStatus → Type 0
IsLastStatus station_count frames none = AreSilent station_count frames
IsLastStatus station_count frames (some status) =
    (before : List Bytes) × (frame : Bytes) × (later : List Bytes) × (frames
      ≡ before ++ (frame ∷ later))
    × (reported_status station_count frame ≡ some status)
    × AreSilent station_count later

on_command_step :
    (station_count : ℕ) (s : CommandWait) (frame : Bytes)
    → ((on_command station_count s frame).response_event
        ≡ s.response_event || is_response station_count frame)
      × ((on_command station_count s frame).last_status
          ≡ elim (reported_status station_count frame) [ none ↦ s.last_status | some v ↦ some v ])
unfolding on_command handle_command is_response reported_status
on_command_step station_count s frame =
    elim (Result-cases (parse_status_notification frame station_count)) [
      | inl (parsed, eq) ↦ elim (Option-cases parsed) [
        | inl empty ↦ ground arith
        | inr (v, full) ↦ ground arith
      ]
      | inr (e, eq) ↦ ground arith
    ]

on_command_responses :
    (station_count : ℕ) (s : CommandWait) (frames : List Bytes)
    → (handle_all (on_command station_count) s frames).response_event
      ≡ s.response_event || any_frame (is_response station_count) frames
unfolding handle_all any_frame
on_command_responses station_count s [] = ground arith
on_command_responses station_count s (frame ∷ rest) =
    on_command_responses station_count (on_command station_count s frame) rest
    ∙ rw ((on_command_step station_count s frame).0) (
        or_assoc s.response_event (is_response station_count frame)
          (any_frame (is_response station_count) rest))

on_command_status :
    (station_count : ℕ) (s : CommandWait) (frames : List Bytes)
    → (AreSilent station_count frames
        × ((handle_all (on_command station_count) s frames).last_status ≡ s.last_status))
      ⊎ ((v : SolemStatus) × ((handle_all (on_command station_count) s frames).last_status ≡ some v)
          × IsLastStatus station_count frames (some v))
unfolding handle_all AreSilent IsLastStatus
on_command_status station_count s [] = inl (tt, refl)
on_command_status station_count s (frame ∷ rest) =
    let next = on_command station_count s frame in
    let step = (on_command_step station_count s frame).1 in
    elim (on_command_status station_count next rest) [
      | inr (v, is_v, (before, f, later, split, reported, silent)) ↦ inr (
        v,
        is_v,
        (frame ∷ before, f, later, ap (λ (t : List Bytes). frame ∷ t) split, reported, silent),
      )
      | inl (silent, same) ↦ elim (Option-cases (reported_status station_count frame)) [
        | inl none_reported ↦ inl ((none_reported, silent), same ∙ step ∙ rw none_reported refl)
        | inr (v, reported) ↦
            inr (v, same ∙ step ∙ rw reported refl, ([], frame, rest, refl, reported, silent))
      ]
    ]

IsLastStatus-handle_all :
    (station_count : ℕ) (frames : List Bytes) (status : Option SolemStatus)
    → (handle_all (on_command station_count) no_response frames).last_status ≡ status
    → IsLastStatus station_count frames status
unfolding IsLastStatus
IsLastStatus-handle_all station_count frames status h =
    elim (on_command_status station_count no_response frames) [
      | inl (silent, same) ↦ subst (IsLastStatus station_count frames) (sym same ∙ h) silent
      | inr (v, is_v, found) ↦ subst (IsLastStatus station_count frames) (sym is_v ∙ h) found
    ]

send_command-returns :
    (station_count : ℕ) (link : CommandLink) (command : Bytes) (s : CommandWait)
    → (send_command station_count link command).outcome ≡ returns s
    → s ≡ handle_all (on_command station_count) no_response link.answered
unfolding send_command
send_command-returns station_count link command s h = elim (Option-cases link.command_raises) [
  | inl eq ↦ ground arith
  | inr (e, eq) ↦ absurd (ground arith)
]

-- The command and the commit, and nothing else.
execute_command-KeepsTo :
    (station_count timeout : ℕ) (link : CommandLink) (command : Bytes)
    → KeepsTo (command ∷ pack_commit ∷ []) (execute_command station_count timeout link command)
unfolding execute_command send_command write_and_wait
execute_command-KeepsTo station_count timeout link command =
    unless_raised-KeepsTo link.subscribed (command ∷ pack_commit ∷ []) _ (
      and_then-KeepsTo (command ∷ []) (pack_commit ∷ []) (send_command station_count link command) _
        (one-KeepsTo command (send_command station_count link command).outcome)
        (λ s.
          and_then-KeepsTo (pack_commit ∷ []) []
            (write_and_wait has_response (on_command station_count) timeout pack_commit link.commit
              s)
            _
            (one-KeepsTo pack_commit
              (write_and_wait has_response (on_command station_count) timeout pack_commit
                link.commit s).outcome)
            (λ s'. only-KeepsTo (returns s'.last_status))))

returned_status : (a b : Option SolemStatus) → returns a ≡ returns b → a ≡ b
returned_status a b h = cc

-- If `_execute_command` returns, it has sent the command and the commit; among the first notifications
-- behind the command there is a response with seq 0; and what it returns is the last status that these
-- notifications report, or none if they report no status.
pub execute_command-IsLastStatus :
    (station_count timeout : ℕ) (link : CommandLink) (command : Bytes) (status : Option SolemStatus)
    → (execute_command station_count timeout link command).outcome ≡ returns status
    → ((execute_command station_count timeout link command).sent ≡ command ∷ pack_commit ∷ [])
      × (heard : List Bytes) × (later : List Bytes) × (link.answered ++ part_frames link.commit
          ≡ heard ++ later)
      × (any_frame (is_response station_count) heard ≡ true)
      × IsLastStatus station_count heard status
unfolding execute_command
execute_command-IsLastStatus station_count timeout link command status h =
    let handler = on_command station_count in
    let (s, sent, h1) = and_then-returns (send_command station_count link command) _ status (
      unless_raised-returns link.subscribed
        (and_then (send_command station_count link command) (λ s.
          and_then (write_and_wait has_response handler timeout pack_commit link.commit s)
            (λ s'. only (returns s'.last_status))))
        status h) in
    let (s', waited, h2) =
      and_then-returns (write_and_wait has_response handler timeout pack_commit link.commit s) _
        status h1 in
    let (heard, later, split, same, seen) =
      write_and_wait_heard has_response handler timeout pack_commit link.commit s s' waited in
    let all : s' ≡ handle_all handler no_response (link.answered ++ heard) =
      same
      ∙ ap (λ t. handle_all handler t heard)
          (send_command-returns station_count link command s sent)
      ∙ sym (handle_all-append handler no_response link.answered heard) in
    (
      KeepsTo-sent (command ∷ pack_commit ∷ []) (execute_command station_count timeout link command)
          status (execute_command-KeepsTo station_count timeout link command) h,
      link.answered ++ heard,
      later,
      ap (λ (t : List Bytes). link.answered ++ t) split
          ∙ sym (append_assoc link.answered heard later),
      sym (on_command_responses station_count no_response (link.answered ++ heard))
          ∙ ap (λ (t : CommandWait). t.response_event) (sym all)
          ∙ seen,
      IsLastStatus-handle_all station_count (link.answered ++ heard) status (
          ap (λ (t : CommandWait). t.last_status) (sym all)
          ∙ returned_status s'.last_status status h2),
    )

-- If the watering of a station returns, the station is between 1 and 8 and the minutes between 1 and
-- 240; what was sent is one command and the commit; and the command names the station in byte 3 and,
-- as the status decoder reads bytes 4 to 6, a remaining time of 60 seconds for each minute.
pub sprinkle_station_sent :
    (station_count timeout : ℕ) (link : CommandLink) (station minutes : ℤ)
    (session : Session (Option SolemStatus)) (status : Option SolemStatus)
    → sprinkle_station_x_for_y_minutes station_count timeout link station minutes ≡ ok session
    → session.outcome ≡ returns status
    → InRange 1 station 8
      × InRange 1 minutes 240
      × (command : Bytes) × (session.sent ≡ command ∷ pack_commit ∷ [])
      × (at command 3 ≡ pos_part station)
      × (valid_remaining (parse_int3 (at command 4) (at command 5) (at command 6))
          ≡ some (pos_part minutes * 60))
unfolding sprinkle_station_x_for_y_minutes
sprinkle_station_sent station_count timeout link station minutes session status h done =
    let (command, packed, same) = >>=-eq-ok (pack_sprinkle_station station minutes) _ h in
    let (stations, durations, bytes, seven, names, times) =
      sprinkle_station_fields station minutes command packed in
    let run = execute_command station_count timeout link command in
    let is_run : run ≡ session = ok-injective same in
    (
      stations,
      durations,
      command,
      ap (λ (t : Session (Option SolemStatus)). t.sent) (sym is_run)
          ∙ KeepsTo-sent (command ∷ pack_commit ∷ []) run status
              (execute_command-KeepsTo station_count timeout link command)
              (ap (λ (t : Session (Option SolemStatus)). t.outcome) is_run ∙ done),
      names,
      times,
    )
