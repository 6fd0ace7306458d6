-- ===== src/Client/Polls/Heard.antt =====
-- Where the status of `get_status` of src/solem_blip_ble/client_v2.py comes from.
use solem_blip_ble.Common.{
  ℕ, ◌≡◌, refl, sym, ap, ◌∙◌, ◌⊎◌, inl, inr, true, ◌&&◌, Option, none, some, List, [], ◌∷◌, ◌++◌,
  arith, Bytes, at, leb, ◌==◌, Bool-cases, Option-cases, length, ok, Result-cases,
}
use mathlib.Core.List.{Memᴰ}
use mathlib.Core.List.Memᴰ
use mathlib.Core.Path.{subst}
use solem_blip_ble.Common.Lists.{append_assoc}
use solem_blip_ble.Protocol.Command.{pack_commit}
use solem_blip_ble.Protocol.Status.{
  SolemStatus, parse_status_notification, parse_intermediate_remaining,
}
use solem_blip_ble.Client.Handlers.{StatusPoll, handle_status, late_remaining, add_late_remaining}
use solem_blip_ble.Client.Polling.{returns, handle_all}
use solem_blip_ble.Client.Session.{only, and_then, write_and_wait}
use solem_blip_ble.Client.Session.Log.{and_then-returns, unless_raised-returns}
use solem_blip_ble.Client.Session.Heard.{write_and_wait_heard, part_frames}
use package.solem_blip_ble.Client.Polls.{
  on_poll, no_status, has_status, awaits_remaining, StatusLink, found_status, settle, get_status,
}

-- A status as one frame reports it, or with the remaining time that another frame reports for its
-- station, where the first lacks it.
unfoldable pub IsReported : ℕ → List Bytes → SolemStatus → Type 0
IsReported station_count frames status =
    (base : SolemStatus) × (frame : Bytes) × Memᴰ frame frames
    × (parse_status_notification frame station_count ≡ ok (some base))
    × ((status ≡ base)
        ⊎ ((seconds : ℕ) × (station : ℕ) × (other : Bytes) × Memᴰ other frames
            × (base.is_watering ≡ true)
            × (base.remaining_seconds ≡ none)
            × (base.station_num ≡ some station)
            × (parse_intermediate_remaining other station station_count ≡ some seconds)
            × (status ≡ record base { remaining_seconds = some seconds })))

-- The status of the poll, if it has one, was reported by frames of the list.
unfoldable pub IsSourced : ℕ → List Bytes → Option SolemStatus → Type 0
IsSourced station_count frames none = Unit {0}
IsSourced station_count frames (some status) = IsReported station_count frames status

IsSourced-more :
    (station_count : ℕ) (frames more : List Bytes) (result : Option SolemStatus)
    → IsSourced station_count frames result
    → IsSourced station_count (frames ++ more) result
unfolding IsSourced IsReported
IsSourced-more station_count frames more none sourced = tt
IsSourced-more station_count frames more (some status) (base, frame, m, parsed, inl same) =
    (base, frame, Memᴰ.append_left more m, parsed, inl same)
IsSourced-more station_count frames more (some status)
      (base, frame, m, parsed, inr (seconds, station, other, n, w, r, s, i, same)) =
    (
      base,
      frame,
      Memᴰ.append_left more m,
      parsed,
      inr (seconds, station, other, Memᴰ.append_left more n, w, r, s, i, same),
    )

-- What the handler may do with one frame.
on_poll_cases :
    (station_count : ℕ) (s : StatusPoll) (frame : Bytes)
    → ((on_poll station_count s frame).status_result ≡ s.status_result)
      ⊎ ((v : SolemStatus) × (parse_status_notification frame station_count ≡ ok (some v))
          × ((on_poll station_count s frame).status_result ≡ some v))
      ⊎ ((v : SolemStatus) × (seconds : ℕ) × (station : ℕ) × (s.status_result ≡ some v)
          × (v.is_watering ≡ true)
          × (v.remaining_seconds ≡ none)
          × (v.station_num ≡ some station)
          × (parse_intermediate_remaining frame station station_count ≡ some seconds)
          × ((on_poll station_count s frame).status_result
              ≡ some (record v { remaining_seconds = some seconds })))
unfolding on_poll handle_status add_late_remaining late_remaining
on_poll_cases station_count s frame =
    elim (Result-cases (parse_status_notification frame station_count)) [
      | inr (e, eq) ↦ inl (ground arith)
      | inl (parsed, eq) ↦ elim (Option-cases parsed) [
        | inr (v, full) ↦ inr (inl (v, eq ∙ ap ok full, ground arith))
        | inl empty ↦ elim (Option-cases s.status_result) [
          | inl no_result ↦ inl (ground arith)
          | inr (v, has) ↦ elim (Option-cases v.station_num) [
            | inl no_station ↦ inl (ground arith)
            | inr (station, at_station) ↦
                elim (Option-cases (parse_intermediate_remaining frame station station_count)) [
                  | inl no_time ↦ inl (ground arith)
                  | inr (seconds, time) ↦ elim (Bool-cases v.is_watering) [
                    | inr dry ↦ inl (ground arith)
                    | inl watering ↦ elim (Option-cases v.remaining_seconds) [
                      | inr (known, is_known) ↦ inl (ground arith)
                      | inl unknown ↦ elim (Bool-cases (leb 3 (length frame) && at frame 2 == 1)) [
                        | inr other ↦ inl (ground arith)
                        | inl late ↦ inr (
                            inr (
                              v,
                              seconds,
                              station,
                              has,
                              watering,
                              unknown,
                              at_station,
                              time,
                              ground arith,
                            ))
                      ]
                    ]
                  ]
                ]
          ]
        ]
      ]
    ]

last_frame : (frames : List Bytes) (frame : Bytes) → Memᴰ frame (frames ++ (frame ∷ []))
last_frame frames frame = Memᴰ.append_right frames (Memᴰ.head refl)

-- A status that was reported without its remaining time, with the time of the next frame.
add_time :
    (station_count : ℕ) (frames : List Bytes) (frame : Bytes) (v : SolemStatus)
    (seconds station : ℕ)
    → IsReported station_count frames v
    → v.is_watering ≡ true
    → v.remaining_seconds ≡ none
    → v.station_num ≡ some station
    → parse_intermediate_remaining frame station station_count ≡ some seconds
    → IsReported station_count
        (frames ++ (frame ∷ []))
        (record v { remaining_seconds = some seconds })
unfolding IsReported
add_time station_count frames frame v seconds station (base, f, m, parsed, inl same) w r s i = (
  base,
  f,
  Memᴰ.append_left (frame ∷ []) m,
  parsed,
  inr (
    seconds,
    station,
    frame,
    last_frame frames frame,
    ap (λ (t : SolemStatus). t.is_watering) (sym same) ∙ w,
    ap (λ (t : SolemStatus). t.remaining_seconds) (sym same) ∙ r,
    ap (λ (t : SolemStatus). t.station_num) (sym same) ∙ s,
    i,
    ap (λ (t : SolemStatus). record t { remaining_seconds = some seconds }) same,
  ),
)
add_time station_count frames frame v seconds station
      (base, f, m, parsed, inr (seconds', station', other, n, w', r', s', i', same)) w r s i =
    absurd (ground (arith, ap (λ (t : SolemStatus). t.remaining_seconds) same))

on_poll-IsSourced :
    (station_count : ℕ) (seen : List Bytes) (s : StatusPoll) (frame : Bytes)
    → IsSourced station_count seen s.status_result
    → IsSourced station_count (seen ++ (frame ∷ [])) (on_poll station_count s frame).status_result
unfolding IsSourced IsReported
on_poll-IsSourced station_count seen s frame sourced = elim (on_poll_cases station_count s frame) [
  | inl same ↦
      subst (IsSourced station_count (seen ++ (frame ∷ []))) (sym same)
        (IsSourced-more station_count seen (frame ∷ []) s.status_result sourced)
  | inr (inl (v, parsed, result)) ↦
      subst (IsSourced station_count (seen ++ (frame ∷ []))) (sym result)
        (v, frame, last_frame seen frame, parsed, inl refl)
  | inr (inr (v, seconds, station, has, w, r, at_station, i, result)) ↦
      subst (IsSourced station_count (seen ++ (frame ∷ []))) (sym result) (
        add_time station_count seen frame v seconds station
          (subst (IsSourced station_count seen) has sourced) w r at_station i)
]

handle_all-IsSourced :
    (station_count : ℕ) (seen frames : List Bytes) (s : StatusPoll)
    → IsSourced station_count seen s.status_result
    → IsSourced station_count
        (seen ++ frames)
        (handle_all (on_poll station_count) s frames).status_result
unfolding handle_all
handle_all-IsSourced station_count seen [] s sourced =
    IsSourced-more station_count seen [] s.status_result sourced
handle_all-IsSourced station_count seen (frame ∷ rest) s sourced =
    subst
      (λ fs.
        IsSourced station_count fs
          (handle_all (on_poll station_count) (on_poll station_count s frame) rest).status_result)
      (append_assoc seen (frame ∷ []) rest)
      (handle_all-IsSourced station_count (seen ++ (frame ∷ [])) rest
        (on_poll station_count s frame) (on_poll-IsSourced station_count seen s frame sourced))

settle-IsReported :
    (station_count : ℕ) (heard settled : List Bytes) (s : StatusPoll) (status : SolemStatus)
    → IsSourced station_count heard s.status_result
    → settle station_count settled s ≡ returns status
    → IsReported station_count (heard ++ settled) status
unfolding settle IsSourced
settle-IsReported station_count heard settled s status sourced h =
    elim (Option-cases s.status_result) [
      | inl no_result ↦ absurd (ground arith)
      | inr (v, has) ↦ elim (Bool-cases (awaits_remaining v)) [
        | inr ready ↦ subst (IsReported station_count (heard ++ settled)) (ground arith) (
            IsSourced-more station_count heard settled (some v)
              (subst (IsSourced station_count heard) has sourced))
        | inl waiting ↦
            subst (IsSourced station_count (heard ++ settled))
              (found_is ((handle_all (on_poll station_count) s settled).status_result) status
                (ground arith))
              (handle_all-IsSourced station_count heard settled s sourced)
      ]
    ]
  where
    found_is : (o : Option SolemStatus) (v : SolemStatus) → found_status o ≡ returns v → o ≡ some v
    found_is none v e = absurd (ground arith)
    found_is (some u) v e = ground arith

-- The status that `get_status` returns is the one of a notification of the wait or of the delay, or
-- that one with the remaining time of another such notification, where the first lacks it and its
-- station waters.
pub get_status-IsReported :
    (station_count timeout : ℕ) (link : StatusLink) (status : SolemStatus)
    → (get_status station_count timeout link).outcome ≡ returns status
    → (heard : List Bytes) × (later : List Bytes) × (part_frames link.poll ≡ heard ++ later)
      × IsReported station_count (heard ++ link.settled) status
unfolding get_status IsSourced
get_status-IsReported station_count timeout link status h =
    let handler = on_poll station_count in
    let wait = write_and_wait has_status handler timeout pack_commit link.poll no_status in
    let (s, waited, settles) = and_then-returns wait _ status (
      unless_raised-returns link.subscribed
        (and_then wait (λ s. only (settle station_count link.settled s))) status h) in
    let (heard, later, split, same, seen) =
      write_and_wait_heard has_status handler timeout pack_commit link.poll no_status s waited in
    (
      heard,
      later,
      split,
      settle-IsReported station_count heard link.settled s status
          (subst (λ (t : StatusPoll). IsSourced station_count heard t.status_result) (sym same)
            (handle_all-IsSourced station_count [] heard no_status tt))
          settles,
    )
