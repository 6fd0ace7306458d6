-- ===== src/Client/Reading/Complete.antt =====
-- What a name read of src/solem_blip_ble/client_v2.py returns, and that it ends.
use solem_blip_ble.Common.{
  ℕ, ◌+◌, ◌≤◌, ◌≡◌, refl, sym, ap, ◌∙◌, ◌≢◌, ◌⊎◌, inl, inr, none, List, [], ◌∷◌, ◌++◌, arith, Bytes,
  Option-cases, ok,
}
use solem_blip_ble.Names.{StationNameSnapshot, from_frames}
use solem_blip_ble.Client.Handlers.{name_frames}
use solem_blip_ble.Common.Lists.{append_assoc, append-nil}
use solem_blip_ble.Client.Polling.{
  Turned-cases, invalid_snapshot, returns, raises, waits, stops, goes_on,
}
use solem_blip_ble.Client.Reading.{
  ReadTurn, NameRead, ReadLimits, on_idle, noticed, read_turn, read_turns, ReadCall, first_read,
  limits_of, read_station_names,
}

-- The notifications of the turns, one behind the other.
unfoldable pub all_arrived : List ReadTurn → List Bytes
all_arrived [] = []
all_arrived (turn ∷ turns) = turn.arrived ++ all_arrived turns

-- What one turn does: it stops with the frames it has, or keeps all of them.
turn_cases :
    (limits : ReadLimits) (turn : ReadTurn) (s : NameRead) (snapshot : StationNameSnapshot)
    → read_turn limits turn s ≡ stops (returns snapshot)
    → from_frames (s.frames ++ name_frames turn.arrived) limits.max_station_num ≡ ok snapshot
unfolding read_turn noticed on_idle
turn_cases limits turn s snapshot h = ground arith

pub turn_keeps :
    (limits : ReadLimits) (turn : ReadTurn) (s s' : NameRead)
    → read_turn limits turn s ≡ goes_on s'
    → s'.frames ≡ s.frames ++ name_frames turn.arrived
unfolding read_turn noticed on_idle
turn_keeps limits turn s s' h = ground arith

pub name_frames-append :
    (xs ys : List Bytes) → name_frames (xs ++ ys) ≡ name_frames xs ++ name_frames ys
unfolding name_frames
name_frames-append [] ys = refl
name_frames-append (x ∷ xs) ys = ground (arith, name_frames-append xs ys)

-- The frames of a state, and those that arrive in the turns behind it.
abbrev pub frames_after : NameRead → List ReadTurn → List Bytes
frames_after s turns = s.frames ++ name_frames (all_arrived turns)

-- A turn adds to the frames what arrives in it.
pub frames_after-cons :
    (turn : ReadTurn) (turns : List ReadTurn) (s s' : NameRead)
    → s'.frames ≡ s.frames ++ name_frames turn.arrived
    → frames_after s' turns ≡ frames_after s (turn ∷ turns)
unfolding all_arrived
frames_after-cons turn turns s s' e =
    ap (λ (t : List Bytes). t ++ name_frames (all_arrived turns)) e
    ∙ append_assoc s.frames (name_frames turn.arrived) (name_frames (all_arrived turns))
    ∙ ap (λ (t : List Bytes). s.frames ++ t)
        (sym (name_frames-append turn.arrived (all_arrived turns)))

-- The turns that the loop has taken, and the others.
abbrev pub Splits : List ReadTurn → List ReadTurn → List ReadTurn → Type 0
Splits turns taken rest = turns ≡ taken ++ rest

pub one_turn :
    (turn : ReadTurn) (s : NameRead)
    → frames_after s (turn ∷ []) ≡ s.frames ++ name_frames turn.arrived
unfolding all_arrived
one_turn turn s = ap (λ (t : List Bytes). s.frames ++ name_frames t) (append-nil turn.arrived)

pub read_turns_complete :
    (limits : ReadLimits) (turns : List ReadTurn) (s : NameRead) (snapshot : StationNameSnapshot)
    → read_turns limits turns s ≡ returns snapshot
    → (taken : List ReadTurn) × (rest : List ReadTurn) × Splits turns taken rest
      × (from_frames (frames_after s taken) limits.max_station_num ≡ ok snapshot)
unfolding read_turns
read_turns_complete limits [] s snapshot h = cc
read_turns_complete limits (turn ∷ turns) s snapshot h =
    elim (Turned-cases (read_turn limits turn s)) [
      | inl (outcome, eq) ↦ (
        turn ∷ [],
        turns,
        refl,
        ap (λ fs. from_frames fs limits.max_station_num) (one_turn turn s)
            ∙ turn_cases limits turn s snapshot (ground arith),
      )
      | inr (s', eq) ↦
          let (taken, rest, split, done) =
            read_turns_complete limits turns s' snapshot (ground arith) in
          (
            turn ∷ taken,
            rest,
            ap (λ (t : List ReadTurn). turn ∷ t) split,
            ap (λ fs. from_frames fs limits.max_station_num)
                  (sym (frames_after-cons turn taken s s' (turn_keeps limits turn s s' eq)))
                ∙ done,
          )
    ]

-- A name read that returns has sent its request, and its snapshot is the complete one of all name
-- frames that came in the write and in the turns up to its end.
pub read_station_names_complete :
    (idle timeout max_station_num : ℕ) (call : ReadCall) (snapshot : StationNameSnapshot)
    → read_station_names idle timeout max_station_num call ≡ returns snapshot
    → (call.write_raises ≡ none)
      × (taken : List ReadTurn) × (rest : List ReadTurn) × Splits call.turns taken rest
      × (from_frames (name_frames (call.answered ++ all_arrived taken)) max_station_num
          ≡ ok snapshot)
unfolding read_station_names
read_station_names_complete idle timeout max_station_num call snapshot h =
    elim (Option-cases call.write_raises) [
      | inr (e, eq) ↦ absurd (ground arith)
      | inl eq ↦
          let (taken, rest, split, done) =
            read_turns_complete (limits_of idle timeout max_station_num call) call.turns
              (first_read call) snapshot (ground arith) in
          (
            eq,
            taken,
            rest,
            split,
            ap (λ fs. from_frames fs max_station_num)
                  (name_frames-append call.answered (all_arrived taken))
                ∙ done,
          )
    ]

-- Some turn begins behind the deadline.
unfoldable pub HasLateTurn : ℕ → List ReadTurn → Type 0
HasLateTurn deadline [] = ⊥
HasLateTurn deadline (turn ∷ turns) = (deadline ≤ turn.tested) ⊎ HasLateTurn deadline turns

late_stops :
    (limits : ReadLimits) (turn : ReadTurn) (s : NameRead)
    → limits.deadline ≤ turn.tested
    → read_turn limits turn s ≡ stops (raises invalid_snapshot)
unfolding read_turn
late_stops limits turn s h = ground arith

turn_ends :
    (limits : ReadLimits) (turn : ReadTurn) (s : NameRead) → read_turn limits turn s ≢ stops waits
unfolding read_turn on_idle noticed
turn_ends limits turn s h = ground arith

pub read_turns_end :
    (limits : ReadLimits) (turns : List ReadTurn) (s : NameRead)
    → HasLateTurn limits.deadline turns
    → read_turns limits turns s ≢ waits
unfolding read_turns HasLateTurn
read_turns_end limits [] s late h = late
read_turns_end limits (turn ∷ turns) s late h = elim (Turned-cases (read_turn limits turn s)) [
  | inl (outcome, eq) ↦ turn_ends limits turn s (eq ∙ ap stops (ground arith))
  | inr (s', eq) ↦ elim late [
    | inl now ↦ ground (arith, late_stops limits turn s now)
    | inr later ↦ read_turns_end limits turns s' later (ground arith)
  ]
]

-- A name read ends as soon as one turn begins behind its deadline, whatever arrives and whatever the
-- link does.
pub read_station_names_ends :
    (idle timeout max_station_num : ℕ) (call : ReadCall)
    → HasLateTurn (call.started + timeout) call.turns
    → read_station_names idle timeout max_station_num call ≢ waits
unfolding read_station_names
read_station_names_ends idle timeout max_station_num call late h =
    elim (Option-cases call.write_raises) [
      | inr (e, eq) ↦ ground arith
      | inl eq ↦
          read_turns_end (limits_of idle timeout max_station_num call) call.turns (first_read call)
            late (ground arith)
    ]
