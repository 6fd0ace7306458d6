-- ===== src/Client/Reading/Silent.antt =====
-- A link that answers a name read with nothing, in src/solem_blip_ble/client_v2.py and
-- client_persistent.py.
use solem_blip_ble.Common.{
  ℕ, zero, suc, ◌-◌, ◌≤◌, ◌≡◌, refl, sym, ap, ◌∙◌, ◌≢◌, inl, inr, true, false, none, List, [], ◌∷◌,
  ◌++◌, arith, length, take, All,
}
use solem_blip_ble.Client.Handlers.{name_frames}
use solem_blip_ble.Client.Polling.{Turned-cases, silent_link, raises, stops}
use package.solem_blip_ble.Client.Reading.{
  ReadTurn, NameRead, ReadLimits, on_idle, noticed, read_turn, read_turns, ReadCall, first_read,
  limits_of, read_station_names, HeldCall, read_in_place,
}
use package.solem_blip_ble.Client.Reading.Complete.{
  all_arrived, name_frames-append, frames_after, frames_after-cons, one_turn, turn_keeps, Splits,
}

silent_turn :
    (limits : ReadLimits) (turn : ReadTurn) (s : NameRead)
    → read_turn limits turn s ≡ stops (raises silent_link)
    → (s.frames ++ name_frames turn.arrived ≡ []) × (turn.connected ≡ true) × (turn.dropped ≡ false)
unfolding read_turn noticed on_idle
silent_turn limits turn s h = ground arith

read_turns_silent :
    (limits : ReadLimits) (turns : List ReadTurn) (s : NameRead)
    → read_turns limits turns s ≡ raises silent_link
    → (taken : List ReadTurn) × (rest : List ReadTurn) × Splits turns taken rest
      × (frames_after s taken ≡ [])
unfolding read_turns
read_turns_silent limits [] s h = cc
read_turns_silent limits (turn ∷ turns) s h = elim (Turned-cases (read_turn limits turn s)) [
  | inl (outcome, eq) ↦
      (turn ∷ [], turns, refl, one_turn turn s ∙ (silent_turn limits turn s (ground arith)).0)
  | inr (s', eq) ↦
      let (taken, rest, split, done) = read_turns_silent limits turns s' (ground arith) in
      (
        turn ∷ taken,
        rest,
        ap (λ (t : List ReadTurn). turn ∷ t) split,
        sym (frames_after-cons turn taken s s' (turn_keeps limits turn s s' eq)) ∙ done,
      )
]

-- A read that has sent its request and calls the link silent has seen no name frame at all, in the
-- write or in the turns up to its end.
pub read_station_names_silent :
    (idle timeout max_station_num : ℕ) (call : ReadCall)
    → call.write_raises ≡ none
    → read_station_names idle timeout max_station_num call ≡ raises silent_link
    → (taken : List ReadTurn) × (rest : List ReadTurn) × Splits call.turns taken rest
      × (name_frames (call.answered ++ all_arrived taken) ≡ [])
unfolding read_station_names
read_station_names_silent idle timeout max_station_num call sent h =
    let (taken, rest, split, done) =
      read_turns_silent (limits_of idle timeout max_station_num call) call.turns (first_read call)
        (ground arith) in
    (taken, rest, split, name_frames-append call.answered (all_arrived taken) ∙ done)

-- The request is sent once and again at most `attempts_left` times: later calls have no influence.
pub read_in_place_bounded :
    (idle timeout max_station_num attempts_left : ℕ) (calls : List HeldCall)
    → read_in_place idle timeout max_station_num attempts_left calls
      ≡ read_in_place idle timeout max_station_num attempts_left (take (suc attempts_left) calls)
unfolding read_in_place
read_in_place_bounded idle timeout max_station_num n [] = refl
read_in_place_bounded idle timeout max_station_num zero (h ∷ rest) = ground arith
read_in_place_bounded idle timeout max_station_num (suc n) (h ∷ rest) =
    ground (arith, read_in_place_bounded idle timeout max_station_num n rest)

-- A call that the held link leaves unanswered, and on which it stays connected.
unfoldable pub IsUnanswered : ℕ → ℕ → ℕ → HeldCall → Type 0
IsUnanswered idle timeout max_station_num h =
    (read_station_names idle timeout max_station_num h.call ≡ raises silent_link)
    × (h.held ≡ true)
    × (h.connected_after ≡ true)

-- If a held link leaves at most `attempts_left` requests unanswered, the read ends as the one behind
-- them does: its snapshot is returned, and its exception is raised.
pub read_in_place_recovers :
    (idle timeout max_station_num attempts_left : ℕ) (silent : List HeldCall) (answer : HeldCall)
    (rest : List HeldCall)
    → All (IsUnanswered idle timeout max_station_num) silent
    → length silent ≤ attempts_left
    → read_station_names idle timeout max_station_num answer.call ≢ raises silent_link
    → read_in_place idle timeout max_station_num attempts_left (silent ++ (answer ∷ rest))
      ≡ read_station_names idle timeout max_station_num answer.call
unfolding read_in_place IsUnanswered
read_in_place_recovers idle timeout max_station_num n [] answer rest u l h = ground arith
read_in_place_recovers idle timeout max_station_num n (s ∷ silent) answer rest ((q, held, on), us) l
      h =
    ground
      (arith, read_in_place_recovers idle timeout max_station_num (n - 1) silent answer rest us)
