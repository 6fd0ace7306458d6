-- ===== src/Client/Reading.antt =====
-- `_read_station_names_on_connection` of src/solem_blip_ble/client_v2.py, and the same method of
-- client_persistent.py, which asks again in place.
pub mod Complete
pub mod Silent
use solem_blip_ble.Common.{◌-◌}
use solem_blip_ble.Common.{
  ℕ, zero, suc, ◌+◌, min, max, Bytes, length, List, [], ◌∷◌, ◌++◌, Bool, true, false, not, ◌&&◌,
  ◌||◌, Option, none, some, ltb, leb, ◌==◌, if◌then◌else◌, Result, ok, err,
}
use solem_blip_ble.Names.{StationNameSnapshot, from_frames, names, station_count, named_stations}
use solem_blip_ble.Client.Handlers.{name_frames}
use solem_blip_ble.Client.Polling.{
  Exception, connection_error, silent_link, invalid_snapshot, drop_detected, Outcome, returns,
  raises, waits, Turned, stops, goes_on,
}

-- One turn of the loop: the notifications since the turn before, the three readings of the clock,
-- whether `_check_drop` raises, and `client.is_connected`.
pub record ReadTurn : Type 0 where
  pub arrived : List Bytes
  pub tested : ℕ
  pub dropped : Bool
  pub connected : Bool
  pub received : ℕ
  pub compared : ℕ

-- The variables of the loop. `last_rejected_count` is none for -1.
pub record NameRead : Type 0 where
  pub frames : List Bytes
  pub count : ℕ
  pub last_received : ℕ
  pub last_rejected_count : Option ℕ

-- STATION_NAMES_IDLE_TIMEOUT, the deadline of the stage, and `max_station_num`.
pub record ReadLimits : Type 0 where
  pub idle : ℕ
  pub deadline : ℕ
  pub max_station_num : ℕ

abbrev pub is_count : Option ℕ → ℕ → Bool
is_count none n = false
is_count (some c) n = c == n

-- The station count that a snapshot is adopted with.
unfoldable pub adopted_count : ℕ → ℕ → StationNameSnapshot → ℕ
adopted_count max_station_num current snapshot =
    max current (elim (named_stations (names snapshot)) [
      | [] ↦ min (station_count snapshot) max_station_num
      | entry ∷ rest ↦ station_count snapshot
    ])

-- No new frame has come in the idle window.
unfoldable pub on_idle : ReadLimits → NameRead → Turned NameRead StationNameSnapshot
on_idle limits s = elim s.frames [
  | [] ↦
      if is_count s.last_rejected_count 0
      then stops (raises silent_link)
      else goes_on (record s { last_rejected_count = some 0 })
  | frame ∷ rest ↦ elim (from_frames s.frames limits.max_station_num) [
    | err e ↦
        if is_count s.last_rejected_count (length s.frames)
        then stops (raises invalid_snapshot)
        else goes_on (record s { last_rejected_count = some (length s.frames) })
    | ok snapshot ↦ stops (returns snapshot)
  ]
]

-- `frames.append` of the notification handler between two turns.
abbrev pub collected : NameRead → List Bytes → NameRead
collected s arrived = record s { frames = s.frames ++ name_frames arrived }

-- The count and the time, if frames have come.
unfoldable pub noticed : ℕ → NameRead → NameRead
noticed received s =
    if length s.frames == s.count
    then s
    else record s { count = length s.frames; last_received = received }

unfoldable pub read_turn : ReadLimits → ReadTurn → NameRead → Turned NameRead StationNameSnapshot
unfolding noticed on_idle
read_turn limits turn before =
    if not (ltb turn.tested limits.deadline)
    then stops (raises invalid_snapshot)
    else if turn.dropped
    then stops (raises drop_detected)
    else if not turn.connected
    then stops (raises connection_error)
    else let s = noticed turn.received (collected before turn.arrived) in
      if leb (s.last_received + limits.idle) turn.compared then on_idle limits s else goes_on s

unfoldable pub read_turns : ReadLimits → List ReadTurn → NameRead → Outcome StationNameSnapshot
unfolding read_turn
read_turns limits [] s = waits
read_turns limits (turn ∷ turns) s = elim (read_turn limits turn s) [
  | stops outcome ↦ outcome
  | goes_on s' ↦ read_turns limits turns s'
]

-- What one call meets: the exception of the write, if there is one, the notifications that arrive in
-- it, the clock behind it and the turns. The two readings of the clock behind it are taken as one.
pub record ReadCall : Type 0 where
  pub write_raises : Option Exception
  pub answered : List Bytes
  pub started : ℕ
  pub turns : List ReadTurn

-- The state behind the write, and the deadline that counts from it; `timeout` is
-- STATUS_NOTIFY_TIMEOUT.
abbrev pub first_read : ReadCall → NameRead
first_read call = record {
  frames = name_frames call.answered;
  count = length (name_frames call.answered);
  last_received = call.started;
  last_rejected_count = none;
}

abbrev pub limits_of : ℕ → ℕ → ℕ → ReadCall → ReadLimits
limits_of idle timeout max_station_num call = record {
  idle = idle;
  deadline = call.started + timeout;
  max_station_num = max_station_num;
}

unfoldable pub read_station_names : ℕ → ℕ → ℕ → ReadCall → Outcome StationNameSnapshot
unfolding read_turns
read_station_names idle timeout max_station_num call = elim call.write_raises [
  | some e ↦ raises e
  | none ↦ read_turns (limits_of idle timeout max_station_num call) call.turns (first_read call)
]

-- A call on the held connection, with what the persistent client asks behind it: whether the client
-- is the active one and connected, and whether it is connected after the delay.
pub record HeldCall : Type 0 where
  pub call : ReadCall
  pub held : Bool
  pub connected_after : Bool

-- The override, with the re-requests that are left. `waits` where the calls run out.
unfoldable pub read_in_place : ℕ → ℕ → ℕ → ℕ → List HeldCall → Outcome StationNameSnapshot
read_in_place idle timeout max_station_num attempts_left [] = waits
read_in_place idle timeout max_station_num attempts_left (h ∷ rest) =
    elim (read_station_names idle timeout max_station_num h.call) [
      | returns snapshot ↦ returns snapshot
      | waits ↦ waits
      | raises silent_link ↦
          let again = read_in_place idle timeout max_station_num (attempts_left - 1) rest in
          if not h.held || leb attempts_left 0
          then raises silent_link
          else if not h.connected_after
          then raises connection_error
          else again
      | raises e ↦ raises e
    ]
