-- ===== src/Client/NameListing.antt =====
-- `get_station_names`, `get_station_name` and `get_station_name_snapshot` of
-- src/solem_blip_ble/client_v2.py: the names as they have arrived, and the complete read.
pub mod Within
use solem_blip_ble.Common.{
  ℕ, ◌+◌, Bytes, List, [], ◌∷◌, ◌++◌, Bool, true, false, ◌&&◌, Option, none, some, is_some, leb,
  if◌then◌else◌, Result, ok, err, ℤ, guard, ◌>>◌, between, pos_part,
}
use solem_blip_ble.Common.Text.{Str, decode_replace}
use solem_blip_ble.Common.Dict.{Dict, lookup, insert}
use solem_blip_ble.Common.Results.{station_range}
use solem_blip_ble.Names.{StationNameSnapshot, group_or_empty, half_or_empty}
use solem_blip_ble.Protocol.Metadata.{
  StationNameFragment, parse_station_name_fragment, pack_get_station_names,
}
use solem_blip_ble.Client.Polling.{
  Exception, connection_error, drop_detected, Outcome, returns, raises, waits, Turned, stops,
  goes_on,
}
use solem_blip_ble.Client.Session.{Session, unless_raised}
use solem_blip_ble.Client.ConfigReading.{Arrival, ConfigTurn, ConfigLimits, ConfigCall, is_quiet}
use package.solem_blip_ble.Client.Reading.{ReadCall, read_station_names}

-- `fragments`, `station_names` and `last_fragment_at`.
pub record NameListing : Type 0 where
  pub fragments : Dict (Dict Bytes)
  pub station_names : Dict Str
  pub last_fragment_at : Option ℕ

-- The names with one more, once both halves are there.
unfoldable pub add_name : ℕ → Dict Bytes → Dict Str → Dict Str
add_name station group names =
    if is_some (lookup 0 group) && is_some (lookup 1 group)
    then insert station
        (decode_replace (half_or_empty (lookup 1 group) ++ half_or_empty (lookup 0 group))) names
    else names

unfoldable pub keep_fragment : ℕ → NameListing → StationNameFragment → NameListing
unfolding add_name
keep_fragment max_station_num s f =
    let group = insert f.sequence f.name_bytes (group_or_empty (lookup f.station s.fragments)) in
    if leb 1 f.station && leb f.station max_station_num
    then record s {
      fragments = insert f.station group s.fragments;
      station_names = add_name f.station group s.station_names;
    }
    else s

-- The notification handler.
unfoldable pub handle_fragment : ℕ → NameListing → Arrival → NameListing
unfolding keep_fragment
handle_fragment max_station_num s arrival = elim (parse_station_name_fragment arrival.frame) [
  | none ↦ s
  | some f ↦ keep_fragment max_station_num (record s { last_fragment_at = some arrival.received }) f
]

unfoldable pub handle_fragments : ℕ → NameListing → List Arrival → NameListing
handle_fragments max_station_num s [] = s
handle_fragments max_station_num s (arrival ∷ rest) =
    handle_fragments max_station_num (handle_fragment max_station_num s arrival) rest

abbrev pub has_names : Dict Str → Bool
has_names [] = false
has_names (entry ∷ rest) = true

-- One turn of `_wait_for_station_names`.
unfoldable pub listing_turn :
    ConfigLimits → ConfigTurn → NameListing → Turned NameListing (Dict Str)
listing_turn limits turn s =
    if has_names s.station_names && is_quiet limits.idle turn.now s.last_fragment_at
    then stops (returns s.station_names)
    else if leb limits.deadline turn.now
    then (if has_names s.station_names
        then stops (returns s.station_names)
        else stops (raises connection_error))
    else if turn.dropped
    then stops (raises drop_detected)
    else goes_on s

unfoldable pub listing_turns : ℕ → ConfigLimits → List ConfigTurn → NameListing → Outcome (Dict Str)
unfolding listing_turn
listing_turns max_station_num limits [] s = waits
listing_turns max_station_num limits (turn ∷ turns) s =
    elim (listing_turn limits turn (handle_fragments max_station_num s turn.arrived)) [
      | stops outcome ↦ outcome
      | goes_on s' ↦ listing_turns max_station_num limits turns s'
    ]

abbrev pub no_names : NameListing
no_names = record { fragments = []; station_names = []; last_fragment_at = none }

-- `idle` is STATION_NAMES_IDLE_TIMEOUT and `timeout` STATUS_NOTIFY_TIMEOUT.
unfoldable pub get_station_names : ℕ → ℕ → ℕ → ConfigCall → Outcome (Dict Str)
unfolding listing_turns
get_station_names idle timeout max_station_num call = elim call.write_raises [
  | some e ↦ raises e
  | none ↦
      listing_turns max_station_num (record { idle = idle; deadline = call.started + timeout })
        call.turns (handle_fragments max_station_num no_names call.answered)
]

-- `err` is the ValueError for the station; the KeyError of a name that has not come is `none`.
unfoldable pub get_station_name : ℕ → ℕ → ℕ → ConfigCall → ℤ → Result (Outcome (Option Str))
unfolding get_station_names
get_station_name idle timeout max_station_num call station =
    guard (between 1 station max_station_num) station_range
    >> ok (elim (get_station_names idle timeout max_station_num call) [
      | returns names ↦ returns (lookup (pos_part station) names)
      | raises e ↦ raises e
      | waits ↦ waits
    ])

-- `subscribed` is the exception of `_start_notify` or `_ensure_client`, if there is one.
unfoldable pub get_station_name_snapshot :
    ℕ → ℕ → ℕ → Option Exception → ReadCall → Session StationNameSnapshot
get_station_name_snapshot idle timeout max_station_num subscribed call =
    unless_raised subscribed (record {
      sent = pack_get_station_names ∷ [];
      outcome = read_station_names idle timeout max_station_num call;
    })
