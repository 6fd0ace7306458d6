-- ===== src/Tests/NameSessions.antt =====
-- Name reads and name writes of src/solem_blip_ble/client_v2.py and client_persistent.py.
use solem_blip_ble.Client.Reading.{
  read_turns, read_turn, on_idle, noticed, ReadTurn, ReadCall, read_station_names, HeldCall,
  read_in_place,
}
use solem_blip_ble.Names.{
  conflicts, is_name_fragment, all_have_both, has_both_halves, all_reported, contains_number,
  no_gap_below, sequence_end, names, station_count, named_stations, revision_bytes, add_fragment,
  collect, is_complete, join_all, StationNameSnapshot, from_frames, revision,
}
use solem_blip_ble.Common.Text.{ljust, encode_point, encode, strip, Str}
use solem_blip_ble.Client.Polling.{
  wait_turn, handle_all, wait_for_event, returns, raises, waits, silent_link,
}
use solem_blip_ble.Common.Dict.{push, insert_desc, sort_desc, insert, lookup, max_key}
use solem_blip_ble.Client.Session.{write_and_wait, and_then, unless_raised, Session, PartWait}
use solem_blip_ble.Client.NameWriting.{
  write_name_part, write_name_parts, require_revision, name_verdict, name_transaction, NameLimits,
  NameLink, name_read, write_station_name,
}
use solem_blip_ble.Client.Handlers.{handle_name_reply, handle_name_notification, name_frames}
use solem_blip_ble.Protocol.Metadata.{has_nul, pack_station_name, pack_get_station_names}
use solem_blip_ble.Common.Lists.{list_eq}
use solem_blip_ble.Common.{
  ◌+◌, suc, ◌≡◌, refl, ◌≢◌, inl, none, true, false, List, [], ◌∷◌, ◌++◌, arith, Bytes, take, drop,
  pos, ok,
}
use solem_blip_ble.Client.Session.Log.{KeepsTo}
use solem_blip_ble.Client.Reading.Complete.{
  all_arrived, Splits, HasLateTurn, read_station_names_complete, read_station_names_ends,
}
use solem_blip_ble.Client.Reading.Silent.{
  IsUnanswered, read_in_place_bounded, read_in_place_recovers,
}
use solem_blip_ble.Client.NameWriting.Plan.{name_plan, write_station_name_plan}
use solem_blip_ble.Client.NameWriting.Verified.{
  AreAcknowledged, write_station_name_verified, write_station_name_guarded,
}
use solem_blip_ble.Tests.StationNames.{two_frames, one_name, linked, linked_bytes, renamed_one}

-- Stands for the hash in the runs.
abbrev no_hash : Bytes → Str
no_hash bytes = bytes

abbrev quiet_turn : ReadTurn
quiet_turn = record {
  arrived = [];
  tested = 1;
  dropped = false;
  connected = true;
  received = 5;
  compared = 5;
}

-- Both halves of the name come in the write, and the idle window passes.
abbrev answered_read : List Bytes → ReadCall
answered_read frames = record {
  write_raises = none;
  answered = frames;
  started = 0;
  turns = quiet_turn ∷ quiet_turn ∷ [];
}

one_name_read : read_station_names 2 20 1 (answered_read two_frames) ≡ returns one_name
unfolding read_station_names name_frames list_eq from_frames collect add_fragment lookup insert
    is_complete max_key join_all
one_name_read = refl

read_station_names_complete_example :
    ((answered_read two_frames).write_raises ≡ none)
    × (taken : List ReadTurn) × (rest : List ReadTurn) × Splits
        (quiet_turn ∷ quiet_turn ∷ [])
        taken
        rest
    × (from_frames (name_frames (two_frames ++ all_arrived taken)) 1 ≡ ok one_name)
read_station_names_complete_example =
    read_station_names_complete 2 20 1 (answered_read two_frames) one_name one_name_read

abbrev late_turn : ReadTurn
late_turn = record quiet_turn { tested = 20; received = 20; compared = 20 }

abbrev late_read : ReadCall
late_read = record (answered_read []) { turns = late_turn ∷ [] }

late_read-HasLateTurn : HasLateTurn (0 + 20) (late_turn ∷ [])
unfolding HasLateTurn
late_read-HasLateTurn = inl (omega arith)

read_station_names_ends_example : read_station_names 2 20 1 late_read ≢ waits
read_station_names_ends_example = read_station_names_ends 2 20 1 late_read late_read-HasLateTurn

-- No frame comes, and the link stays up.
abbrev unanswered : HeldCall
unanswered = record { call = answered_read []; held = true; connected_after = true }

abbrev answered : HeldCall
answered = record { call = answered_read two_frames; held = true; connected_after = true }

read_in_place_bounded_example :
    read_in_place 2 20 1 1 (unanswered ∷ unanswered ∷ answered ∷ [])
    ≡ read_in_place 2 20 1 1 (take (suc 1) (unanswered ∷ unanswered ∷ answered ∷ []))
read_in_place_bounded_example =
    read_in_place_bounded 2 20 1 1 (unanswered ∷ unanswered ∷ answered ∷ [])

unanswered-IsUnanswered : IsUnanswered 2 20 1 unanswered
unfolding IsUnanswered read_station_names name_frames
unanswered-IsUnanswered = (refl, refl, refl)

answered-returns : read_station_names 2 20 1 (answered_read two_frames) ≢ raises silent_link
answered-returns h = ground (arith, one_name_read)

read_in_place_recovers_example :
    read_in_place 2 20 1 1 ((unanswered ∷ []) ++ (answered ∷ []))
    ≡ read_station_names 2 20 1 (answered_read two_frames)
read_in_place_recovers_example =
    read_in_place_recovers 2 20 1 1 (unanswered ∷ []) answered [] (unanswered-IsUnanswered, tt)
      (omega arith) answered-returns

abbrev name_limits : NameLimits
name_limits = record { idle = 2; timeout = 20; max_station_num = pos 1 }

-- 34 00 comes in the write.
abbrev acknowledged_part : PartWait
acknowledged_part = record {
  write_raises = none;
  answered = (0x34 ∷ 0x00 ∷ []) ∷ [];
  started = 0;
  turns = [];
}

abbrev renamed_frames : List Bytes
renamed_frames =
    (0x36 ∷ 0x12 ∷ 0x01 ∷ 0x00 ∷ take 16 linked_bytes)
    ∷ (0x36 ∷ 0x12 ∷ 0x00 ∷ 0x00 ∷ drop 16 linked_bytes)
    ∷ []

abbrev name_link : NameLink
name_link = record {
  subscribed = none;
  preflight = answered_read two_frames;
  parts = acknowledged_part ∷ acknowledged_part ∷ [];
  readback = answered_read renamed_frames;
}

abbrev first_part : Bytes
first_part = 0x33 ∷ 0x12 ∷ 0x00 ∷ 0x00 ∷ take 16 linked_bytes

abbrev second_part : Bytes
second_part = 0x33 ∷ 0x12 ∷ 0x01 ∷ 0x00 ∷ drop 16 linked_bytes

abbrev name_session : Session StationNameSnapshot
name_session = record {
  sent = pack_get_station_names ∷ first_part ∷ second_part ∷ pack_get_station_names ∷ [];
  outcome = returns renamed_one;
}

name_written :
    write_station_name no_hash name_limits name_link (pos 1) linked renamed_one one_name
    ≡ ok name_session
unfolding write_name_part write_name_parts require_revision name_transaction name_verdict
    write_station_name read_station_names read_turns read_turn on_idle noticed from_frames collect
    add_fragment conflicts is_name_fragment is_complete all_have_both has_both_halves all_reported
    contains_number no_gap_below sequence_end join_all revision revision_bytes names station_count
    named_stations pack_station_name has_nul strip encode encode_point ljust unless_raised and_then
    write_and_wait handle_all wait_turn wait_for_event handle_name_notification handle_name_reply
    name_frames lookup insert push insert_desc sort_desc max_key list_eq
name_written = refl

write_station_name_plan_example :
    (frames : List Bytes) × (pack_station_name (pos 1) linked (pos 1) ≡ ok frames)
    × KeepsTo (name_plan frames) name_session
write_station_name_plan_example =
    write_station_name_plan no_hash name_limits name_link (pos 1) linked renamed_one one_name
      name_session name_written

write_station_name_verified_example :
    (frames : List Bytes) × (current : StationNameSnapshot) × (pack_station_name
        (pos 1)
        linked
        (pos 1)
      ≡ ok frames)
    × ((name_read name_limits (answered_read two_frames)).outcome ≡ returns current)
    × (revision no_hash current ≡ revision no_hash one_name)
    × AreAcknowledged frames (acknowledged_part ∷ acknowledged_part ∷ [])
    × ((name_read name_limits (answered_read renamed_frames)).outcome ≡ returns renamed_one)
    × (revision no_hash renamed_one ≡ revision no_hash renamed_one)
write_station_name_verified_example =
    write_station_name_verified no_hash name_limits name_link (pos 1) linked renamed_one one_name
      name_session renamed_one name_written refl

write_station_name_guarded_example :
    (current : StationNameSnapshot) × (rest : List Bytes) × (pack_get_station_names ∷ first_part
        ∷ []
      ≡ pack_get_station_names ∷ rest)
    × ((name_read name_limits (answered_read two_frames)).outcome ≡ returns current)
    × (revision no_hash current ≡ revision no_hash one_name)
unfolding pack_get_station_names
write_station_name_guarded_example =
    write_station_name_guarded no_hash name_limits name_link (pos 1) linked renamed_one one_name
      name_session second_part (pack_get_station_names ∷ first_part ∷ [])
      (pack_get_station_names ∷ []) name_written refl (λ e. ground arith)
