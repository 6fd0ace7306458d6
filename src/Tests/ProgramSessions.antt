-- ===== src/Tests/ProgramSessions.antt =====
-- Configuration reads and program writes of src/solem_blip_ble/client_v2.py.
use solem_blip_ble.Common.{All}
use solem_blip_ble.Snapshot.Restore.Expected.{MakesExpected}
use solem_blip_ble.Snapshot.Restore.{
  write_of, writes_from, ordered_group, slot_writes, write_frames, key_block, key_slots, by_key,
  keys_within, collect_written, agrees, check_keys, validate_expected_write,
}
use solem_blip_ble.Client.ProgramWriting.{
  handle_block, write_block, write_blocks, program_transaction, checked_preflight, program_verdict,
  ProgramLink, ProgramLimits, write_program_frames,
}
use solem_blip_ble.Client.Session.{unless_raised, and_then, write_and_wait, Session, PartWait}
use solem_blip_ble.Snapshot.{
  slot_groups, digest_bytes, add_frame, conflicts, sort_frames, canonical, last_key, key_span,
  block_of, blocks_of, add_extra, bytes_le, ProgramSnapshot, from_frames, revision,
}
use solem_blip_ble.Common.Text.{ljust, decode_replace, Str, encode, encode_point}
use solem_blip_ble.Protocol.Config.{
  is_config_op, normalize_config_notification, parse_config_int3, parse_controller_date,
  empty_irrigation_program, is_program_frame, logical_chunk_of, parse_irrigation_config_fragment,
  u16_at, byte_at, set_item, apply_starts, apply_durations, apply_header, apply_irrigation_chunk,
  group_payloads, parsed_chunk, apply_fragments, assemble_group, assemble_groups, program_fragments,
  has_chunk, all_below, irrigation_program_complete, irrigation_config_complete,
  assemble_irrigation_programs, pack_get_irrigation_config,
}
use solem_blip_ble.Protocol.Write.{header_frame, program_frames, program_key}
use solem_blip_ble.Client.ConfigReading.{
  is_read_response, handle_config, handle_arrivals, is_quiet, config_turn, wait_for_config,
  parsed_snapshot, same_count, collect_payloads, notice, read_snapshot_turns, Arrival, ConfigTurn,
  ConfigCall, get_irrigation_config, read_snapshot,
}
use solem_blip_ble.Common.Dict.{insert, push, insert_desc, sort_desc, max_key, Dict, lookup}
use solem_blip_ble.Common.Lists.{list_eq}
use solem_blip_ble.Client.Polling.{
  handle_all, wait_turn, wait_for_event, Exception, write_rejected, returns, raises,
}
use Prim.Native.Nat.{◌≤◌}
use solem_blip_ble.Common.{
  ◌+◌, ◌≤◌, ◌≡◌, refl, Option, some, none, false, List, [], ◌∷◌, ◌++◌, map, arith, Bytes, at,
  length, drop, pos, Result, ok, err, replicate,
}
use solem_blip_ble.Protocol.Program.{IrrigationProgram, a_date}
use solem_blip_ble.Protocol.Write.ReadBack.{reported}
use solem_blip_ble.Client.Session.Log.{KeepsTo}
use solem_blip_ble.Client.ConfigReading.Complete.{
  IsComplete, IsAnswer, read_responses, get_irrigation_config-IsComplete,
}
use solem_blip_ble.Client.ProgramWriting.Plan.{
  program_plan, IsAccounted, write_program_frames_plan, write_program_frames_verdict,
}
use solem_blip_ble.Client.ProgramWriting.Verified.{AreAcknowledged, write_program_frames_verified}
use solem_blip_ble.Client.ProgramSetting.{set_irrigation_program}
use solem_blip_ble.Client.ProgramSetting.Verified.{AreWritten, set_irrigation_program_returns}
use solem_blip_ble.Tests.Programs.{thursday, no_clock, lawn, lawn_stored, lawn_frames, lawn_packed}

abbrev no_hash : Bytes → Str
no_hash bytes = bytes

-- Half the water, before the write.
abbrev dry : IrrigationProgram
dry = record lawn_stored { water_budget = pos 50 }

abbrev dry_response : List Bytes
dry_response =
    reported 6 (program_frames (program_key 0) lawn_stored thursday)
    ++ reported 6 (program_frames (program_key 1) lawn_stored thursday)
    ++ reported 6 (program_frames (program_key 2) dry thursday)

abbrev lawn_response : List Bytes
lawn_response =
    reported 6 (program_frames (program_key 0) lawn_stored thursday)
    ++ reported 6 (program_frames (program_key 1) lawn_stored thursday)
    ++ reported 6 lawn_frames

abbrev at_one : Bytes → Arrival
at_one frame = record { received = 1; frame = frame }

abbrev pause_turn : ConfigTurn
pause_turn = record { arrived = []; now = 2; dropped = false }

abbrev quiet_turn : ConfigTurn
quiet_turn = record { arrived = []; now = 5; dropped = false }

-- The response comes in the write, and the idle window passes.
abbrev config_call : List Bytes → ConfigCall
config_call frames = record {
  write_raises = none;
  answered = map at_one frames;
  started = 0;
  turns = pause_turn ∷ quiet_turn ∷ [];
}

abbrev no_programs : ProgramSnapshot
no_programs = record { frames = []; blocks = []; extras = []; programs = [] }

-- The snapshot of a response.
abbrev snapshot_of : Result ProgramSnapshot → ProgramSnapshot
snapshot_of (ok snapshot) = snapshot
snapshot_of (err e) = no_programs

abbrev programs_of : Result (Dict IrrigationProgram) → Dict IrrigationProgram
programs_of (ok programs) = programs
programs_of (err e) = []

lawn_read :
    get_irrigation_config 2 20 (config_call lawn_response)
    ≡ returns (snapshot_of (from_frames lawn_response))
unfolding pack_get_irrigation_config is_config_op normalize_config_notification parse_config_int3
    parse_controller_date empty_irrigation_program is_program_frame logical_chunk_of
    parse_irrigation_config_fragment u16_at byte_at set_item apply_starts apply_durations
    apply_header apply_irrigation_chunk group_payloads parsed_chunk apply_fragments assemble_group
    assemble_groups assemble_irrigation_programs program_fragments has_chunk all_below
    irrigation_program_complete irrigation_config_complete program_frames header_frame reported
    from_frames add_frame conflicts sort_frames canonical last_key key_span block_of blocks_of
    add_extra bytes_le revision digest_bytes encode encode_point decode_replace ljust
    is_read_response handle_config handle_arrivals is_quiet config_turn wait_for_config
    parsed_snapshot get_irrigation_config same_count collect_payloads notice read_snapshot_turns
    read_snapshot lookup insert push insert_desc sort_desc max_key list_eq handle_all wait_turn
    wait_for_event
lawn_read = refl

abbrev dry_snapshot : ProgramSnapshot
dry_snapshot = snapshot_of (from_frames dry_response)

abbrev lawn_snapshot : ProgramSnapshot
lawn_snapshot = snapshot_of (from_frames lawn_response)

get_irrigation_config-IsComplete_example :
    ((config_call lawn_response).write_raises ≡ none)
    × (payloads : List Bytes) × IsComplete
        (read_responses (map at_one lawn_response))
        (pause_turn ∷ quiet_turn ∷ [])
        payloads
    × All IsAnswer payloads
    × (from_frames payloads ≡ ok lawn_snapshot)
get_irrigation_config-IsComplete_example =
    get_irrigation_config-IsComplete 2 20 (config_call lawn_response) lawn_snapshot lawn_read

-- The command's byte and 00 come in the write.
abbrev acknowledged_part : Bytes → PartWait
acknowledged_part frame = record {
  write_raises = none;
  answered = ((at frame 0 + 1) ∷ 0x00 ∷ []) ∷ [];
  started = 0;
  turns = [];
}

abbrev limits : ProgramLimits
limits = record { idle = 2; timeout = 20 }

abbrev link : ProgramLink
link = record {
  preflight = config_call dry_response;
  subscribed = none;
  parts = map acknowledged_part lawn_frames;
  readback = config_call lawn_response;
}

abbrev written : Session ProgramSnapshot
written =
    write_program_frames no_hash limits link lawn_frames lawn_snapshot
      (revision no_hash dry_snapshot)

lawn_written_back : written.outcome ≡ returns lawn_snapshot
unfolding pack_get_irrigation_config is_config_op normalize_config_notification parse_config_int3
    parse_controller_date empty_irrigation_program is_program_frame logical_chunk_of
    parse_irrigation_config_fragment u16_at byte_at set_item apply_starts apply_durations
    apply_header apply_irrigation_chunk group_payloads parsed_chunk apply_fragments assemble_group
    assemble_groups assemble_irrigation_programs program_fragments has_chunk all_below
    irrigation_program_complete irrigation_config_complete program_frames header_frame reported
    from_frames add_frame conflicts sort_frames canonical last_key key_span block_of blocks_of
    add_extra bytes_le revision digest_bytes encode encode_point decode_replace ljust
    is_read_response handle_config handle_arrivals is_quiet config_turn wait_for_config
    parsed_snapshot get_irrigation_config same_count collect_payloads notice read_snapshot_turns
    read_snapshot lookup insert push insert_desc sort_desc max_key list_eq handle_all wait_turn
    wait_for_event write_of writes_from ordered_group slot_writes write_frames key_block key_slots
    by_key keys_within collect_written agrees check_keys validate_expected_write handle_block
    write_block write_blocks program_transaction checked_preflight program_verdict
    write_program_frames unless_raised and_then write_and_wait slot_groups
lawn_written_back = refl

write_program_frames_verified_example :
    (current : ProgramSnapshot) × (get_irrigation_config 2 20 (config_call dry_response)
      ≡ returns current)
    × (revision no_hash current ≡ revision no_hash dry_snapshot)
    × (validate_expected_write current lawn_frames lawn_snapshot ≡ ok tt)
    × MakesExpected current lawn_frames lawn_snapshot
    × AreAcknowledged lawn_frames (map acknowledged_part lawn_frames)
    × ((read_snapshot 2 20 (config_call lawn_response)).outcome ≡ returns lawn_snapshot)
    × (revision no_hash lawn_snapshot ≡ revision no_hash lawn_snapshot)
write_program_frames_verified_example =
    write_program_frames_verified no_hash limits link lawn_frames lawn_snapshot
      (revision no_hash dry_snapshot) lawn_snapshot lawn_written_back

write_program_frames_plan_example : KeepsTo (program_plan lawn_frames) written
write_program_frames_plan_example =
    write_program_frames_plan no_hash limits link lawn_frames lawn_snapshot
      (revision no_hash dry_snapshot)

-- The first block is rejected.
abbrev rejecting : ProgramLink
rejecting = record link {
  parts =
      record {
        write_raises = none;
        answered = (0x30 ∷ 0x00 ∷ 0xF0 ∷ []) ∷ [];
        started = 0;
        turns = [];
      }
      ∷ [];
}

abbrev head_frame : List Bytes → Bytes
head_frame [] = []
head_frame (frame ∷ frames) = frame

abbrev name_frame : Bytes
name_frame = head_frame lawn_frames

abbrev later_frames : List Bytes
later_frames = drop 1 lawn_frames

abbrev rejected : Session ProgramSnapshot
rejected =
    write_program_frames no_hash limits rejecting (name_frame ∷ later_frames) lawn_snapshot
      (revision no_hash dry_snapshot)

first_rejected : rejected.outcome ≡ raises write_rejected
unfolding pack_get_irrigation_config is_config_op normalize_config_notification parse_config_int3
    parse_controller_date empty_irrigation_program is_program_frame logical_chunk_of
    parse_irrigation_config_fragment u16_at byte_at set_item apply_starts apply_durations
    apply_header apply_irrigation_chunk group_payloads parsed_chunk apply_fragments assemble_group
    assemble_groups assemble_irrigation_programs program_fragments has_chunk all_below
    irrigation_program_complete irrigation_config_complete program_frames header_frame reported
    from_frames add_frame conflicts sort_frames canonical last_key key_span block_of blocks_of
    add_extra bytes_le revision digest_bytes encode encode_point decode_replace ljust
    is_read_response handle_config handle_arrivals is_quiet config_turn wait_for_config
    parsed_snapshot get_irrigation_config same_count collect_payloads notice read_snapshot_turns
    read_snapshot lookup insert push insert_desc sort_desc max_key list_eq handle_all wait_turn
    wait_for_event write_of writes_from ordered_group slot_writes write_frames key_block key_slots
    by_key keys_within collect_written agrees check_keys validate_expected_write handle_block
    write_block write_blocks program_transaction checked_preflight program_verdict
    write_program_frames unless_raised and_then write_and_wait slot_groups
first_rejected = refl

write_program_frames_verdict_example : IsAccounted rejected write_rejected
write_program_frames_verdict_example =
    write_program_frames_verdict no_hash limits rejecting name_frame later_frames lawn_snapshot
      (revision no_hash dry_snapshot) write_rejected first_rejected

abbrev seven_runs : List (Option Exception)
seven_runs = replicate 7 none

abbrev reports : Dict IrrigationProgram
reports = programs_of (assemble_irrigation_programs (reported 6 lawn_frames) 12)

reports_assembled : assemble_irrigation_programs (reported 6 lawn_frames) 12 ≡ ok reports
unfolding pack_get_irrigation_config is_config_op normalize_config_notification parse_config_int3
    parse_controller_date empty_irrigation_program is_program_frame logical_chunk_of
    parse_irrigation_config_fragment u16_at byte_at set_item apply_starts apply_durations
    apply_header apply_irrigation_chunk group_payloads parsed_chunk apply_fragments assemble_group
    assemble_groups assemble_irrigation_programs program_fragments has_chunk all_below
    irrigation_program_complete irrigation_config_complete program_frames header_frame reported
    from_frames add_frame conflicts sort_frames canonical last_key key_span block_of blocks_of
    add_extra bytes_le revision digest_bytes encode encode_point decode_replace ljust
    is_read_response handle_config handle_arrivals is_quiet config_turn wait_for_config
    parsed_snapshot get_irrigation_config same_count collect_payloads notice read_snapshot_turns
    read_snapshot lookup insert push insert_desc sort_desc max_key list_eq handle_all wait_turn
    wait_for_event
reports_assembled = refl

same_report : lookup 2 lawn_snapshot.programs ≡ lookup 2 reports
unfolding pack_get_irrigation_config is_config_op normalize_config_notification parse_config_int3
    parse_controller_date empty_irrigation_program is_program_frame logical_chunk_of
    parse_irrigation_config_fragment u16_at byte_at set_item apply_starts apply_durations
    apply_header apply_irrigation_chunk group_payloads parsed_chunk apply_fragments assemble_group
    assemble_groups assemble_irrigation_programs program_fragments has_chunk all_below
    irrigation_program_complete irrigation_config_complete program_frames header_frame reported
    from_frames add_frame conflicts sort_frames canonical last_key key_span block_of blocks_of
    add_extra bytes_le revision digest_bytes encode encode_point decode_replace ljust
    is_read_response handle_config handle_arrivals is_quiet config_turn wait_for_config
    parsed_snapshot get_irrigation_config same_count collect_payloads notice read_snapshot_turns
    read_snapshot lookup insert push insert_desc sort_desc max_key list_eq handle_all wait_turn
    wait_for_event
same_report = refl

seven_runs-AreWritten : AreWritten lawn_frames seven_runs
unfolding program_frames AreWritten
seven_runs-AreWritten = (refl, (refl, (refl, (refl, (refl, (refl, (refl, tt)))))))

short_name : length (encode lawn.name) ≤ 31
unfolding encode encode_point
short_name = omega arith

set_irrigation_program_returns_example :
    set_irrigation_program no_clock 2 20
      (pos 2)
      lawn
      (some (a_date thursday))
      seven_runs
      (config_call lawn_response)
    ≡ ok (record { sent = lawn_frames; outcome = returns lawn_snapshot.programs })
set_irrigation_program_returns_example =
    set_irrigation_program_returns no_clock 2 20 (pos 2) lawn (some (a_date thursday)) seven_runs
      (config_call lawn_response) lawn_frames lawn_snapshot reports lawn_packed (ground arith)
      (ground arith) short_name seven_runs-AreWritten lawn_read reports_assembled same_report
