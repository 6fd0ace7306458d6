-- ===== src/Protocol/Config.antt =====
-- Reading the persisted irrigation programs in src/solem_blip_ble/protocol.py: the notifications'
-- layouts, their fragments, the chunks of a program, assembly and the test for completeness.
pub mod Fragment
pub mod Chunk
pub mod Layout
pub mod Assemble
use solem_blip_ble.Common.{
  ℕ, zero, suc, ◌-◌, ◌/◌, ◌%◌, Bytes, at, set, List, [], ◌∷◌, Bool, true, false, ◌&&◌, ◌||◌, Option,
  none, some, ◌==◌, if◌then◌else◌, pos, negsuc, Result, ok, ◌>>=◌,
}
use solem_blip_ble.Common.Dict.{Dict, push, sort_desc, max_key}
use solem_blip_ble.Protocol.Program.{IrrigationProgram}
unfoldable pub use solem_blip_ble.Protocol.Config.Fragment.{
  pack_get_irrigation_config, is_config_op, normalize_config_notification, parse_config_int3,
  parse_controller_date, empty_irrigation_program, is_program_frame, logical_chunk_of,
  parse_irrigation_config_fragment,
}
pub use solem_blip_ble.Protocol.Config.Fragment.{
  IrrigationConfigFragment, irrigation_chunk_min_lengths, irrigation_logical_chunks,
}
unfoldable pub use solem_blip_ble.Protocol.Config.Chunk.{
  u16_at, byte_at, set_item, apply_starts, apply_durations, apply_header, apply_irrigation_chunk,
}
pub use solem_blip_ble.Protocol.Config.Chunk.{
  read_start, Assembly, name_bytes_or_empty, name_part, with_durations,
}

-- `fragment[2]`
abbrev pub fragment_key : Bytes → ℕ
fragment_key frame = at frame 2

-- The first loop: the normalised program frames by their index.
unfoldable pub group_payloads : List Bytes → Dict (List Bytes) → Dict (List Bytes)
group_payloads [] grouped = grouped
group_payloads (payload ∷ rest) grouped =
    group_payloads rest (elim (normalize_config_notification payload) [
      | none ↦ grouped
      | some frame ↦
          if is_program_frame frame then push (at frame 3 % 16) frame grouped else grouped
    ])

-- The chunk that `parse_irrigation_config_fragment` gives a frame of a group.
unfoldable pub parsed_chunk : Bytes → ℕ → Option ℕ
parsed_chunk frame first = elim (parse_irrigation_config_fragment frame (some first)) [
  | none ↦ none
  | some f ↦ elim f.logical_chunk [ pos chunk ↦ some chunk | negsuc n ↦ none ]
]

-- The loop over a group's frames, in their order.
unfoldable pub apply_fragments : ℕ → ℕ → List Bytes → Assembly → Result Assembly
apply_fragments first max_stations [] s = ok s
apply_fragments first max_stations (frame ∷ rest) s =
    (elim (parsed_chunk frame first) [
      | none ↦ ok s
      | some chunk ↦ apply_irrigation_chunk s frame chunk max_stations
    ])
    >>= λ s'. apply_fragments first max_stations rest s'

unfoldable pub assemble_group : ℕ → List Bytes → Result IrrigationProgram
assemble_group max_stations fragments =
    apply_fragments (max_key fragment_key fragments) max_stations (sort_desc fragment_key fragments)
      (empty_irrigation_program max_stations, none)
    >>= λ s. ok s.0

unfoldable pub assemble_groups : ℕ → Dict (List Bytes) → Result (Dict IrrigationProgram)
assemble_groups max_stations [] = ok []
assemble_groups max_stations ((index, fragments) ∷ rest) = do
  program ← assemble_group max_stations fragments
  programs ← assemble_groups max_stations rest
  ok ((index, program) ∷ programs)

-- A `max_stations` below 0 gives what 0 gives.
unfoldable pub assemble_irrigation_programs : List Bytes → ℕ → Result (Dict IrrigationProgram)
assemble_irrigation_programs payloads max_stations =
    assemble_groups max_stations (group_payloads payloads [])

-- The frames that `irrigation_program_complete` keeps for one index.
unfoldable pub program_fragments : ℕ → List Bytes → List Bytes
program_fragments index [] = []
program_fragments index (payload ∷ rest) =
    let later = program_fragments index rest in
    elim (normalize_config_notification payload) [
      | none ↦ later
      | some frame ↦
          if at frame 3 / 16 == 1 && at frame 3 % 16 == index then frame ∷ later else later
    ]

-- Whether a frame of the list has the chunk.
unfoldable pub has_chunk : ℕ → List Bytes → ℕ → Bool
has_chunk first [] chunk = false
has_chunk first (frame ∷ rest) chunk =
    elim (parsed_chunk frame first) [ none ↦ false | some c ↦ c == chunk ]
    || has_chunk first rest chunk

unfoldable pub all_below : ℕ → (ℕ → Bool) → Bool
all_below zero p = true
all_below (suc n) p = p n && all_below n p

-- The parsed chunks are below 7, so the set equals `set(range(7))` when it holds each of them.
unfoldable pub irrigation_program_complete : List Bytes → ℕ → Bool
unfolding has_chunk all_below
irrigation_program_complete payloads index =
    let fragments = program_fragments index payloads in
    all_below irrigation_logical_chunks (has_chunk (max_key fragment_key fragments) fragments)

unfoldable pub irrigation_config_complete : List Bytes → ℕ → Bool
unfolding all_below
irrigation_config_complete payloads program_count =
    all_below program_count (irrigation_program_complete payloads)
