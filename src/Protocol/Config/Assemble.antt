-- ===== src/Protocol/Config/Assemble.antt =====
-- Assembly of the programs from the payloads of a response: it raises nothing, and its programs are
-- well formed.
use Prim.Native.Nat.{◌≤◌}
use solem_blip_ble.Common.{
  ℕ, zero, suc, ◌+◌, ◌-◌, ◌*◌, ◌≤◌, ◌<◌, min, ◌≡◌, refl, ◌∙◌, inl, inr, Option, none, List, [], ◌∷◌,
  arith, Bytes, at, ltb, leb, if◌then◌else◌, Bool-cases, Option-cases, length, set, All, ℤ, pos,
  Result, ok,
}
use solem_blip_ble.Common.Lists.{length-set, length-replicate}
use solem_blip_ble.Common.Dict.{Dict, sort_desc, max_key, All-sort_desc, AllGroups, AllGroups-push}
use solem_blip_ble.Protocol.Program.{IrrigationProgram}
use solem_blip_ble.Protocol.Config.{
  parse_controller_date, normalize_config_notification, is_program_frame, parsed_chunk,
  fragment_key, apply_starts, apply_durations, apply_header, apply_irrigation_chunk, Assembly,
  apply_fragments, assemble_group, assemble_groups, group_payloads, assemble_irrigation_programs,
  empty_irrigation_program, read_start, with_durations, parse_config_int3,
}
use solem_blip_ble.Protocol.Config.Layout.{
  min_length, IsNormal, normalize-IsNormal, logical_chunk_of_inversion, parsed_chunk_of_normal,
}

-- A program that an assembly for `max_stations` works on.
pub record IsSized (max_stations : ℕ) (p : IrrigationProgram) : Type 0 where
  pub eight_starts : length p.start_times ≡ 8
  pub all_durations : length p.station_durations ≡ max_stations

apply_starts_total :
    (rounds slot : ℕ) (frame : Bytes) (starts : List (Option ℤ))
    → slot + rounds ≡ 8
    → 20 ≤ length frame
    → length starts ≡ 8
    → (out : List (Option ℤ)) × (apply_starts rounds slot frame starts ≡ ok out) × (length out ≡ 8)
unfolding apply_starts
apply_starts_total zero slot frame starts h l e = (starts, refl, e)
apply_starts_total (suc rounds) slot frame starts h l e =
    let minutes = at frame (4 + slot * 2) * 256 + at frame (4 + slot * 2 + 1) in
    let starts' = set starts slot (read_start minutes) in
    let (out, run, len) =
      apply_starts_total rounds (suc slot) frame starts' (omega arith) l
        (length-set starts slot _ ∙ e) in
    (out, ground (arith, run), len)

apply_durations_total :
    (rounds station offset : ℕ) (frame : Bytes) (max_stations : ℕ) (ds : List ℤ)
    → offset + rounds * 3 ≤ length frame
    → length ds ≡ max_stations
    → (out : List ℤ) × (apply_durations rounds station offset frame max_stations ds ≡ ok out)
      × (length out ≡ max_stations)
unfolding apply_durations
apply_durations_total zero station offset frame m ds l e = (ds, refl, e)
apply_durations_total (suc rounds) station offset frame m ds l e =
    elim (Bool-cases (leb m station)) [
      | inl ends ↦ (ds, ground arith, e)
      | inr goes ↦
          let v =
            pos (
              parse_config_int3 (at frame offset) (at frame (offset + 1))
                (at frame (offset + 2))) in
          let (out, run, len) =
            apply_durations_total rounds (suc station) (offset + 3) frame m (set ds station v)
              (omega arith) (length-set ds station v ∙ e) in
          (out, ground (arith, run), len)
    ]

apply_header_total :
    (max_stations : ℕ) (p : IrrigationProgram) (frame : Bytes)
    → 11 ≤ length frame
    → IsSized max_stations p
    → (out : IrrigationProgram) × (apply_header p frame ≡ ok out) × IsSized max_stations out
unfolding apply_header
apply_header_total m p frame l v = (
  record p {
    inter_station_delay = pos (at frame 4 * 256 + at frame (4 + 1));
    water_budget = pos (at frame 6 * 256 + at frame (6 + 1));
    cycle = pos (at frame 8);
    week_days = pos (at frame 9);
    period_length = pos (at frame 10);
    synchro_day = if ltb 11 (length frame) then pos (at frame 11) else p.synchro_day;
    period_start_date = none;
    controller_date = parse_controller_date frame;
  },
  ground arith,
  record { eight_starts = v.eight_starts; all_durations = v.all_durations },
)

with_durations_total :
    (max_stations : ℕ) (p : IrrigationProgram) (part : Option Bytes) (r : Result (List ℤ))
    → IsSized max_stations p
    → (out : List ℤ) × (r ≡ ok out) × (length out ≡ max_stations)
    → (s : Assembly) × (with_durations (p, part) r ≡ ok s) × IsSized max_stations s.0
with_durations_total m p part r v (out, run, len) = (
  (record p { station_durations = out }, part),
  rw run,
  record { eight_starts = v.eight_starts; all_durations = len },
)

-- A chunk whose frame is long enough is applied without an exception.
apply_chunk_total :
    (max_stations : ℕ) (p : IrrigationProgram) (part : Option Bytes) (frame : Bytes) (chunk : ℕ)
    → chunk < 7
    → min_length chunk ≤ length frame
    → IsSized max_stations p
    → (s : Assembly) × (apply_irrigation_chunk (p, part) frame chunk max_stations ≡ ok s)
      × IsSized max_stations s.0
unfolding apply_irrigation_chunk
apply_chunk_total m p part frame zero h l v = (_, refl, v)
apply_chunk_total m p part frame (suc zero) h l v =
    (_, refl, record { eight_starts = v.eight_starts; all_durations = v.all_durations })
apply_chunk_total m p part frame (suc (suc zero)) h l v =
    let (out, run, sized) = apply_header_total m p frame l v in ((out, part), rw run, sized)
apply_chunk_total m p part frame (suc (suc (suc zero))) h l v =
    let (out, run, len) =
      apply_starts_total 8 0 frame p.start_times (omega arith) l v.eight_starts in
    (
      (record p { start_times = out }, part),
      rw run,
      record { eight_starts = len; all_durations = v.all_durations },
    )
apply_chunk_total m p part frame (suc (suc (suc (suc zero)))) h l v =
    with_durations_total m p part _ v
      (apply_durations_total 5 0 4 frame m p.station_durations l v.all_durations)
apply_chunk_total m p part frame (suc (suc (suc (suc (suc zero))))) h l v =
    with_durations_total m p part _ v
      (apply_durations_total 5 5 4 frame m p.station_durations l v.all_durations)
apply_chunk_total m p part frame (suc (suc (suc (suc (suc (suc zero)))))) h l v =
    with_durations_total m p part _ v (
      apply_durations_total (min 12 m - 10) 10 4 frame m p.station_durations (omega arith)
        v.all_durations)
apply_chunk_total m p part frame (suc (suc (suc (suc (suc (suc (suc n))))))) h l v =
    absurd (omega arith)

apply_fragments_total :
    (first max_stations : ℕ) (frames : List Bytes) (p : IrrigationProgram) (part : Option Bytes)
    → All IsNormal frames
    → IsSized max_stations p
    → (s : Assembly) × (apply_fragments first max_stations frames (p, part) ≡ ok s)
      × IsSized max_stations s.0
unfolding apply_fragments
apply_fragments_total first m [] p part n v = (_, refl, v)
apply_fragments_total first m (frame ∷ rest) p part (n, ns) v =
    elim (Option-cases (parsed_chunk frame first)) [
      | inl skipped ↦ rw skipped (apply_fragments_total first m rest p part ns v)
      | inr (chunk, e) ↦
          let (in_range, _, l) =
            logical_chunk_of_inversion frame first chunk
              (ground (arith, parsed_chunk_of_normal frame first n)) in
          let ((p', part'), run, sized) = apply_chunk_total m p part frame chunk in_range l v in
          rw (e, run) (apply_fragments_total first m rest p' part' ns sized)
    ]

assemble_group_total :
    (max_stations : ℕ) (fragments : List Bytes)
    → All IsNormal fragments
    → (p : IrrigationProgram) × (assemble_group max_stations fragments ≡ ok p)
      × IsSized max_stations p
unfolding assemble_group empty_irrigation_program
assemble_group_total m fragments h =
    let (s, run, sized) =
      apply_fragments_total (max_key fragment_key fragments) m (sort_desc fragment_key fragments)
        (empty_irrigation_program m) none (All-sort_desc IsNormal fragment_key fragments h)
        (record { eight_starts = refl; all_durations = length-replicate m (pos 0) }) in
    (s.0, rw run, sized)

group_payloads-IsNormal :
    (payloads : List Bytes) (grouped : Dict (List Bytes))
    → AllGroups IsNormal grouped
    → AllGroups IsNormal (group_payloads payloads grouped)
unfolding group_payloads
group_payloads-IsNormal [] grouped h = h
group_payloads-IsNormal (payload ∷ rest) grouped h =
    elim (Option-cases (normalize_config_notification payload)) [
      | inl e ↦ rw e (group_payloads-IsNormal rest grouped h)
      | inr (frame, e) ↦ elim (Bool-cases (is_program_frame frame)) [
        | inl keep ↦
            rw (e, keep)
              (group_payloads-IsNormal rest _
                (AllGroups-push IsNormal _ frame grouped (normalize-IsNormal payload frame e) h))
        | inr other ↦ rw (e, other) (group_payloads-IsNormal rest grouped h)
      ]
    ]

-- A property of every program of a dict.
abbrev pub AllPrograms : (IrrigationProgram → Type 0) → Dict IrrigationProgram → Type 0
AllPrograms P [] = Unit
AllPrograms P ((index, p) ∷ d) = P p × AllPrograms P d

assemble_groups_total :
    (max_stations : ℕ) (grouped : Dict (List Bytes))
    → AllGroups IsNormal grouped
    → (d : Dict IrrigationProgram) × (assemble_groups max_stations grouped ≡ ok d)
      × AllPrograms (IsSized max_stations) d
unfolding assemble_groups
assemble_groups_total m [] h = ([], refl, tt)
assemble_groups_total m ((index, fragments) ∷ rest) (h, hs) =
    let (p, run, sized) = assemble_group_total m fragments h in
    let (d, runs, all_sized) = assemble_groups_total m rest hs in
    ((index, p) ∷ d, rw (run, runs), (sized, all_sized))

-- Whatever payloads arrive, assembly raises no exception, and each program has eight start slots
-- and a duration for each of the stations.
pub assemble_total :
    (payloads : List Bytes) (max_stations : ℕ)
    → (d : Dict IrrigationProgram) × (assemble_irrigation_programs payloads max_stations ≡ ok d)
      × AllPrograms (IsSized max_stations) d
unfolding assemble_irrigation_programs
assemble_total payloads m = assemble_groups_total m _ (group_payloads-IsNormal payloads [] tt)
