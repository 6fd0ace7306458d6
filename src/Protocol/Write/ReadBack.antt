-- ===== src/Protocol/Write/ReadBack.antt =====
-- A program that src/solem_blip_ble/protocol.py has written, read back from the controller. The
-- controller is taken to report the seven frames as it got them, under the read command 0x3A and
-- numbered from 6 down to 0.
use Prim.Native.Nat.{◌≤◌}
use solem_blip_ble.Common.Lists.{
  take_all, length-append, length-drop, length-take, length-replicate,
}
use solem_blip_ble.Common.{
  ℕ, ◌+◌, ◌-◌, ◌/◌, ◌%◌, ◌≤◌, ◌<◌, ◌≡◌, refl, ap, ◌∙◌, true, ◌&&◌, Option, none, some, List, [],
  ◌∷◌, ◌++◌, map, arith, Bytes, at, byte, ltb, ◌==◌, length, take, drop, replicate, All, ok, ◌>>=◌,
}
use solem_blip_ble.Common.Dict.{sort_desc, max_key}
use solem_blip_ble.Common.Calendar.{Date}
use solem_blip_ble.Common.Text.{encode, ljust, decode_replace, until_nul}
use solem_blip_ble.Common.Text.RoundTrip.{IsScalar, NoNul, NoNul-encode, decode_replace-encode}
use solem_blip_ble.Protocol.Program.{IrrigationProgram}
use solem_blip_ble.Protocol.Program.Writable.{IsWritable}
use solem_blip_ble.Protocol.Config.{
  with_durations, is_config_op, is_program_frame, Assembly, apply_irrigation_chunk, group_payloads,
  apply_fragments, assemble_group, assemble_groups, assemble_irrigation_programs,
  empty_irrigation_program, name_part, parse_controller_date,
}
use solem_blip_ble.Protocol.Config.Layout.{min_length}
use solem_blip_ble.Protocol.Write.{
  program_frames, program_key, header_frame, start_frame, start_bytes, duration_frame,
  duration_bytes, twelve_durations, padded_name, stored_start,
}
use solem_blip_ble.Protocol.Write.Groups.{IsFrameOf, next_chunk, chunk_at, group_of_frames}
use solem_blip_ble.Protocol.Write.Slots.{header_back, starts_read, stored, durations_read}
use solem_blip_ble.Protocol.Write.NameHalves.{halves_join}
use solem_blip_ble.Protocol.Write.Verify.{SameWritable}

-- The frames as the controller reports them, the first with the number `n`.
unfoldable pub reported : ℕ → List Bytes → List Bytes
reported n [] = []
reported n (frame ∷ rest) = (0x3A ∷ at frame 1 ∷ n ∷ drop 3 frame) ∷ reported (n - 1) rest

-- The frames of the report, for the key byte.
abbrev first_name : ℕ → IrrigationProgram → Bytes
first_name key p = 0x3A ∷ 0x12 ∷ 6 ∷ key ∷ take 16 (padded_name p)

abbrev last_name : ℕ → IrrigationProgram → Bytes
last_name key p = 0x3A ∷ 0x12 ∷ 5 ∷ key ∷ (take 15 (drop 16 (padded_name p)) ++ (0x00 ∷ []))

abbrev header : ℕ → IrrigationProgram → Date → Bytes
header key p date = 0x3A ∷ 0x0E ∷ 4 ∷ drop 3 (header_frame key p date)

abbrev starts : ℕ → IrrigationProgram → Bytes
starts key p = 0x3A ∷ 0x12 ∷ 3 ∷ key ∷ start_bytes (map stored_start p.start_times)

abbrev first_durations : ℕ → IrrigationProgram → Bytes
first_durations key p = 0x3A ∷ 17 ∷ 2 ∷ key ∷ duration_bytes (take 5 (stored p.station_durations))

abbrev next_durations : ℕ → IrrigationProgram → Bytes
next_durations key p =
    0x3A ∷ 17 ∷ 1 ∷ key ∷ duration_bytes (take 5 (drop 5 (stored p.station_durations)))

abbrev last_durations : ℕ → IrrigationProgram → Bytes
last_durations key p =
    0x3A ∷ 8 ∷ 0 ∷ key ∷ duration_bytes (take 2 (drop 10 (stored p.station_durations)))

abbrev all_frames : ℕ → IrrigationProgram → Date → List Bytes
all_frames key p date =
    first_name key p
    ∷ last_name key p
    ∷ header key p date
    ∷ starts key p
    ∷ first_durations key p
    ∷ next_durations key p
    ∷ last_durations key p
    ∷ []

reported_frames :
    (key : ℕ) (p : IrrigationProgram) (date : Date)
    → reported 6 (program_frames key p date) ≡ all_frames key p date
unfolding reported program_frames header_frame start_frame duration_frame twelve_durations
reported_frames key p date = refl

name_back :
    (p : IrrigationProgram)
    → All IsScalar p.name
    → NoNul p.name
    → length (encode p.name) ≤ 31
    → decode_replace (
        until_nul (take 16 (take 16 (padded_name p)))
        ++ until_nul (take 16 (take 15 (drop 16 (padded_name p)) ++ (0x00 ∷ []))))
      ≡ p.name
unfolding padded_name ljust
name_back p h k l =
    rw
      (
        take_all 31 (encode p.name) l,
        halves_join (encode p.name) (31 - length (encode p.name)) (NoNul-encode p.name k) l,
      )
      (decode_replace-encode p.name h)

padded_length : (p : IrrigationProgram) → length (padded_name p) ≡ 31
unfolding padded_name ljust
padded_length p =
    let e = take 31 (encode p.name) in
    omega (
      arith,
      length-append e (replicate (31 - length e) 0),
      length-replicate {A = ℕ} (31 - length e) 0,
      length-take 31 (encode p.name),
    )

first_length : (p : IrrigationProgram) → length (take 16 (padded_name p)) ≡ 16
first_length p = omega (arith, padded_length p, length-take 16 (padded_name p))

last_length :
    (p : IrrigationProgram) → length (take 15 (drop 16 (padded_name p)) ++ (0x00 ∷ [])) ≡ 16
last_length p = omega (
  arith,
  padded_length p,
  length-append (take 15 (drop 16 (padded_name p))) (0x00 ∷ []),
  length-take 15 (drop 16 (padded_name p)),
  length-drop 16 (padded_name p),
)

-- One reported frame of chunk `c`.
next_frame :
    (h1 n key c : ℕ) (payload : Bytes) (rest : List Bytes) (s s' : Assembly)
    → (key / 16 == 1 && ltb (key % 16) 3) ≡ true
    → n + c ≡ 6
    → min_length c ≤ 4 + length payload
    → apply_irrigation_chunk s (0x3A ∷ h1 ∷ n ∷ key ∷ payload) c 12 ≡ ok s'
    → apply_fragments 6 12 ((0x3A ∷ h1 ∷ n ∷ key ∷ payload) ∷ rest) s ≡ apply_fragments 6 12 rest s'
unfolding is_program_frame is_config_op
next_frame h1 n key c payload rest s s' k e l a =
    next_chunk 6 12 c (0x3A ∷ h1 ∷ n ∷ key ∷ payload) rest s s' (omega arith, refl) k
      (chunk_at 0x3A h1 n key c payload e l) a

-- The seven frames, in their order, give back what the program has.
fragments_read :
    (key : ℕ) (p : IrrigationProgram) (date : Date)
    → (key / 16 == 1 && ltb (key % 16) 3) ≡ true
    → IsWritable 12 p
    → All IsScalar p.name
    → NoNul p.name
    → length (encode p.name) ≤ 31
    → (s : Assembly) × (apply_fragments 6 12
          (all_frames key p date)
          (empty_irrigation_program 12, none)
        ≡ ok s)
      × SameWritable s.0 p
unfolding is_program_frame apply_irrigation_chunk header_frame empty_irrigation_program
    apply_fragments SameWritable
fragments_read key p date k w h z l =
    let q0 : IrrigationProgram = empty_irrigation_program 12 in
    let part : Option Bytes = some (name_part (first_name key p)) in
    let q1 : IrrigationProgram = record q0 { name = p.name } in
    let q2 : IrrigationProgram = record q1 {
      inter_station_delay = p.inter_station_delay;
      water_budget = p.water_budget;
      cycle = p.cycle;
      week_days = p.week_days;
      period_length = p.period_length;
      synchro_day = p.synchro_day;
      period_start_date = none;
      controller_date = parse_controller_date (header key p date);
    } in
    let q3 : IrrigationProgram = record q2 { start_times = p.start_times } in
    let (st, stl) = starts_read 0x3A 0x12 3 key p.start_times w.eight_starts w.starts_range in
    let (d1, d2, r1, r2, r3, l1, l2, l3) =
      durations_read 0x3A 17 2 key 0x3A 17 1 key 0x3A 8 0 key p.station_durations w.all_durations
        w.durations_range in
    let q4 : IrrigationProgram = record q3 { station_durations = d1 } in
    let q5 : IrrigationProgram = record q3 { station_durations = d2 } in
    let q6 : IrrigationProgram = record q3 { station_durations = p.station_durations } in
    let f5 = last_durations key p ∷ [] in
    let f4 = next_durations key p ∷ f5 in
    let f3 = first_durations key p ∷ f4 in
    let f2 = starts key p ∷ f3 in
    let f1 = header key p date ∷ f2 in
    let f0 = last_name key p ∷ f1 in
    (
      (q6, part),
      next_frame 0x12 6 key 0 (take 16 (padded_name p)) f0 (q0, none) (q0, part) k refl
            (omega (arith, first_length p)) refl
          ∙ next_frame 0x12 5 key 1 (take 15 (drop 16 (padded_name p)) ++ (0x00 ∷ [])) f1 (q0, part)
              (q1, part) k refl (omega (arith, last_length p))
              (ap (λ (n : List ℕ). ok (record q0 { name = n }, part)) (name_back p h z l))
          ∙ next_frame 0x0E 4 key 2 (drop 4 (header key p date)) f2 (q1, part) (q2, part) k refl
              (omega arith)
              (ap (λ r. r >>= λ x. ok (x, part))
                (header_back q1 p 0x3A 0x0E 4 key date.day date.month (byte date.year 8)
                  (byte date.year 0) 12 w))
          ∙ next_frame 0x12 3 key 3 (start_bytes (map stored_start p.start_times)) f3 (q2, part)
              (q3, part) k refl (omega (arith, stl))
              (ap (λ r. r >>= λ x. ok (record q2 { start_times = x }, part)) st)
          ∙ next_frame 17 2 key 4 (duration_bytes (take 5 (stored p.station_durations))) f4
              (q3, part) (q4, part) k refl (omega (arith, l1)) (ap (with_durations (q3, part)) r1)
          ∙ next_frame 17 1 key 5 (duration_bytes (take 5 (drop 5 (stored p.station_durations)))) f5
              (q4, part) (q5, part) k refl (omega (arith, l2)) (ap (with_durations (q4, part)) r2)
          ∙ next_frame 8 0 key 6 (duration_bytes (take 2 (drop 10 (stored p.station_durations)))) []
              (q5, part) (q6, part) k refl (omega (arith, l3)) (ap (with_durations (q5, part)) r3),
      (refl, refl, refl, refl, refl, refl, refl, refl, refl),
    )

reported-IsFrameOf :
    (index key h1 n : ℕ) (payload : Bytes)
    → (key / 16 == 1 && ltb (key % 16) 3) ≡ true
    → key % 16 ≡ index
    → IsFrameOf index (0x3A ∷ h1 ∷ n ∷ key ∷ payload)
unfolding IsFrameOf is_program_frame is_config_op
reported-IsFrameOf index key h1 n payload k i = ((omega arith, refl), k, i)

frames-IsFrameOf :
    (key index : ℕ) (p : IrrigationProgram) (date : Date)
    → (key / 16 == 1 && ltb (key % 16) 3) ≡ true
    → key % 16 ≡ index
    → All (IsFrameOf index) (all_frames key p date)
unfolding header_frame
frames-IsFrameOf key index p date k i =
    let f = λ (h1 n : ℕ) (payload : Bytes). reported-IsFrameOf index key h1 n payload k i in
    (f 0x12 6 _, (f 0x12 5 _, (f 0x0E 4 _, (f 0x12 3 _, (f 17 2 _, (f 17 1 _, (f 8 0 _, tt)))))))

group_read :
    (key : ℕ) (p q : IrrigationProgram) (date : Date) (part : Option Bytes)
    → apply_fragments 6 12 (all_frames key p date) (empty_irrigation_program 12, none)
      ≡ ok (q, part)
    → assemble_group 12 (all_frames key p date) ≡ ok q
unfolding assemble_group sort_desc max_key header_frame
group_read key p q date part run = ap (λ r. r >>= λ s. ok s.0) run

groups_read :
    (index : ℕ) (fs : List Bytes) (q : IrrigationProgram)
    → assemble_group 12 fs ≡ ok q
    → assemble_groups 12 ((index, fs) ∷ []) ≡ ok ((index, q) ∷ [])
unfolding assemble_groups
groups_read index fs q e = rw e refl

-- The command and the chunk number of each frame of a program write, in order: the two halves of the
-- name, the header, the starts, and the durations in three parts.
abbrev pub seven_heads : List (ℕ × ℕ)
seven_heads = (0x2F, 0) ∷ (0x2F, 1) ∷ (0x37, 0) ∷ (0x37, 1) ∷ (0x37, 2) ∷ (0x37, 3) ∷ (0x37, 4) ∷ []

program_frames_heads :
    (key : ℕ) (p : IrrigationProgram) (date : Date)
    → map (λ frame. (at frame 0, at frame 2)) (program_frames key p date) ≡ seven_heads
unfolding program_frames header_frame start_frame duration_frame
program_frames_heads key p date = refl

-- A program within its storage, with a name of NUL-free scalar values of at most 31 bytes of UTF-8,
-- comes back from the seven frames that are packed for the index: assembling the report of the
-- controller gives one program, at that index, that agrees with it in every field that a write sets.
-- The frames themselves have the commands and chunk numbers of a write: 2F 0 and 1, then 37 0 to 4.
pub program_frames_read_back :
    (index : ℕ) (p : IrrigationProgram) (date : Date)
    → index < 3
    → IsWritable 12 p
    → All IsScalar p.name
    → NoNul p.name
    → length (encode p.name) ≤ 31
    → (q : IrrigationProgram) × (assemble_irrigation_programs
          (reported 6 (program_frames (program_key index) p date))
          12
        ≡ ok ((index, q) ∷ []))
      × SameWritable q p
      × (map (λ frame. (at frame 0, at frame 2)) (program_frames (program_key index) p date)
          ≡ seven_heads)
unfolding assemble_irrigation_programs
program_frames_read_back index p date small w h z l =
    let key = program_key index in
    let k : (key / 16 == 1 && ltb (key % 16) 3) ≡ true = ground arith in
    let ((q, part), run, same) = fragments_read key p date k w h z l in
    (
      q,
      ap (λ (fs : List Bytes). assemble_groups 12 (group_payloads fs []))
            (reported_frames key p date)
          ∙ ap (assemble_groups 12)
              (group_of_frames index _ _ (frames-IsFrameOf key index p date k (omega arith)))
          ∙ groups_read index (all_frames key p date) q (group_read key p q date part run),
      same,
      program_frames_heads key p date,
    )
