-- ===== src/Protocol/Write/Verified.antt =====
-- The write of a program and its verification in src/solem_blip_ble/protocol.py, end to end.
use Prim.Native.Nat.{◌≤◌}
use solem_blip_ble.Common.Lists.{take_all}
use solem_blip_ble.Common.{
  InRange-pos_part, between-InRange, ℕ, ◌≤◌, ◌≡◌, sym, ap, ◌∙◌, Option, some, List, [], ◌∷◌, arith,
  Bytes, length, take, All, ℤ, pos_part, between, InRange, ok, ok-injective, guard-eq-ok, >>=-eq-ok,
}
use mathlib.Core.Path.{subst}
use solem_blip_ble.Common.Results.{program_index_range}
use solem_blip_ble.Common.Text.{encode, decode_replace}
use solem_blip_ble.Common.Text.RoundTrip.{IsScalar, NoNul, decode_replace-encode}
use solem_blip_ble.Common.Calendar.{Date}
use solem_blip_ble.Protocol.Program.{
  DateInput, a_date, IrrigationProgram, Dates, coerce_today, normalize_irrigation_program_for_write,
}
use solem_blip_ble.Protocol.Program.Writable.{normalize-IsWritable}
use solem_blip_ble.Protocol.Config.{assemble_irrigation_programs}
use solem_blip_ble.Protocol.Write.{
  pack_set_irrigation_program, program_frames, program_key, irrigation_program_write_mismatches,
}
use solem_blip_ble.Protocol.Write.Verify.{irrigation_program_write_mismatches_none}
use solem_blip_ble.Protocol.Write.ReadBack.{reported, program_frames_read_back}

-- What a successful packing has computed.
pack_set_inversion :
    (dates : Dates) (index : ℤ) (program : IrrigationProgram) (today : Option DateInput)
    (max_stations : ℕ) {frames : List Bytes}
    → pack_set_irrigation_program dates index program today max_stations ≡ ok frames
    → InRange 0 index 2
      × (date : Date) × (p : IrrigationProgram) × (coerce_today dates today ≡ ok date)
      × (normalize_irrigation_program_for_write dates program (some (a_date date)) max_stations
          ≡ ok p)
      × (program_frames (program_key (pos_part index)) p date ≡ frames)
unfolding pack_set_irrigation_program
pack_set_inversion dates index program today max_stations e =
    let (range, e1) = guard-eq-ok (between 0 index 2) program_index_range _ e in
    let (date, day, e2) = >>=-eq-ok (coerce_today dates today) _ e1 in
    let (p, normal, e3) =
      >>=-eq-ok
        (normalize_irrigation_program_for_write dates program (some (a_date date)) max_stations) _
        e2 in
    (between-InRange 0 index 2 range, date, p, day, normal, ok-injective e3)

-- The name that is stored for a name of at most 31 bytes of UTF-8.
name_kept :
    (program p : IrrigationProgram)
    → p.name ≡ decode_replace (take 31 (encode program.name))
    → All IsScalar program.name
    → length (encode program.name) ≤ 31
    → p.name ≡ program.name
name_kept program p e h l =
    e
    ∙ ap decode_replace (take_all 31 (encode program.name) l)
    ∙ decode_replace-encode program.name h

-- If the packing of a program for twelve stations succeeds, and its name is of NUL-free scalar values
-- and at most 31 bytes of UTF-8, then the report of the packed frames assembles to one program, at
-- the index of the call, and the comparison of that program with the one normalised on the day of the
-- write has no mismatch.
pub pack_set_irrigation_program_verifies :
    (dates : Dates) (index : ℤ) (program : IrrigationProgram) (today : Option DateInput)
    {frames : List Bytes}
    → pack_set_irrigation_program dates index program today 12 ≡ ok frames
    → All IsScalar program.name
    → NoNul program.name
    → length (encode program.name) ≤ 31
    → (date : Date) × (p : IrrigationProgram) × (q : IrrigationProgram) × (coerce_today dates today
        ≡ ok date)
      × (normalize_irrigation_program_for_write dates program (some (a_date date)) 12 ≡ ok p)
      × (assemble_irrigation_programs (reported 6 frames) 12 ≡ ok ((pos_part index, q) ∷ []))
      × (irrigation_program_write_mismatches (some q) p ≡ [])
pack_set_irrigation_program_verifies dates index program today {frames} e h z l =
    let (range, date, p, day, normal, packed) = pack_set_inversion dates index program today 12 e in
    let (w, name, _, _, _, _, _) =
      normalize-IsWritable dates program (some (a_date date)) 12 normal in
    let kept = name_kept program p name h l in
    let (q, read, same, heads) =
      program_frames_read_back (pos_part index) p date
        (omega (arith, (InRange-pos_part 0 index 2 range).1)) w
        (subst (λ n. All IsScalar n) (sym kept) h) (subst (λ n. NoNul n) (sym kept) z)
        (subst (λ n. length (encode n) ≤ 31) (sym kept) l) in
    (
      date,
      p,
      q,
      day,
      normal,
      ap (λ fs. assemble_irrigation_programs (reported 6 fs) 12) (sym packed) ∙ read,
      (irrigation_program_write_mismatches_none q p).1 same,
    )
