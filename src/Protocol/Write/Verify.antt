-- ===== src/Protocol/Write/Verify.antt =====
-- The comparison of a program with its read-back, in src/solem_blip_ble/protocol.py.
use solem_blip_ble.Common.{
  eq_ℤ-refl, eq_ℤ-sound, ◌≡◌, refl, ap, ◌↔◌, Bool, true, false, Option, none, some, List, [], ◌++◌,
  arith, ◌==◌, list_eq, ℤ, eq_ℤ,
}
use solem_blip_ble.Common.Lists.{bytes_eq_sound, bytes_eq_refl, list_eq_sound, list_eq_refl}
use solem_blip_ble.Common.Int.{eq_ℤ-sound, eq_ℤ-refl}
use solem_blip_ble.Protocol.Program.{IrrigationProgram}
use solem_blip_ble.Protocol.Write.{
  start_eq, Mismatch, entry_if, program_mismatches, irrigation_program_write_mismatches,
}

-- The fields that a write sets, all but the controller's date.
unfoldable pub SameWritable : IrrigationProgram → IrrigationProgram → Type 0
SameWritable w e =
    (w.name ≡ e.name)
    × (w.inter_station_delay ≡ e.inter_station_delay)
    × (w.water_budget ≡ e.water_budget)
    × (w.cycle ≡ e.cycle)
    × (w.week_days ≡ e.week_days)
    × (w.period_length ≡ e.period_length)
    × (w.synchro_day ≡ e.synchro_day)
    × (w.start_times ≡ e.start_times)
    × (w.station_durations ≡ e.station_durations)

start_eq_sound : (a b : Option ℤ) → start_eq a b ≡ true → a ≡ b
unfolding start_eq
start_eq_sound none none h = refl
start_eq_sound (some a) (some b) h = ap some (eq_ℤ-sound a b h)
start_eq_sound none (some b) h = absurd (ground arith)
start_eq_sound (some a) none h = absurd (ground arith)

start_eq_refl : (a : Option ℤ) → start_eq a a ≡ true
unfolding start_eq
start_eq_refl none = refl
start_eq_refl (some a) = eq_ℤ-refl a

entry_split :
    (b : Bool) (m : Mismatch) (rest : List Mismatch)
    → entry_if b m ++ rest ≡ []
    → (b ≡ true) × (rest ≡ [])
entry_split true m rest h = (refl, h)
entry_split false m rest h = absurd (cc)

entry_last : (b : Bool) (m : Mismatch) → entry_if b m ≡ [] → b ≡ true
entry_last true m h = refl
entry_last false m h = absurd (cc)

same_sound : (w e : IrrigationProgram) → program_mismatches w e ≡ [] → SameWritable w e
unfolding program_mismatches SameWritable
same_sound w e h =
    let (a, h1) = entry_split (list_eq ◌==◌ w.name e.name) _ _ h in
    let (b, h2) = entry_split (eq_ℤ w.inter_station_delay e.inter_station_delay) _ _ h1 in
    let (c, h3) = entry_split (eq_ℤ w.water_budget e.water_budget) _ _ h2 in
    let (d, h4) = entry_split (eq_ℤ w.cycle e.cycle) _ _ h3 in
    let (f, h5) = entry_split (eq_ℤ w.week_days e.week_days) _ _ h4 in
    let (g, h6) = entry_split (eq_ℤ w.period_length e.period_length) _ _ h5 in
    let (k, h7) = entry_split (eq_ℤ w.synchro_day e.synchro_day) _ _ h6 in
    let (l, h8) = entry_split (list_eq start_eq w.start_times e.start_times) _ _ h7 in
    let m = entry_last (list_eq eq_ℤ w.station_durations e.station_durations) _ h8 in
    (
      bytes_eq_sound w.name e.name a,
      eq_ℤ-sound _ _ b,
      eq_ℤ-sound _ _ c,
      eq_ℤ-sound _ _ d,
      eq_ℤ-sound _ _ f,
      eq_ℤ-sound _ _ g,
      eq_ℤ-sound _ _ k,
      list_eq_sound start_eq start_eq_sound w.start_times e.start_times l,
      list_eq_sound eq_ℤ eq_ℤ-sound w.station_durations e.station_durations m,
    )

pub same_complete : (w e : IrrigationProgram) → SameWritable w e → program_mismatches w e ≡ []
unfolding program_mismatches SameWritable
same_complete w e (a, b, c, d, f, g, k, l, m) =
    rw
      (
        a,
        b,
        c,
        d,
        f,
        g,
        k,
        l,
        m,
        bytes_eq_refl e.name,
        eq_ℤ-refl e.inter_station_delay,
        eq_ℤ-refl e.water_budget,
        eq_ℤ-refl e.cycle,
        eq_ℤ-refl e.week_days,
        eq_ℤ-refl e.period_length,
        eq_ℤ-refl e.synchro_day,
        list_eq_refl start_eq start_eq_refl e.start_times,
        list_eq_refl eq_ℤ eq_ℤ-refl e.station_durations,
      )
      refl

-- The read-back of a program has no mismatch exactly if it agrees with the expected one in every
-- field that a write sets.
pub irrigation_program_write_mismatches_none :
    (read expected : IrrigationProgram)
    → (irrigation_program_write_mismatches (some read) expected ≡ []) ↔ SameWritable read expected
unfolding irrigation_program_write_mismatches
irrigation_program_write_mismatches_none read expected =
    (same_sound read expected, same_complete read expected)
