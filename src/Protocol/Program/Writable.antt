-- ===== src/Protocol/Program/Writable.antt =====
-- What a program satisfies once `normalize_irrigation_program_for_write` has accepted it, in
-- src/solem_blip_ble/protocol.py.
use Prim.Native.Nat.{◌≤◌}
use mathlib.Core.Path.{subst}
use solem_blip_ble.Common.{
  between-InRange, guard-true, ltb→lt, InRange-pos_part, ℕ, ◌-◌, ◌≤◌, ◌≡◌, refl, ◌≢◌, ◌⊎◌, inl, inr,
  Option, arith, ltb, Bool-cases, length, take, All, ℤ, pos, negsuc, pos_part, between, InRange,
  eq_ℤ, ok, ◌>>=◌, ◌>>◌, guard, ok-injective, guard-eq-ok, >>=-eq-ok,
}
use solem_blip_ble.Common.Results.{period_length_range, synchro_day_range, field_range}
use solem_blip_ble.Common.Text.{encode, decode_replace}
use solem_blip_ble.Protocol.Program.{
  Dates, DateInput, IrrigationProgram, normalize_irrigation_program_for_write, coerced_today,
  validate_fields, coerced_anchor, cycle_synchro, anchored_synchro, normalized_start_times,
  normalized_station_durations,
}
use solem_blip_ble.Protocol.Program.Shapes.{
  IsStart, IsDuration, normalized_start_times_shape, normalized_durations_shape,
}

-- The interval rule: with cycle 4 the countdown is below the period.
abbrev pub KeepsInterval : IrrigationProgram → Type 0
KeepsInterval p =
    (p.cycle ≢ pos 4)
    ⊎ (InRange 0 p.synchro_day (pos_part p.period_length - 1) × (1 ≤ pos_part p.period_length))

pub record IsWritable (max_stations : ℕ) (p : IrrigationProgram) : Type 0 where
  pub delay_range : InRange 0 p.inter_station_delay 0xFFFF
  pub budget_range : InRange 0 p.water_budget 0xFFFF
  pub cycle_range : InRange 0 p.cycle 0xFF
  pub week_days_range : InRange 0 p.week_days 0xFF
  pub period_range : InRange 0 p.period_length 0xFF
  pub synchro_range : InRange 0 p.synchro_day 0xFF
  pub interval : KeepsInterval p
  pub eight_starts : length p.start_times ≡ 8
  pub starts_range : All IsStart p.start_times
  pub all_durations : length p.station_durations ≡ max_stations
  pub durations_range : All IsDuration p.station_durations

-- The six range checks.
abbrev FieldRanges : IrrigationProgram → Type 0
FieldRanges p =
    InRange 0 p.inter_station_delay 0xFFFF
    × InRange 0 p.water_budget 0xFFFF
    × InRange 0 p.cycle 0xFF
    × InRange 0 p.week_days 0xFF
    × InRange 0 p.period_length 0xFF
    × InRange 0 p.synchro_day 0xFF

validate_fields_ranges : (p : IrrigationProgram) → validate_fields p ≡ ok tt → FieldRanges p
unfolding validate_fields
validate_fields_ranges p e =
    let (h1, e1) = guard-eq-ok (between 0 p.inter_station_delay 0xFFFF) field_range _ e in
    let (h2, e2) = guard-eq-ok (between 0 p.water_budget 0xFFFF) field_range _ e1 in
    let (h3, e3) = guard-eq-ok (between 0 p.cycle 0xFF) field_range _ e2 in
    let (h4, e4) = guard-eq-ok (between 0 p.week_days 0xFF) field_range _ e3 in
    let (h5, e5) = guard-eq-ok (between 0 p.period_length 0xFF) field_range _ e4 in
    (
      between-InRange 0 p.inter_station_delay 0xFFFF h1,
      between-InRange 0 p.water_budget 0xFFFF h2,
      between-InRange 0 p.cycle 0xFF h3,
      between-InRange 0 p.week_days 0xFF h4,
      between-InRange 0 p.period_length 0xFF h5,
      between-InRange 0 p.synchro_day 0xFF
          (guard-true (between 0 p.synchro_day 0xFF) field_range e5),
    )

InRange-le : (lo hi hi' : ℕ) (x : ℤ) → hi ≤ hi' → InRange lo x hi → InRange lo x hi'
InRange-le lo hi hi' (pos n) h r = (r.0, omega arith)
InRange-le lo hi hi' (negsuc n) h r = absurd r

-- The countdown that is stored: the one given, or one below the period.
cycle_synchro_range :
    (dates : Dates) (p : IrrigationProgram) (anchor today : Option DateInput) {s : ℤ}
    → FieldRanges p
    → cycle_synchro dates p anchor today ≡ ok s
    → InRange 0 s 0xFF
      × ((p.cycle ≢ pos 4)
          ⊎ (InRange 0 s (pos_part p.period_length - 1) × (1 ≤ pos_part p.period_length)))
unfolding cycle_synchro
cycle_synchro_range dates p anchor today {s} (_, _, _, _, period, synchro) e =
    elim (Bool-cases (eq_ℤ p.cycle (pos 4))) [
      | inr other ↦
          let same : ok p.synchro_day ≡ ok s = rw (other, cycle_synchro) at e in
          rw (← ok-injective same) (synchro, inl (λ c. cc (rw c at other)))
      | inl four ↦ in_cycle (rw (four, cycle_synchro) at e)
    ]
  where
    in_cycle :
        (guard (ltb 0 (pos_part p.period_length)) period_length_range
            >> (anchored_synchro dates anchor p.period_length p.synchro_day today >>= λ n.
                guard (between 0 n (pos_part p.period_length - 1)) synchro_day_range >> ok n))
          ≡ ok s
        → InRange 0 s 0xFF
          × ((p.cycle ≢ pos 4)
              ⊎ (InRange 0 s (pos_part p.period_length - 1) × (1 ≤ pos_part p.period_length)))
    in_cycle e =
        let (positive, e1) =
          guard-eq-ok (ltb 0 (pos_part p.period_length)) period_length_range _ e in
        let (n, _, e2) =
          >>=-eq-ok (anchored_synchro dates anchor p.period_length p.synchro_day today) _ e1 in
        let (below, e3) =
          guard-eq-ok (between 0 n (pos_part p.period_length - 1)) synchro_day_range _ e2 in
        let range = between-InRange 0 n (pos_part p.period_length - 1) below in
        let (_, top) = InRange-pos_part 0 p.period_length 0xFF period in
        rw (← ok-injective e3) (
          InRange-le 0 (pos_part p.period_length - 1) 0xFF n (omega arith) range,
          inr (range, ltb→lt 0 _ positive),
        )

-- An accepted program comes out with every field in the range of its storage, eight start slots, a
-- duration for each station, the interval rule of cycle 4, and its name cut to 31 bytes of UTF-8;
-- the other writable fields are the input's.
pub normalize-IsWritable :
    (dates : Dates) (program : IrrigationProgram) (today : Option DateInput) (max_stations : ℕ)
    {p : IrrigationProgram}
    → normalize_irrigation_program_for_write dates program today max_stations ≡ ok p
    → IsWritable max_stations p
      × (p.name ≡ decode_replace (take 31 (encode program.name)))
      × (p.inter_station_delay ≡ program.inter_station_delay)
      × (p.water_budget ≡ program.water_budget)
      × (p.cycle ≡ program.cycle)
      × (p.week_days ≡ program.week_days)
      × (p.period_length ≡ program.period_length)
unfolding normalize_irrigation_program_for_write
normalize-IsWritable dates program today m {p} e =
    let (day, _, e1) = >>=-eq-ok (coerced_today dates today) _ e in
    let (u, checked, e2) = >>=-eq-ok (validate_fields program) _ e1 in
    let (anchor, _, e3) = >>=-eq-ok (coerced_anchor dates program.period_start_date) _ e2 in
    let (synchro, cycled, e4) = >>=-eq-ok (cycle_synchro dates program anchor day) _ e3 in
    let (starts, started, e5) = >>=-eq-ok (normalized_start_times program) _ e4 in
    let (durations, lasting, e6) = >>=-eq-ok (normalized_station_durations program m) _ e5 in
    let ranges = validate_fields_ranges program checked in
    let (synchro_ok, interval) = cycle_synchro_range dates program anchor day ranges cycled in
    let (eight, starts_ok) = normalized_start_times_shape program started in
    let (all, durations_ok) = normalized_durations_shape program m lasting in
    subst
      (λ p.
        IsWritable m p
        × (p.name ≡ decode_replace (take 31 (encode program.name)))
        × (p.inter_station_delay ≡ program.inter_station_delay)
        × (p.water_budget ≡ program.water_budget)
        × (p.cycle ≡ program.cycle)
        × (p.week_days ≡ program.week_days)
        × (p.period_length ≡ program.period_length))
      (ok-injective e6)
      (
        record {
          delay_range = ranges.0;
          budget_range = ranges.1;
          cycle_range = ranges.2;
          week_days_range = ranges.3;
          period_range = ranges.4;
          synchro_range = synchro_ok;
          interval = interval;
          eight_starts = eight;
          starts_range = starts_ok;
          all_durations = all;
          durations_range = durations_ok;
        },
        refl,
        refl,
        refl,
        refl,
        refl,
        refl,
      )
