-- ===== src/Protocol/Write/Slots.antt =====
-- The header, the start slots and the durations of a program write of src/solem_blip_ble/protocol.py,
-- as assembly reads them from whole frames.
use solem_blip_ble.Common.{
  ℕ, ◌+◌, ◌-◌, ◌*◌, ◌≡◌, refl, ap, Option, none, List, [], ◌∷◌, ◌++◌, map, arith, byte, length,
  take, drop, replicate, All, ℤ, pos, negsuc, pos_part, InRange, ok,
}
use solem_blip_ble.Protocol.Program.{IrrigationProgram}
use solem_blip_ble.Protocol.Program.Writable.{IsWritable}
use solem_blip_ble.Protocol.Program.Shapes.{IsStart, IsDuration}
use solem_blip_ble.Protocol.Config.{
  apply_header, u16_at, byte_at, apply_starts, apply_durations, parse_controller_date,
}
use solem_blip_ble.Protocol.Write.{start_bytes, duration_bytes, stored_start}
use solem_blip_ble.Protocol.Write.Chunks.{
  word_back, apply_starts_back, first_durations_back, next_durations_back, last_durations_back,
}

byte_back : (x : ℤ) → InRange 0 x 0xFF → pos (byte (pos_part x) 0) ≡ x
byte_back (pos n) h = ap pos (omega arith)
byte_back (negsuc n) h = absurd h

u16_back : (x : ℤ) → InRange 0 x 0xFFFF → pos (byte (pos_part x) 8 * 256 + byte (pos_part x) 0) ≡ x
u16_back (pos n) h = ap pos (word_back n (omega arith))
u16_back (negsuc n) h = absurd h

-- The header's fields come back.
pub header_back :
    (q p : IrrigationProgram) (h0 h1 h2 h3 d0 d1 d2 d3 m : ℕ)
    → IsWritable m p
    → apply_header q (
        h0
        ∷ h1
        ∷ h2
        ∷ h3
        ∷ byte (pos_part p.inter_station_delay) 8
        ∷ byte (pos_part p.inter_station_delay) 0
        ∷ byte (pos_part p.water_budget) 8
        ∷ byte (pos_part p.water_budget) 0
        ∷ byte (pos_part p.cycle) 0
        ∷ byte (pos_part p.week_days) 0
        ∷ byte (pos_part p.period_length) 0
        ∷ byte (pos_part p.synchro_day) 0
        ∷ d0
        ∷ d1
        ∷ d2
        ∷ d3
        ∷ [])
      ≡ ok (record q {
        inter_station_delay = p.inter_station_delay;
        water_budget = p.water_budget;
        cycle = p.cycle;
        week_days = p.week_days;
        period_length = p.period_length;
        synchro_day = p.synchro_day;
        period_start_date = none;
        controller_date = parse_controller_date (
            h0
            ∷ h1
            ∷ h2
            ∷ h3
            ∷ byte (pos_part p.inter_station_delay) 8
            ∷ byte (pos_part p.inter_station_delay) 0
            ∷ byte (pos_part p.water_budget) 8
            ∷ byte (pos_part p.water_budget) 0
            ∷ byte (pos_part p.cycle) 0
            ∷ byte (pos_part p.week_days) 0
            ∷ byte (pos_part p.period_length) 0
            ∷ byte (pos_part p.synchro_day) 0
            ∷ d0
            ∷ d1
            ∷ d2
            ∷ d3
            ∷ []);
      })
unfolding apply_header u16_at byte_at
header_back q p h0 h1 h2 h3 d0 d1 d2 d3 m w =
    rw
      (
        u16_back p.inter_station_delay w.delay_range,
        u16_back p.water_budget w.budget_range,
        byte_back p.cycle w.cycle_range,
        byte_back p.week_days w.week_days_range,
        byte_back p.period_length w.period_range,
        byte_back p.synchro_day w.synchro_range,
      )
      refl

pub starts_read :
    (h0 h1 h2 h3 : ℕ) (xs : List (Option ℤ))
    → length xs ≡ 8
    → All IsStart xs
    → (apply_starts 8 0 (h0 ∷ h1 ∷ h2 ∷ h3 ∷ start_bytes (map stored_start xs)) (replicate 8 none)
        ≡ ok xs)
      × (length (start_bytes (map stored_start xs)) ≡ 16)
unfolding start_bytes
starts_read h0 h1 h2 h3 [] n v = absurd (omega arith)
starts_read h0 h1 h2 h3 (a ∷ []) n v = absurd (omega arith)
starts_read h0 h1 h2 h3 (a ∷ b ∷ []) n v = absurd (omega arith)
starts_read h0 h1 h2 h3 (a ∷ b ∷ c ∷ []) n v = absurd (omega arith)
starts_read h0 h1 h2 h3 (a ∷ b ∷ c ∷ d ∷ []) n v = absurd (omega arith)
starts_read h0 h1 h2 h3 (a ∷ b ∷ c ∷ d ∷ e ∷ []) n v = absurd (omega arith)
starts_read h0 h1 h2 h3 (a ∷ b ∷ c ∷ d ∷ e ∷ f ∷ []) n v = absurd (omega arith)
starts_read h0 h1 h2 h3 (a ∷ b ∷ c ∷ d ∷ e ∷ f ∷ g ∷ []) n v = absurd (omega arith)
starts_read h0 h1 h2 h3 (a ∷ b ∷ c ∷ d ∷ e ∷ f ∷ g ∷ h ∷ []) n v =
    (apply_starts_back h0 h1 h2 h3 a b c d e f g h v, refl)
starts_read h0 h1 h2 h3 (a ∷ b ∷ c ∷ d ∷ e ∷ f ∷ g ∷ h ∷ x ∷ xs) n v = absurd (omega arith)

-- The twelve seconds of a write.
abbrev pub stored : List ℤ → List ℕ
stored ds = map pos_part ds ++ replicate (12 - length ds) 0

-- What the three duration frames leave, one behind the other.
pub durations_read :
    (h0 h1 h2 h3 i0 i1 i2 i3 j0 j1 j2 j3 : ℕ) (ds : List ℤ)
    → length ds ≡ 12
    → All IsDuration ds
    → (d1 : List ℤ) × (d2 : List ℤ) × (apply_durations 5 0 4
          (h0 ∷ h1 ∷ h2 ∷ h3 ∷ duration_bytes (take 5 (stored ds)))
          12
          (replicate 12 (pos 0))
        ≡ ok d1)
      × (apply_durations 5 5 4
            (i0 ∷ i1 ∷ i2 ∷ i3 ∷ duration_bytes (take 5 (drop 5 (stored ds))))
            12
            d1
          ≡ ok d2)
      × (apply_durations 2 10 4
            (j0 ∷ j1 ∷ j2 ∷ j3 ∷ duration_bytes (take 2 (drop 10 (stored ds))))
            12
            d2
          ≡ ok ds)
      × (length (duration_bytes (take 5 (stored ds))) ≡ 15)
      × (length (duration_bytes (take 5 (drop 5 (stored ds)))) ≡ 15)
      × (length (duration_bytes (take 2 (drop 10 (stored ds)))) ≡ 6)
unfolding duration_bytes
durations_read h0 h1 h2 h3 i0 i1 i2 i3 j0 j1 j2 j3 [] n v = absurd (omega arith)
durations_read h0 h1 h2 h3 i0 i1 i2 i3 j0 j1 j2 j3 (a ∷ []) n v = absurd (omega arith)
durations_read h0 h1 h2 h3 i0 i1 i2 i3 j0 j1 j2 j3 (a ∷ b ∷ []) n v = absurd (omega arith)
durations_read h0 h1 h2 h3 i0 i1 i2 i3 j0 j1 j2 j3 (a ∷ b ∷ c ∷ []) n v = absurd (omega arith)
durations_read h0 h1 h2 h3 i0 i1 i2 i3 j0 j1 j2 j3 (a ∷ b ∷ c ∷ d ∷ []) n v = absurd (omega arith)
durations_read h0 h1 h2 h3 i0 i1 i2 i3 j0 j1 j2 j3 (a ∷ b ∷ c ∷ d ∷ e ∷ []) n v =
    absurd (omega arith)
durations_read h0 h1 h2 h3 i0 i1 i2 i3 j0 j1 j2 j3 (a ∷ b ∷ c ∷ d ∷ e ∷ f ∷ []) n v =
    absurd (omega arith)
durations_read h0 h1 h2 h3 i0 i1 i2 i3 j0 j1 j2 j3 (a ∷ b ∷ c ∷ d ∷ e ∷ f ∷ g ∷ []) n v =
    absurd (omega arith)
durations_read h0 h1 h2 h3 i0 i1 i2 i3 j0 j1 j2 j3 (a ∷ b ∷ c ∷ d ∷ e ∷ f ∷ g ∷ h ∷ []) n v =
    absurd (omega arith)
durations_read h0 h1 h2 h3 i0 i1 i2 i3 j0 j1 j2 j3 (a ∷ b ∷ c ∷ d ∷ e ∷ f ∷ g ∷ h ∷ i ∷ []) n v =
    absurd (omega arith)
durations_read h0 h1 h2 h3 i0 i1 i2 i3 j0 j1 j2 j3 (a ∷ b ∷ c ∷ d ∷ e ∷ f ∷ g ∷ h ∷ i ∷ j ∷ []) n
      v =
    absurd (omega arith)
durations_read h0 h1 h2 h3 i0 i1 i2 i3 j0 j1 j2 j3 (a ∷ b ∷ c ∷ d ∷ e ∷ f ∷ g ∷ h ∷ i ∷ j ∷ k ∷ [])
      n v =
    absurd (omega arith)
durations_read h0 h1 h2 h3 i0 i1 i2 i3 j0 j1 j2 j3
      (a ∷ b ∷ c ∷ d ∷ e ∷ f ∷ g ∷ h ∷ i ∷ j ∷ k ∷ l ∷ []) n
      (pa, (pb, (pc, (pd, (pe, (pf, (pg, (ph, (pi, (pj, (pk, (pl, _)))))))))))) =
    (
      a ∷ b ∷ c ∷ d ∷ e ∷ replicate 7 (pos 0),
      a ∷ b ∷ c ∷ d ∷ e ∷ f ∷ g ∷ h ∷ i ∷ j ∷ pos 0 ∷ pos 0 ∷ [],
      first_durations_back h0 h1 h2 h3 a b c d e f g h i j k l (pa, (pb, (pc, (pd, (pe, tt))))),
      next_durations_back i0 i1 i2 i3 a b c d e f g h i j k l (pf, (pg, (ph, (pi, (pj, tt))))),
      last_durations_back j0 j1 j2 j3 a b c d e f g h i j k l (pk, (pl, tt)),
      refl,
      refl,
      refl,
    )
durations_read h0 h1 h2 h3 i0 i1 i2 i3 j0 j1 j2 j3
      (a ∷ b ∷ c ∷ d ∷ e ∷ f ∷ g ∷ h ∷ i ∷ j ∷ k ∷ l ∷ x ∷ xs) n v =
    absurd (omega arith)
