-- ===== src/Protocol/Program/Shapes.antt =====
-- The slots and durations that the normalisation of src/solem_blip_ble/protocol.py gives.
-- What a program satisfies once `normalize_irrigation_program_for_write` has accepted it, in
-- src/solem_blip_ble/protocol.py.
use Prim.Native.Nat.{◌≤◌}
use solem_blip_ble.Common.{
  between-InRange, leb→le, length-map, ℕ, zero, suc, ◌-◌, ◌≤◌, ◌≡◌, refl, ap, true, ◌&&◌, Option,
  none, some, List, [], ◌∷◌, map, arith, leb, length, take, replicate, All, ℤ, pos, negsuc,
  pos_part, between, InRange, ok, ok-injective, guard-eq-ok, >>=-eq-ok,
}
use solem_blip_ble.Common.Lists.{length-append, length-replicate, length-take}
use solem_blip_ble.Common.Results.{
  start_times_count, max_stations_range, durations_count, duration_range,
}
use solem_blip_ble.Protocol.Program.{
  IrrigationProgram, normalized_start_times, normalized_station_durations, normalize_each_start,
  normalized_start_time, normalize_each_duration, shown_start,
}

-- A start slot that is empty, or a minute of the day.
abbrev pub IsStart : Option ℤ → Type 0
IsStart none = Unit
IsStart (some t) = InRange 0 t 1439

abbrev pub IsDuration : ℤ → Type 0
IsDuration d = InRange 0 d 0xFFFFFF

normalize_each_start_shape :
    (ts : List (Option ℤ)) {ns : List ℕ}
    → normalize_each_start ts ≡ ok ns
    → (length ns ≡ length ts) × All IsStart (map shown_start ns)
unfolding normalize_each_start
normalize_each_start_shape [] e = rw (← ok-injective e) (refl, tt)
normalize_each_start_shape (t ∷ ts) e =
    let (n, first, e1) = >>=-eq-ok (normalized_start_time t) _ e in
    let (rest, later, e2) = >>=-eq-ok (normalize_each_start ts) _ e1 in
    let (len, ranges) = normalize_each_start_shape ts later in
    rw (← ok-injective e2) (ap suc len, (one t n first, ranges))
  where
    one : (t : Option ℤ) (n : ℕ) → normalized_start_time t ≡ ok n → IsStart (shown_start n)
    one none n e = rw (← ok-injective e) tt
    one (some (pos m)) n e = ground arith
    one (some (negsuc m)) n e = cc

normalize_each_duration_shape :
    (ds : List ℤ) {ns : List ℕ}
    → normalize_each_duration ds ≡ ok ns
    → (length ns ≡ length ds) × All IsDuration (map pos ns)
unfolding normalize_each_duration
normalize_each_duration_shape [] e = rw (← ok-injective e) (refl, tt)
normalize_each_duration_shape (d ∷ ds) e =
    let (range, e1) = guard-eq-ok (between 0 d 0xFFFFFF) duration_range _ e in
    let (rest, later, e2) = >>=-eq-ok (normalize_each_duration ds) _ e1 in
    let (len, ranges) = normalize_each_duration_shape ds later in
    rw (← ok-injective e2) (ap suc len, (one d range, ranges))
  where
    one : (d : ℤ) → between 0 d 0xFFFFFF ≡ true → IsDuration (pos (pos_part d))
    one (pos n) e = between-InRange 0 (pos n) 0xFFFFFF e
    one (negsuc n) e = cc

pub normalized_start_times_shape :
    (p : IrrigationProgram) {ns : List ℕ}
    → normalized_start_times p ≡ ok ns
    → (length (map shown_start ns) ≡ 8) × All IsStart (map shown_start ns)
unfolding normalized_start_times
normalized_start_times_shape p {ns} e =
    let (few, e1) = guard-eq-ok (leb (length p.start_times) 8) start_times_count _ e in
    let (len, ranges) = normalize_each_start_shape _ e1 in
    (
      omega (
        arith,
        length-map ns shown_start,
        len,
        leb→le _ _ few,
        length-append p.start_times (replicate (8 - length p.start_times) none),
        length-replicate {A = Option ℤ} (8 - length p.start_times) none,
      ),
      ranges,
    )

All-take :
    (n : ℕ) (xs : List ℕ) → All IsDuration (map pos xs) → All IsDuration (map pos (take n xs))
All-take zero xs h = tt
All-take (suc n) [] h = tt
All-take (suc n) (x ∷ xs) (h, hs) = (h, All-take n xs hs)

pub normalized_durations_shape :
    (p : IrrigationProgram) (max_stations : ℕ) {ns : List ℕ}
    → normalized_station_durations p max_stations ≡ ok ns
    → (length (map pos (take max_stations ns)) ≡ max_stations)
      × All IsDuration (map pos (take max_stations ns))
unfolding normalized_station_durations
normalized_durations_shape p m {ns} e =
    let (range, e1) = guard-eq-ok (leb 1 m && leb m 12) max_stations_range _ e in
    let (few, e2) = guard-eq-ok (leb (length p.station_durations) m) durations_count _ e1 in
    let (len, ranges) = normalize_each_duration_shape _ e2 in
    let bound : m ≤ 12 = ground arith in
    (
      omega (
        arith,
        length-map (take m ns) pos,
        length-take m ns,
        len,
        leb→le _ _ few,
        length-append p.station_durations (replicate (12 - length p.station_durations) (pos 0)),
        length-replicate {A = ℤ} (12 - length p.station_durations) (pos 0),
      ),
      All-take m ns ranges,
    )
