-- ===== src/Common/Results.antt =====
-- Python's exceptions as values, for the pure functions of protocol.py, station_names.py and
-- snapshot.py.
use mathlib.Core.Path.{◌≡◌, refl}
use mathlib.Core.Bool.{Bool, true, false}
use mathlib.Core.Logic.{◌⊎◌, inl, inr}

-- One constructor for each message. Those up to `date_text` are ValueErrors; `out_of_range` is an
-- IndexError or a struct.error; the others are InvalidSnapshots.
pub data Error : Type 0 where
  days_range seconds_range station_range minutes_range program_range program_index_range : Error
  field_range period_length_range synchro_day_range start_times_count start_time_range : Error
  max_stations_range durations_count duration_range station_name_text station_name_length : Error
  date_text program_or_station_count integer_range program_name_text start_slots : Error
  out_of_range : Error
  station_name_frame station_name_conflict station_names_incomplete : Error
  programs_incomplete fragments_conflict fragment_layout slot_layout slot_fragment_layout : Error
  twelve_slots preflight_layout write_frame write_layout uncovered_change write_mismatch : Error
  cycle_mode block_lengths interval_invariant : Error

-- The outcome of a call: an exception, or what the call returns.
pub data Result {ℓ} (V : Type ℓ) : Type ℓ where
  err : Error → Result V
  ok : V → Result V

pub Result-cases {ℓ} :
    {V : Type ℓ} (r : Result V) → ((v : V) × (r ≡ ok v)) ⊎ ((e : Error) × (r ≡ err e))
Result-cases (err e) = inr (e, refl)
Result-cases (ok v) = inl (v, refl)

pub ok-injective {ℓ} : {V : Type ℓ} {v w : V} → ok v ≡ ok w → v ≡ w
ok-injective same = cc

-- `if not test: raise e`
abbrev pub guard : Bool → Error → Result (Unit {0})
guard false e = err e
guard true e = ok tt

pub guard-true : (test : Bool) (e : Error) → guard test e ≡ ok tt → test ≡ true
guard-true false e passed = cc
guard-true true e passed = refl

-- Statements one behind the other, the second with the value of the first.
infixl 5 ◌>>=◌
abbrev pub ◌>>=◌ {ℓ κ} : {V : Type ℓ} {W : Type κ} → Result V → (V → Result W) → Result W
err e >>= next = err e
ok v >>= next = next v

-- A block that succeeds has succeeded in its first statement and in what follows.
pub >>=-eq-ok {ℓ κ} :
    {V : Type ℓ} {W : Type κ} (first : Result V) (next : V → Result W) {w : W}
    → (first >>= next) ≡ ok w
    → (v : V) × (first ≡ ok v) × (next v ≡ ok w)
>>=-eq-ok (err e) next whole = cc
>>=-eq-ok (ok v) next whole = (v, refl, whole)

infixl 5 ◌>>◌
abbrev pub ◌>>◌ {ℓ} : {W : Type ℓ} → Result (Unit {0}) → Result W → Result W
first >> next = first >>= λ _. next

pub guard-eq-ok {ℓ} :
    {W : Type ℓ} (test : Bool) (e : Error) (next : Result W) {w : W}
    → (guard test e >> next) ≡ ok w
    → (test ≡ true) × (next ≡ ok w)
guard-eq-ok false e next whole = cc
guard-eq-ok true e next whole = (refl, whole)
