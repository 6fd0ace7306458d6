-- ===== src/Protocol/Program/Synchro.antt =====
-- The countdown to the next day of an interval program, in src/solem_blip_ble/protocol.py.
use Prim.Native.Nat.{◌≤◌}
use solem_blip_ble.Common.Tests.{le→leb}
use solem_blip_ble.Common.{
  ℕ, ◌+◌, ◌-◌, ◌*◌, ◌/◌, ◌%◌, ◌≤◌, ◌<◌, ◌≡◌, sym, ◌∙◌, ◌≢◌, ◌⊎◌, inl, inr, false, some, arith, ltb,
  leb, ◌==◌, Bool-cases, pos, ok, ==_iff,
}
use solem_blip_ble.Common.Calendar.{Date, to_ordinal}
use solem_blip_ble.Protocol.Program.{
  sub_mod, synchro_countdown, Dates, a_date, period_start_to_synchro, coerce_period_start_date,
  coerce_today,
}
use native.Mathlib.Nat.{
  div-add-mod, mod-lt, mod-eq_of_lt, mod-add-mod, mod_self, add-mul-mod_self_left, mod-eq-sub-mod,
}

abbrev countdown : ℕ → ℕ → ℕ → ℕ
countdown a b p = (p - sub_mod a b p) % p

-- `(p - r) % p` for a remainder `r`.
complement : (p r : ℕ) → r < p → ((r ≡ 0) × ((p - r) % p ≡ 0)) ⊎ ((0 < r) × ((p - r) % p ≡ p - r))
complement p r h = elim (Bool-cases (r == 0)) [
  | inl none_left ↦
      let e : r ≡ 0 = (==_iff r 0).0 none_left in
      let whole : p - r ≡ p = omega arith in inl (e, rw whole (mod_self p))
  | inr some_left ↦ inr (ground arith, mod-eq_of_lt (ground arith))
]

twice_complement : (p r : ℕ) → r < p → (p - (p - r)) % p ≡ r
twice_complement p r h = let e : p - (p - r) ≡ r = omega arith in rw e (mod-eq_of_lt h)

-- Numbers that differ by whole periods have one remainder.
same_day : (x y p k : ℕ) → x ≡ y + p * k → x % p ≡ y % p
same_day x y p k e = rw e (add-mul-mod_self_left y p k)

-- The countdown from an anchor that is not in the future, and from one that is.
after_anchor : (a b p : ℕ) → 0 < p → b ≤ a → (a + countdown a b p) % p ≡ b % p
unfolding sub_mod
after_anchor a b p hp h =
    let days = div-add-mod (a - b) p in
    rw (le→leb b a h) (elim (complement p ((a - b) % p) (mod-lt (a - b) hp)) [
      | inl (e, c) ↦ rw c (same_day (a + 0) b p ((a - b) / p) (omega arith))
      | inr (e, c) ↦ rw c (
          same_day (a + (p - (a - b) % p)) b p ((a - b) / p + 1) (omega (arith, mod-lt (a - b) hp)))
    ])

before_anchor : (a b p : ℕ) → 0 < p → a < b → (a + countdown a b p) % p ≡ b % p
unfolding sub_mod
before_anchor a b p hp h =
    let days = div-add-mod (b - a) p in
    let later : leb b a ≡ false = ground arith in
    rw later (elim (complement p ((b - a) % p) (mod-lt (b - a) hp)) [
      | inl (e, c) ↦
          rw (c, sub_zero, mod_self p) (sym (same_day b (a + 0) p ((b - a) / p) (omega arith)))
      | inr (e, c) ↦
          let back : (p - (p - (b - a) % p)) % p ≡ (b - a) % p =
            twice_complement p ((b - a) % p) (mod-lt (b - a) hp) in
          rw (c, back) (sym (same_day b (a + (b - a) % p) p ((b - a) / p) (omega arith)))
    ])
  where
    sub_zero : p - 0 ≡ p
    sub_zero = omega arith

distinct_days : (x e p : ℕ) → 0 < e → e < p → (x + e) % p ≢ x % p
distinct_days x e p he hp eq =
    let step : (x % p + e) % p ≡ x % p = mod-add-mod x p e ∙ eq in
    let small_x : x % p < p = mod-lt x (omega arith) in
    elim (Bool-cases (ltb (x % p + e) p)) [
      | inl small ↦
          let same : (x % p + e) % p ≡ x % p + e = mod-eq_of_lt (ground arith) in
          absurd (omega arith)
      | inr large ↦
          let less : (x % p + e) % p ≡ (x % p + e - p) % p = mod-eq-sub-mod (ground arith) in
          let rest : (x % p + e - p) % p ≡ x % p + e - p = mod-eq_of_lt (ground arith) in
          absurd (ground arith)
    ]

aligned : (a b p : ℕ) → 0 < p → (a + countdown a b p) % p ≡ b % p
aligned a b p hp = elim (Bool-cases (leb b a)) [
  | inl past ↦ after_anchor a b p hp (ground arith)
  | inr future ↦ before_anchor a b p hp (ground arith)
]

-- With an anchor and a day that are dates and a period of at least one day, the countdown is
-- computed, is smaller than the period, leads from that day to a day that is whole periods from the
-- anchor, and no smaller number of days does.
pub synchro_next_run :
    (dates : Dates) (today anchor : Date) (period d : ℕ)
    → 1 ≤ period
    → let n = synchro_countdown today anchor period in
      (period_start_to_synchro dates (a_date anchor) (pos period) (some (a_date today)) ≡ ok n)
      × (n < period)
      × ((to_ordinal today + n) % period ≡ to_ordinal anchor % period)
      × ((n ≤ d) ⊎ ((to_ordinal today + d) % period ≢ to_ordinal anchor % period))
unfolding synchro_countdown period_start_to_synchro coerce_period_start_date coerce_today
synchro_next_run dates today anchor period d hp =
    let t = to_ordinal today in
    let a = to_ordinal anchor in
    let n = countdown t a period in
    let hits : (t + n) % period ≡ a % period = aligned t a period hp in
    let small : n < period = mod-lt (period - sub_mod t a period) hp in
    (
      ground arith,
      small,
      hits,
      elim (Bool-cases (leb n d)) [
        | inl reached ↦ inl (ground arith)
        | inr early ↦ inr (λ e. earlier t n d period (ground arith) small (hits ∙ sym e))
      ],
    )
  where
    earlier : (t n d p : ℕ) → d < n → n < p → (t + n) % p ≡ (t + d) % p → ⊥
    earlier t n d p h small e =
        let shift : t + n ≡ t + d + (n - d) = omega arith in
        distinct_days (t + d) (n - d) p (omega arith) (omega arith) (rw shift at e)
