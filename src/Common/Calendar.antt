-- ===== src/Common/Calendar.antt =====
-- What the source uses of Python's `datetime`: dates with their ordinals, and a moment's fields.
use Prim.Native.Nat.{ℕ, zero, suc, ◌+◌, ◌-◌, ◌*◌, ◌/◌, ◌%◌}
use mathlib.Core.Bool.{Bool, not, ◌&&◌, ◌||◌}
use solem_blip_ble.Common.Tests.{leb, ◌==◌, if◌then◌else◌}

pub record Date : Type 0 where
  pub year : ℕ
  pub month : ℕ
  pub day : ℕ

pub record Moment : Type 0 where
  pub year : ℕ
  pub month : ℕ
  pub day : ℕ
  pub hour : ℕ
  pub minute : ℕ
  pub second : ℕ

unfoldable pub is_leap : ℕ → Bool
is_leap y = y % 4 == 0 && (not (y % 100 == 0) || y % 400 == 0)

unfoldable pub days_in_month : ℕ → ℕ → ℕ
unfolding is_leap
days_in_month y m =
    if m == 2
    then (if is_leap y then 29 else 28)
    else (if m == 4 || (m == 6 || (m == 9 || m == 11)) then 30 else 31)

-- Whether `date(year, month, day)` raises no ValueError.
unfoldable pub is_date : ℕ → ℕ → ℕ → Bool
unfolding days_in_month
is_date y m d =
    leb 1 y && (leb y 9999 && (leb 1 m && (leb m 12 && (leb 1 d && leb d (days_in_month y m)))))

unfoldable pub days_before_month : ℕ → ℕ → ℕ
unfolding days_in_month
days_before_month y zero = 0
days_before_month y (suc zero) = 0
days_before_month y (suc (suc m)) = days_before_month y (suc m) + days_in_month y (suc m)

-- `date.toordinal()`; `(a - b).days` is the difference of the ordinals.
unfoldable pub to_ordinal : Date → ℕ
unfolding days_before_month
to_ordinal d =
    let y = d.year - 1 in
    y * 365 + y / 4 - y / 100 + y / 400 + days_before_month d.year d.month + d.day
