-- ===== src/Common/Int.antt =====
-- Python's int: signed and unbounded, over the native numbers.
use Prim.Native.Nat.{ℕ, ◌≤◌}
use mathlib.Core.Path.{◌≡◌, refl}
use mathlib.Core.Bool.{Bool, true, false, ◌&&◌}
use native.Mathlib.Omega.{arith}
use solem_blip_ble.Common.Tests.{leb, ◌==◌}

-- `negsuc n` is -(n + 1).
pub data ℤ : Type 0 where
  pos : ℕ → ℤ
  negsuc : ℕ → ℤ

-- The value of a number that a range check has found not negative.
abbrev pub pos_part : ℤ → ℕ
pos_part (pos n) = n
pos_part (negsuc n) = 0

-- `lo <= x <= hi` for literals `lo` and `hi` that are not negative.
abbrev pub between : ℕ → ℤ → ℕ → Bool
between lo (pos n) hi = leb lo n && leb n hi
between lo (negsuc n) hi = false

abbrev pub eq_ℤ : ℤ → ℤ → Bool
eq_ℤ (pos a) (pos b) = a == b
eq_ℤ (negsuc a) (negsuc b) = a == b
eq_ℤ _ _ = false

-- The same range as a proposition.
abbrev pub InRange : ℕ → ℤ → ℕ → Type 0
InRange lo (pos n) hi = (lo ≤ n) × (n ≤ hi)
InRange lo (negsuc n) hi = ⊥

pub InRange-between : (lo : ℕ) (x : ℤ) (hi : ℕ) → InRange lo x hi → between lo x hi ≡ true
InRange-between lo (pos n) hi h = ground arith
InRange-between lo (negsuc n) hi h = absurd h

pub between-InRange : (lo : ℕ) (x : ℤ) (hi : ℕ) → between lo x hi ≡ true → InRange lo x hi
between-InRange lo (pos n) hi h = ground arith
between-InRange lo (negsuc n) hi h = cc

pub not-InRange : (lo : ℕ) (x : ℤ) (hi : ℕ) → ¬ InRange lo x hi → between lo x hi ≡ false
not-InRange lo (pos n) hi h = ground arith
not-InRange lo (negsuc n) hi h = refl

pub InRange-pos_part :
    (lo : ℕ) (x : ℤ) (hi : ℕ) → InRange lo x hi → (lo ≤ pos_part x) × (pos_part x ≤ hi)
InRange-pos_part lo (pos n) hi h = h
InRange-pos_part lo (negsuc n) hi h = absurd h

pub eq_ℤ-sound : (a b : ℤ) → eq_ℤ a b ≡ true → a ≡ b
eq_ℤ-sound (pos a) (pos b) h = ground arith
eq_ℤ-sound (negsuc a) (negsuc b) h = ground arith
eq_ℤ-sound (pos a) (negsuc b) h = cc
eq_ℤ-sound (negsuc a) (pos b) h = cc

pub eq_ℤ-refl : (a : ℤ) → eq_ℤ a a ≡ true
eq_ℤ-refl (pos a) = ground arith
eq_ℤ-refl (negsuc a) = ground arith
