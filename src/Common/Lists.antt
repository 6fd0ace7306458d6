-- ===== src/Common/Lists.antt =====
-- Lists measured and indexed by native numbers, under the library's names.
use solem_blip_ble.Common.Tests.{if◌then◌else◌, ◌==◌, ==_refl, ==_iff}
use Prim.Native.Nat.{◌≤◌, ℕ, zero, suc, ◌+◌, ◌-◌, ◌<◌, min}
use mathlib.Core.Path.{◌≡◌, refl, ap}
use mathlib.Core.List.{List, [], ◌∷◌, ◌++◌, map}
use mathlib.Core.Bool.{Bool, true, false, ◌&&◌}
use mathlib.Core.Option.{Option, none, some}
use native.Mathlib.Omega.{arith}

module _ {ℓ} {A : Type ℓ} where
  abbrev pub length : List A → ℕ
  length [] = 0
  length (x ∷ xs) = suc (length xs)

  abbrev pub get_elem? : List A → ℕ → Option A
  get_elem? [] i = none
  get_elem? (x ∷ xs) zero = some x
  get_elem? (x ∷ xs) (suc i) = get_elem? xs i

  abbrev pub get_or : List A → ℕ → A → A
  get_or [] i d = d
  get_or (x ∷ xs) zero d = x
  get_or (x ∷ xs) (suc i) d = get_or xs i d

  -- A write out of bounds changes nothing.
  abbrev pub set : List A → ℕ → A → List A
  set [] i v = []
  set (x ∷ xs) zero v = v ∷ xs
  set (x ∷ xs) (suc i) v = x ∷ set xs i v

  abbrev pub take : ℕ → List A → List A
  take zero xs = []
  take (suc n) [] = []
  take (suc n) (x ∷ xs) = x ∷ take n xs

  abbrev pub drop : ℕ → List A → List A
  drop zero xs = xs
  drop (suc n) [] = []
  drop (suc n) (x ∷ xs) = drop n xs

  abbrev pub replicate : ℕ → A → List A
  replicate zero a = []
  replicate (suc n) a = a ∷ replicate n a

  abbrev pub All {κ} : (A → Type κ) → List A → Type κ
  All P [] = Unit {κ}
  All P (x ∷ xs) = P x × All P xs

  pub length-append : (xs ys : List A) → length (xs ++ ys) ≡ length xs + length ys
  length-append [] ys = omega arith
  length-append (x ∷ xs) ys = omega (arith, length-append xs ys)

module _ {ℓ} {A : Type ℓ} where
  pub length-set : (xs : List A) (i : ℕ) (v : A) → length (set xs i v) ≡ length xs
  length-set [] i v = refl
  length-set (x ∷ xs) zero v = refl
  length-set (x ∷ xs) (suc i) v = ap suc (length-set xs i v)

  pub length-replicate : (n : ℕ) (a : A) → length (replicate n a) ≡ n
  length-replicate zero a = refl
  length-replicate (suc n) a = ap suc (length-replicate n a)

  pub length-drop : (n : ℕ) (xs : List A) → length (drop n xs) ≡ length xs - n
  length-drop zero xs = omega arith
  length-drop (suc n) [] = omega arith
  length-drop (suc n) (x ∷ xs) = omega (arith, length-drop n xs)

  pub length-take : (n : ℕ) (xs : List A) → length (take n xs) ≡ min n (length xs)
  length-take zero xs = omega arith
  length-take (suc n) [] = omega arith
  length-take (suc n) (x ∷ xs) = omega (arith, length-take n xs)

  pub length-map {κ} : {B : Type κ} (xs : List A) (f : A → B) → length (map f xs) ≡ length xs
  length-map [] f = refl
  length-map (x ∷ xs) f = ap suc (length-map xs f)

  pub take-append-drop : (n : ℕ) (xs : List A) → take n xs ++ drop n xs ≡ xs
  take-append-drop zero xs = refl
  take-append-drop (suc n) [] = refl
  take-append-drop (suc n) (x ∷ xs) = rw (take-append-drop n xs)

  pub All-map {κ μ} :
      (P : A → Type κ) (Q : A → Type μ) (xs : List A) → ((a : A) → P a → Q a) → All P xs → All Q xs
  All-map P Q [] f h = tt
  All-map P Q (x ∷ xs) f h = (f x h.0, All-map P Q xs f h.1)

-- `==` of two lists.
unfoldable pub list_eq {ℓ} : {A : Type ℓ} → (A → A → Bool) → List A → List A → Bool
list_eq eq [] [] = true
list_eq eq [] (y ∷ ys) = false
list_eq eq (x ∷ xs) [] = false
list_eq eq (x ∷ xs) (y ∷ ys) = eq x y && list_eq eq xs ys

module _ {ℓ} {A : Type ℓ} (eq : A → A → Bool) where
  pub list_eq_refl : ((a : A) → eq a a ≡ true) → (xs : List A) → list_eq eq xs xs ≡ true
  unfolding list_eq
  list_eq_refl h [] = refl
  list_eq_refl h (x ∷ xs) = rw (h x) (list_eq_refl h xs)

  pub list_eq_sound :
      ((a b : A) → eq a b ≡ true → a ≡ b) → (xs ys : List A) → list_eq eq xs ys ≡ true → xs ≡ ys
  unfolding list_eq
  list_eq_sound h [] [] e = refl
  list_eq_sound h [] (y ∷ ys) e = cc
  list_eq_sound h (x ∷ xs) [] e = cc
  list_eq_sound h (x ∷ xs) (y ∷ ys) e = ground (arith, h x y, list_eq_sound h xs ys)

-- `==` of two bytes objects.
abbrev pub bytes_eq : List ℕ → List ℕ → Bool
bytes_eq = list_eq ◌==◌

pub bytes_eq_refl : (b : List ℕ) → bytes_eq b b ≡ true
bytes_eq_refl b = list_eq_refl ◌==◌ ==_refl b

pub bytes_eq_sound : (a b : List ℕ) → bytes_eq a b ≡ true → a ≡ b
bytes_eq_sound a b h = list_eq_sound ◌==◌ (λ x y. (==_iff x y).0) a b h

-- A byte.
abbrev pub IsByte : ℕ → Type 0
IsByte b = b < 256

pub take_all {ℓ} : {A : Type ℓ} (n : ℕ) (xs : List A) → length xs ≤ n → take n xs ≡ xs
take_all zero [] h = refl
take_all zero (x ∷ xs) h = absurd (omega arith)
take_all (suc n) [] h = refl
take_all {A = A} (suc n) (x ∷ xs) h = ap (λ (t : List A). x ∷ t) (take_all n xs (omega arith))

pub append_assoc {ℓ} : {A : Type ℓ} (xs ys zs : List A) → (xs ++ ys) ++ zs ≡ xs ++ (ys ++ zs)
append_assoc [] ys zs = refl
append_assoc {A = A} (x ∷ xs) ys zs = ap (λ (t : List A). x ∷ t) (append_assoc xs ys zs)

pub append-nil {ℓ} : {A : Type ℓ} (xs : List A) → xs ++ [] ≡ xs
append-nil [] = refl
append-nil {A = A} (x ∷ xs) = ap (λ (t : List A). x ∷ t) (append-nil xs)

-- An element that is kept under a condition.
pub append_if {ℓ} :
    {A : Type ℓ} (b : Bool) (x : A) (before rest : List A)
    → (if b then before ++ (x ∷ []) else before) ++ rest ≡ before ++ (if b then x ∷ rest else rest)
append_if true x before rest = append_assoc before (x ∷ []) rest
append_if false x before rest = refl
