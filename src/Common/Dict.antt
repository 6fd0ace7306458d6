-- ===== src/Common/Dict.antt =====
-- A Python dict with int keys as an association list in insertion order, and stable sorting.
use Prim.Native.Nat.{ℕ, max}
use mathlib.Core.Path.{◌≡◌, refl}
use mathlib.Core.Option.{Option, none, some}
use mathlib.Core.List.{List, [], ◌∷◌, ◌++◌}
use native.Mathlib.Omega.{arith}
use solem_blip_ble.Common.Tests.{leb, ◌==◌, if◌then◌else◌, Bool-cases}
use solem_blip_ble.Common.Lists.{All}
use mathlib.Core.Logic.{inl, inr}

abbrev pub Dict {ℓ} : Type ℓ → Type ℓ
Dict V = List (ℕ × V)

module _ {ℓ} {V : Type ℓ} where
  -- `d.get(k)`
  unfoldable pub lookup : ℕ → Dict V → Option V
  lookup k [] = none
  lookup k ((j, v) ∷ d) = if j == k then some v else lookup k d

  -- `d[k] = v`
  unfoldable pub insert : ℕ → V → Dict V → Dict V
  insert k v [] = (k, v) ∷ []
  insert k v ((j, w) ∷ d) = if j == k then (k, v) ∷ d else (j, w) ∷ insert k v d

  pub lookup-insert :
      (k j : ℕ) (v : V) (d : Dict V)
      → lookup j (insert k v d) ≡ (if k == j then some v else lookup j d)
  unfolding lookup insert
  lookup-insert k j v [] = refl
  lookup-insert k j v ((i, w) ∷ d) = ground (arith, lookup-insert k j v d)

module _ {ℓ} {V : Type ℓ} where
  -- `d.setdefault(k, []).append(v)`
  unfoldable pub push : ℕ → V → Dict (List V) → Dict (List V)
  push k v [] = (k, v ∷ []) ∷ []
  push k v ((j, w) ∷ d) = if j == k then (j, w ++ (v ∷ [])) ∷ d else (j, w) ∷ push k v d

  abbrev pub group_of : ℕ → Dict (List V) → List V
  group_of k [] = []
  group_of k ((j, w) ∷ d) = if j == k then w else group_of k d

  pub group_of-push :
      (k j : ℕ) (v : V) (d : Dict (List V))
      → group_of j (push k v d) ≡ (if k == j then group_of j d ++ (v ∷ []) else group_of j d)
  unfolding push
  group_of-push k j v [] = refl
  group_of-push k j v ((i, w) ∷ d) = ground (arith, group_of-push k j v d)

-- `sorted(xs, key=key, reverse=True)`: highest first, and equal keys in their order.
module _ {ℓ} {A : Type ℓ} (key : A → ℕ) where
  unfoldable pub insert_desc : A → List A → List A
  insert_desc x [] = x ∷ []
  insert_desc x (y ∷ ys) = if leb (key y) (key x) then x ∷ y ∷ ys else y ∷ insert_desc x ys

  unfoldable pub sort_desc : List A → List A
  unfolding insert_desc
  sort_desc [] = []
  sort_desc (x ∷ xs) = insert_desc x (sort_desc xs)

  -- `max(key(x) for x in xs)`; Python raises on no element, and the callers have one.
  unfoldable pub max_key : List A → ℕ
  max_key [] = 0
  max_key (x ∷ xs) = max (key x) (max_key xs)

module _ {ℓ κ} {A : Type ℓ} (P : A → Type κ) (key : A → ℕ) where
  pub All-insert_desc : (x : A) (xs : List A) → P x → All P xs → All P (insert_desc key x xs)
  unfolding insert_desc
  All-insert_desc x [] h hs = (h, tt)
  All-insert_desc x (y ∷ ys) h (hy, hs) = elim (Bool-cases (leb (key y) (key x))) [
    | inl e ↦ rw e (h, (hy, hs))
    | inr e ↦ rw e (hy, All-insert_desc x ys h hs)
  ]

  pub All-sort_desc : (xs : List A) → All P xs → All P (sort_desc key xs)
  unfolding sort_desc
  All-sort_desc [] h = tt
  All-sort_desc (x ∷ xs) (h, hs) = All-insert_desc x _ h (All-sort_desc xs hs)

-- A property of every element of every group.
module _ {ℓ κ} {V : Type ℓ} (P : V → Type κ) where
  abbrev pub AllGroups : Dict (List V) → Type κ
  AllGroups [] = Unit {κ}
  AllGroups ((k, vs) ∷ d) = All P vs × AllGroups d

  pub AllGroups-push :
      (k : ℕ) (v : V) (d : Dict (List V)) → P v → AllGroups d → AllGroups (push k v d)
  unfolding push
  AllGroups-push k v [] h hs = ((h, tt), tt)
  AllGroups-push k v ((j, w) ∷ d) h (hw, hs) = elim (Bool-cases (j == k)) [
    | inl e ↦ rw e (All-append w hw, hs)
    | inr e ↦ rw e (hw, AllGroups-push k v d h hs)
  ]
    where
      All-append : (w : List V) → All P w → All P (w ++ (v ∷ []))
      All-append [] hw = (h, tt)
      All-append (x ∷ w) (hx, hw) = (hx, All-append w hw)
