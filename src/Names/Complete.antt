-- ===== src/Names/Complete.antt =====
-- What a complete name response of src/solem_blip_ble/station_names.py guarantees: a name for every
-- output, and every fragment in its place.
use Prim.Native.Nat.{◌≤◌}
use mathlib.Core.Path.{subst}
use solem_blip_ble.Common.{
  some-eq, is_some-some, ℕ, zero, suc, ◌≤◌, ◌≡◌, refl, sym, ◌∙◌, ◌≢◌, ◌⊎◌, inl, inr, true, none,
  some, List, [], ◌∷◌, ◌++◌, arith, Bytes, ◌==◌, Bool-cases, is_some, length, drop, All, ok,
  ok-injective, guard-eq-ok, >>=-eq-ok, ==_iff,
}
use solem_blip_ble.Common.Results.{station_names_incomplete}
use solem_blip_ble.Common.Dict.{Dict, lookup}
use solem_blip_ble.Names.{
  StationNameSnapshot, Fragments, collect, has_both_halves, all_have_both, all_reported,
  no_gap_below, sequence_end, is_complete, joined_halves, join_all, no_fragments, from_frames,
}
use solem_blip_ble.Names.Collected.{
  half_of, station_of, part_of, HalvesLong, collect-HalvesLong, IsPlaced, collect-IsPlaced,
}

lookup-join_all :
    (k : ℕ) (parts : Dict (Dict Bytes))
    → lookup k (join_all parts)
      ≡ elim (lookup k parts) [ none ↦ none | some group ↦ some (joined_halves group) ]
unfolding lookup join_all
lookup-join_all k [] = refl
lookup-join_all k ((j, group) ∷ parts) = ground (arith, lookup-join_all k parts)

all_reported_at :
    (n k : ℕ) (parts : Dict (Dict Bytes))
    → all_reported n parts ≡ true
    → 1 ≤ k
    → k ≤ n
    → is_some (lookup k parts) ≡ true
unfolding all_reported
all_reported_at zero k parts e l h = absurd (omega arith)
all_reported_at (suc n) k parts e l h = elim (Bool-cases (k == suc n)) [
  | inl last ↦ rw ((==_iff k (suc n)).0 last) (ground arith)
  | inr before ↦ all_reported_at n k parts (ground arith) l (ground arith)
]

all_have_both_at :
    (k : ℕ) (parts : Dict (Dict Bytes)) (group : Dict Bytes)
    → all_have_both parts ≡ true
    → lookup k parts ≡ some group
    → has_both_halves group ≡ true
unfolding all_have_both lookup
all_have_both_at k [] group e found = cc
all_have_both_at k ((j, g) ∷ parts) group e found = ground (arith, all_have_both_at k parts group)

-- A frame of the output carries the first half with an odd byte 2, the second with an even one.
abbrev pub IsHalfOf : ℕ → Bytes → Bytes → Bytes → Type 0
IsHalfOf station first second frame =
    (station_of frame ≢ station)
    ⊎ ((part_of frame ≡ 1) × (drop 4 frame ≡ first))
    ⊎ ((part_of frame ≡ 0) × (drop 4 frame ≡ second))

-- The name that a successful assembly gives one output.
abbrev pub HasName : StationNameSnapshot → List Bytes → ℕ → Type 0
HasName snapshot frames station =
    (first : Bytes) × (second : Bytes) × (lookup station snapshot ≡ some (first ++ second))
    × (length first ≡ 16)
    × (length second ≡ 16)
    × All (λ frame. IsHalfOf station first second frame) frames

halves_of_frames :
    (s : Fragments) (frames : List Bytes) (station : ℕ) (first second : Bytes)
    → half_of s station 1 ≡ some first
    → half_of s station 0 ≡ some second
    → All (IsPlaced s) frames
    → All (IsHalfOf station first second) frames
halves_of_frames s [] station first second h1 h0 p = tt
halves_of_frames s (frame ∷ rest) station first second h1 h0 (p, ps) =
    (one, halves_of_frames s rest station first second h1 h0 ps)
  where
    one : IsHalfOf station first second frame
    one = elim (Bool-cases (station_of frame == station)) [
      | inr other ↦ inl (λ e. ground arith)
      | inl same ↦
          let es = (==_iff (station_of frame) station).0 same in
          elim (Bool-cases (part_of frame == 1)) [
            | inl odd ↦
                let ep = (==_iff (part_of frame) 1).0 odd in
                inr (inl (ep, some-eq (sym (rw (es, ep) at p) ∙ h1)))
            | inr even ↦
                let ep : part_of frame ≡ 0 = ground arith in
                inr (inr (ep, some-eq (sym (rw (es, ep) at p) ∙ h0)))
          ]
    ]

is_complete_inversion :
    (physical : ℕ) (frames : List Bytes) (s : Fragments)
    → is_complete physical frames s ≡ true
    → (all_have_both s.parts ≡ true)
      × (all_reported physical s.parts ≡ true)
      × (no_gap_below (sequence_end s.sequences) s.sequences ≡ true)
unfolding is_complete
is_complete_inversion physical frames s h = ground arith

both_halves_inversion :
    (group : Dict Bytes)
    → has_both_halves group ≡ true
    → (first second : Bytes) × (lookup 1 group ≡ some first) × (lookup 0 group ≡ some second)
unfolding has_both_halves
both_halves_inversion group h =
    let (first, e1) = is_some-some (lookup 1 group) (ground arith) in
    let (second, e0) = is_some-some (lookup 0 group) (ground arith) in (first, second, e1, e0)

HasName-parts :
    (frames : List Bytes) (physical station : ℕ) (s : Fragments)
    → is_complete physical frames s ≡ true
    → HalvesLong s
    → All (IsPlaced s) frames
    → 1 ≤ station
    → station ≤ physical
    → HasName (join_all s.parts) frames station
HasName-parts frames physical station s complete long placed lo hi =
    let (both, reported, _) = is_complete_inversion physical frames s complete in
    let (group, found) =
      is_some-some (lookup station s.parts)
        (all_reported_at physical station s.parts reported lo hi) in
    of_group group found
      (both_halves_inversion group (all_have_both_at station s.parts group both found))
  where
    of_group :
        (group : Dict Bytes)
        → lookup station s.parts ≡ some group
        → (first second : Bytes) × (lookup 1 group ≡ some first) × (lookup 0 group ≡ some second)
        → HasName (join_all s.parts) frames station
    of_group group found (first, second, e1, e0) =
        let h1 : half_of s station 1 ≡ some first = rw found e1 in
        let h0 : half_of s station 0 ≡ some second = rw found e0 in
        (
          first,
          second,
          rw (lookup-join_all, found, e1, e0),
          long station 1 first h1,
          long station 0 second h0,
          halves_of_frames s frames station first second h1 h0 placed,
        )

-- A response that is accepted gives every output up to the count a name of two halves of 16 bytes,
-- and each frame of an output carries one of its halves: the first with an odd byte 2, the second
-- with an even one.
pub from_frames-HasName :
    (frames : List Bytes) (physical station : ℕ) {snapshot : StationNameSnapshot}
    → from_frames frames physical ≡ ok snapshot
    → 1 ≤ station
    → station ≤ physical
    → HasName snapshot frames station
unfolding from_frames
from_frames-HasName frames physical station e lo hi =
    let (s, run, e1) = >>=-eq-ok (collect frames no_fragments) _ e in
    let (complete, e2) =
      guard-eq-ok (is_complete physical frames s) station_names_incomplete _ e1 in
    let long = collect-HalvesLong frames no_fragments run (λ st part half h. unfold lookup in cc) in
    subst (λ x. HasName x frames station) (ok-injective e2)
      (HasName-parts frames physical station s complete long
        (collect-IsPlaced frames no_fragments run) lo hi)
