-- ===== src/Names/Collected.antt =====
-- What the loop over the frames of a name read keeps, in src/solem_blip_ble/station_names.py.
use solem_blip_ble.Common.{
  some-eq, ℕ, ◌+◌, ◌%◌, ◌≡◌, sym, ap, ◌∙◌, inl, inr, true, false, not, ◌&&◌, Option, none, some,
  List, [], ◌∷◌, arith, Bytes, at, ◌==◌, if◌then◌else◌, Bool-cases, length, drop, All, ok,
  ok-injective, guard-eq-ok, >>=-eq-ok, ==_iff,
}
use solem_blip_ble.Common.Lists.{length-drop, bytes_eq_sound}
use solem_blip_ble.Common.Results.{station_name_frame, station_name_conflict}
use solem_blip_ble.Common.Dict.{lookup, insert, lookup-insert}
use solem_blip_ble.Names.{
  Fragments, is_name_fragment, group_or_empty, conflicts, add_fragment, collect,
}

-- The half of an output's name that has been received.
abbrev pub half_of : Fragments → ℕ → ℕ → Option Bytes
half_of s station part = lookup part (group_or_empty (lookup station s.parts))

abbrev pub station_of : Bytes → ℕ
station_of frame = at frame 3 + 1

abbrev pub part_of : Bytes → ℕ
part_of frame = at frame 2 % 2

abbrev added : Bytes → Fragments → Fragments
added frame s = record {
  parts =
      insert (station_of frame)
        (insert (part_of frame) (drop 4 frame) (group_or_empty (lookup (station_of frame) s.parts)))
        s.parts;
  sequences = at frame 2 ∷ s.sequences;
}

add_fragment_inversion :
    (frame : Bytes) (s : Fragments) {s' : Fragments}
    → add_fragment frame s ≡ ok s'
    → (length frame ≡ 20)
      × (conflicts (half_of s (station_of frame) (part_of frame)) (drop 4 frame) ≡ false)
      × (s' ≡ added frame s)
unfolding add_fragment
add_fragment_inversion frame s e =
    let (valid, e1) = guard-eq-ok (is_name_fragment frame) station_name_frame _ e in
    let (agrees, e2) =
      guard-eq-ok (not (conflicts (half_of s (station_of frame) (part_of frame)) (drop 4 frame)))
        station_name_conflict _ e1 in
    (ground arith, ground arith, sym (ok-injective e2))

half_of-added :
    (frame : Bytes) (s : Fragments) (station part : ℕ)
    → half_of (added frame s) station part ≡ (
        if station_of frame == station && part_of frame == part
        then some (drop 4 frame)
        else half_of s station part)
half_of-added frame s station part = elim (Bool-cases (station_of frame == station)) [
  | inl same ↦
      rw (lookup-insert, same)
        (rw lookup-insert (rw (← (==_iff (station_of frame) station).0 same)))
  | inr other ↦ rw (lookup-insert, other)
]

same_place : (a b c d : ℕ) → (a == b && c == d) ≡ true → (a ≡ b) × (c ≡ d)
same_place a b c d h = ground arith

no_conflict :
    (o : Option Bytes) {half : Bytes} (x : Bytes) → o ≡ some half → conflicts o x ≡ false → x ≡ half
unfolding conflicts
no_conflict none x e h = cc
no_conflict (some old) {half} x e h = sym (bytes_eq_sound old x (ground arith)) ∙ some-eq e

-- A half that is there stays: a fragment that differs from it is refused.
add_fragment_keeps :
    (frame : Bytes) (s : Fragments) (station part : ℕ) {s' : Fragments} {half : Bytes}
    → add_fragment frame s ≡ ok s'
    → half_of s station part ≡ some half
    → half_of s' station part ≡ some half
add_fragment_keeps frame s station part {s'} {half} e held =
    let (_, agrees, shape) = add_fragment_inversion frame s e in
    rw (shape, half_of-added)
      (elim (Bool-cases (station_of frame == station && part_of frame == part)) [
        | inl same ↦
            let (es, ep) = same_place (station_of frame) station (part_of frame) part same in
            rw same (
              ap some (
                no_conflict (half_of s (station_of frame) (part_of frame)) (drop 4 frame)
                  (rw (es, ep) held) agrees))
        | inr other ↦ rw other held
      ])

-- Every half is 16 bytes long.
abbrev pub HalvesLong : Fragments → Type 0
HalvesLong s =
    (station part : ℕ) (half : Bytes) → half_of s station part ≡ some half → length half ≡ 16

add_fragment-HalvesLong :
    (frame : Bytes) (s : Fragments) {s' : Fragments}
    → add_fragment frame s ≡ ok s'
    → HalvesLong s
    → HalvesLong s'
add_fragment-HalvesLong frame s e long station part half held =
    let (l, _, shape) = add_fragment_inversion frame s e in
    elim (Bool-cases (station_of frame == station && part_of frame == part)) [
      | inl same ↦
          let fresh : drop 4 frame ≡ half = some-eq (rw (shape, half_of-added, same) at held) in
          rw (← fresh) (omega (arith, length-drop 4 frame))
      | inr other ↦ long station part half (rw (shape, half_of-added, other) at held)
    ]

collect_keeps :
    (frames : List Bytes) (s : Fragments) (station part : ℕ) {s' : Fragments} {half : Bytes}
    → collect frames s ≡ ok s'
    → half_of s station part ≡ some half
    → half_of s' station part ≡ some half
unfolding collect
collect_keeps [] s station part e held = rw (← ok-injective e) held
collect_keeps (frame ∷ rest) s station part e held =
    let (s1, first, later) = >>=-eq-ok (add_fragment frame s) (λ s'. collect rest s') e in
    collect_keeps rest s1 station part later (add_fragment_keeps frame s station part first held)

pub collect-HalvesLong :
    (frames : List Bytes) (s : Fragments) {s' : Fragments}
    → collect frames s ≡ ok s'
    → HalvesLong s
    → HalvesLong s'
unfolding collect
collect-HalvesLong [] s e long = rw (← ok-injective e) long
collect-HalvesLong (frame ∷ rest) s e long =
    let (s1, first, later) = >>=-eq-ok (add_fragment frame s) (λ s'. collect rest s') e in
    collect-HalvesLong rest s1 later (add_fragment-HalvesLong frame s first long)

-- The bytes of a frame stand in its place.
abbrev pub IsPlaced : Fragments → Bytes → Type 0
IsPlaced s frame = half_of s (station_of frame) (part_of frame) ≡ some (drop 4 frame)

pub collect-IsPlaced :
    (frames : List Bytes) (s : Fragments) {s' : Fragments}
    → collect frames s ≡ ok s'
    → All (IsPlaced s') frames
unfolding collect
collect-IsPlaced [] s e = tt
collect-IsPlaced (frame ∷ rest) s e =
    let (s1, first, later) = >>=-eq-ok (add_fragment frame s) (λ s'. collect rest s') e in
    let (_, _, shape) = add_fragment_inversion frame s first in
    (
      collect_keeps rest s1 (station_of frame) (part_of frame) later
          (rw (shape, half_of-added) (ground arith)),
      collect-IsPlaced rest s1 later,
    )
