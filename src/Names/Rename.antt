-- ===== src/Names/Rename.antt =====
-- Renaming an output in src/solem_blip_ble/station_names.py: the name reads back, and no other changes.
use Prim.Native.Nat.{◌≤◌}
use solem_blip_ble.Common.Lists.{
  take_all, length-append, length-replicate, length-drop, take-append-drop,
}
use solem_blip_ble.Common.{
  between-InRange, ℕ, ◌-◌, ◌≤◌, ◌≡◌, refl, sym, ap, ◌∙◌, false, not, ◌&&◌, ◌||◌, none, some, List,
  [], ◌∷◌, ◌++◌, arith, Bytes, leb, ◌==◌, if◌then◌else◌, length, take, drop, replicate, All, ℤ,
  pos_part, between, InRange, ok, ok-injective, guard-eq-ok, >>=-eq-ok, ==_refl,
}
use solem_blip_ble.Common.Results.{station_range, station_name_text, station_name_length}
use solem_blip_ble.Common.Text.{Str, encode, ljust, strip}
use solem_blip_ble.Common.Text.RoundTrip.{IsScalar, NoNul, decode-ljust}
use solem_blip_ble.Common.Dict.{lookup, insert, lookup-insert}
use solem_blip_ble.Protocol.Metadata.{pack_station_name, name_frame, has_nul, is_empty}
use solem_blip_ble.Names.{StationNameSnapshot, names, decoded_name, renamed, written_name}

pub has_nul-NoNul : (s : Str) → has_nul s ≡ false → NoNul s
unfolding has_nul
has_nul-NoNul [] e = tt
has_nul-NoNul (c ∷ s) e = (ground arith, has_nul-NoNul s (ground arith))

-- The two halves of 32 bytes, put together again.
halves_join : (p : Bytes) → length p ≡ 32 → take 16 p ++ take 16 (drop 16 p) ≡ p
halves_join p h =
    ap (λ (t : Bytes). take 16 p ++ t) (take_all 16 (drop 16 p) (omega (arith, length-drop 16 p)))
    ∙ take-append-drop 16 p

pub length-ljust : (n : ℕ) (b : Bytes) → length b ≤ n → length (ljust n b) ≡ n
unfolding ljust
length-ljust n b h =
    omega (
      arith,
      length-append b (replicate (n - length b) 0),
      length-replicate {A = ℕ} (n - length b) 0,
    )

-- What a successful packing has checked, and its frames.
pub pack_station_name_inversion :
    (station : ℤ) (name : Str) (physical : ℤ) {frames : List Bytes}
    → pack_station_name station name physical ≡ ok frames
    → InRange 1 station (pos_part physical)
      × (has_nul name ≡ false)
      × (length (encode name) ≤ 32)
      × (frames
          ≡ name_frame 0 (pos_part station - 1) (ljust 32 (encode name))
            ∷ name_frame 1 (pos_part station - 1) (ljust 32 (encode name))
            ∷ [])
unfolding pack_station_name
pack_station_name_inversion station name physical e =
    let (range, e1) =
      guard-eq-ok (between 1 station (pos_part physical) && between 0 physical 12) station_range _
        e in
    let (text, e2) =
      guard-eq-ok (not (is_empty (strip name) || has_nul name)) station_name_text _ e1 in
    let (fits, e3) = guard-eq-ok (leb (length (encode name)) 32) station_name_length _ e2 in
    (
      between-InRange 1 station (pos_part physical) (ground arith),
      ground arith,
      ground arith,
      sym (ok-injective e3),
    )

pub lookup-names :
    (j : ℕ) (d : StationNameSnapshot)
    → lookup j (names d) ≡ elim (lookup j d) [ none ↦ none | some raw ↦ some (decoded_name raw) ]
unfolding lookup names
lookup-names j [] = refl
lookup-names j ((k, raw) ∷ d) = ground (arith, lookup-names j d)

-- A rename is accepted only for a NUL-free name of at most 32 bytes of UTF-8 and an output that the
-- controller has. For a name of scalar values the renamed output then reads back as that name from
-- 32 raw bytes, and every other output keeps its raw bytes.
pub renamed_reads_back :
    (snapshot : StationNameSnapshot) (station : ℤ) (name : Str) (physical : ℤ) (j : ℕ)
    {after : StationNameSnapshot}
    → All IsScalar name
    → renamed snapshot station name physical ≡ ok after
    → InRange 1 station (pos_part physical)
      × (length (encode name) ≤ 32)
      × (lookup (pos_part station) (names after) ≡ some name)
      × (lookup (pos_part station) after ≡ some (ljust 32 (encode name)))
      × (lookup j after
          ≡ (if pos_part station == j then some (ljust 32 (encode name)) else lookup j snapshot))
unfolding renamed
renamed_reads_back snapshot station name physical j {after} scalars e =
    let (frames, packed, e1) = >>=-eq-ok _ _ e in
    let (range, no_nul, fits, shape) = pack_station_name_inversion station name physical packed in
    let raw : written_name frames ≡ ljust 32 (encode name) =
      rw shape (unfold written_name in halves_join _ (length-ljust 32 (encode name) fits)) in
    let inserted : after ≡ insert (pos_part station) (ljust 32 (encode name)) snapshot =
      sym (ok-injective e1) ∙ ap (λ (r : Bytes). insert (pos_part station) r snapshot) raw in
    let held : (i : ℕ)
        → lookup i after
          ≡ (if pos_part station == i then some (ljust 32 (encode name)) else lookup i snapshot) =
      λ i. rw inserted (lookup-insert (pos_part station) i (ljust 32 (encode name)) snapshot) in
    let own : lookup (pos_part station) after ≡ some (ljust 32 (encode name)) =
      held (pos_part station) ∙ rw (==_refl (pos_part station)) in
    (
      range,
      fits,
      lookup-names (pos_part station) after
          ∙ rw own (ap some (decode-ljust 32 name scalars (has_nul-NoNul name no_nul))),
      own,
      held j,
    )
