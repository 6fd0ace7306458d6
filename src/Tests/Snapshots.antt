-- ===== src/Tests/Snapshots.antt =====
-- Patches of src/solem_blip_ble/snapshot.py.
use solem_blip_ble.Snapshot.Patch.{
  apply_change, Change, week_days, station_durations, apply_changes,
}
use solem_blip_ble.Common.{
  ℕ, ◌≡◌, refl, some, List, [], ◌∷◌, ◌++◌, arith, Bytes, replicate, pos, ok,
}
use solem_blip_ble.Snapshot.Patch.Layout.{IsLaidOut, lengths, apply_changes-IsLaidOut}

abbrev zeros_of : ℕ → Bytes
zeros_of n = replicate n 0

abbrev blank : List Bytes
blank =
    zeros_of 20
    ∷ zeros_of 20
    ∷ zeros_of 16
    ∷ zeros_of 20
    ∷ zeros_of 19
    ∷ zeros_of 19
    ∷ zeros_of 10
    ∷ []

-- The week days, and 600 seconds for station 12.
abbrev two_changes : List Change
two_changes =
    week_days (some (pos 31)) ∷ station_durations (some ((some (pos 12), some (pos 600)) ∷ [])) ∷ []

abbrev patched : List Bytes
patched =
    zeros_of 20
    ∷ zeros_of 20
    ∷ (zeros_of 9 ++ (31 ∷ zeros_of 6))
    ∷ zeros_of 20
    ∷ zeros_of 19
    ∷ zeros_of 19
    ∷ (zeros_of 7 ++ (0 ∷ 2 ∷ 88 ∷ []))
    ∷ []

two_applied : apply_changes 12 two_changes blank ≡ ok patched
unfolding apply_changes apply_change
two_applied = refl

blank-IsLaidOut : IsLaidOut blank
unfolding IsLaidOut lengths
blank-IsLaidOut = refl

apply_changes-IsLaidOut_example : IsLaidOut patched
apply_changes-IsLaidOut_example =
    apply_changes-IsLaidOut 12 two_changes blank {out = patched} (omega arith) two_applied
      blank-IsLaidOut
