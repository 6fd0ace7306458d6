-- ===== src/Tests/StationNames.antt =====
-- Station names of src/solem_blip_ble/station_names.py.
use Prim.Native.Nat.{◌≤◌}
use solem_blip_ble.Common.Dict.{insert, max_key, lookup}
use solem_blip_ble.Common.Text.{encode_point, strip, encode, ljust}
use solem_blip_ble.Names.{
  add_fragment, collect, is_complete, join_all, StationNameSnapshot, names, renamed, from_frames,
}
use solem_blip_ble.Protocol.Metadata.{has_nul, pack_station_name}
use solem_blip_ble.Common.{
  ℕ, ◌≤◌, ◌≡◌, refl, some, List, [], ◌∷◌, ◌++◌, arith, Bytes, ◌==◌, if◌then◌else◌, length,
  replicate, pos, InRange, ok,
}
use solem_blip_ble.Names.Rename.{renamed_reads_back}
use solem_blip_ble.Names.Complete.{HasName, from_frames-HasName}

abbrev sixteen : ℕ → Bytes
sixteen b = b ∷ b ∷ b ∷ b ∷ b ∷ b ∷ b ∷ b ∷ b ∷ b ∷ b ∷ b ∷ b ∷ b ∷ b ∷ b ∷ []

abbrev pub two_frames : List Bytes
two_frames =
    (0x36 ∷ 0x12 ∷ 0x01 ∷ 0x00 ∷ sixteen 0x41) ∷ (0x36 ∷ 0x12 ∷ 0x00 ∷ 0x00 ∷ sixteen 0x00) ∷ []

abbrev pub one_name : StationNameSnapshot
one_name = (1, sixteen 0x41 ++ sixteen 0x00) ∷ []

two_frames_named : from_frames two_frames 1 ≡ ok one_name
unfolding from_frames collect add_fragment lookup insert is_complete max_key join_all
two_frames_named = refl

from_frames-HasName_example : HasName one_name two_frames 1
from_frames-HasName_example =
    from_frames-HasName two_frames 1 1 {snapshot = one_name} two_frames_named (omega arith)
      (omega arith)

-- "Lié"
abbrev pub linked : List ℕ
linked = 0x4C ∷ 0x69 ∷ 0xE9 ∷ []

abbrev pub linked_bytes : Bytes
linked_bytes = 0x4C ∷ 0x69 ∷ 0xC3 ∷ 0xA9 ∷ replicate 28 0

abbrev pub renamed_one : StationNameSnapshot
renamed_one = (1, linked_bytes) ∷ []

one_renamed : renamed one_name (pos 1) linked (pos 1) ≡ ok renamed_one
unfolding renamed pack_station_name strip has_nul encode encode_point insert ljust
one_renamed = refl

renamed_reads_back_example :
    InRange 1 (pos 1) 1
    × (length (encode linked) ≤ 32)
    × (lookup 1 (names renamed_one) ≡ some linked)
    × (lookup 1 renamed_one ≡ some (ljust 32 (encode linked)))
    × (lookup 2 renamed_one
        ≡ (if 1 == 2 then some (ljust 32 (encode linked)) else lookup 2 one_name))
renamed_reads_back_example =
    renamed_reads_back one_name (pos 1) linked (pos 1) 2 {after = renamed_one} (ground arith)
      one_renamed
