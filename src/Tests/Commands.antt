-- ===== src/Tests/Commands.antt =====
-- Commands and status frames of src/solem_blip_ble/protocol.py.
use solem_blip_ble.Common.{
  ◌≡◌, refl, ◌⊎◌, Error, err, some, [], ◌∷◌, arith, Bytes, at, length, All, IsByte, pos, InRange,
  ok,
}
use solem_blip_ble.Protocol.Command.{pack_sprinkle_station, pack_v5_duration_command}
use solem_blip_ble.Protocol.Status.{
  SolemStatus, parse_status_notification, valid_remaining, parse_int3,
}
use solem_blip_ble.Protocol.Command.Durations.{sprinkle_station-decodes}
use solem_blip_ble.Protocol.Status.Consistent.{
  IsStatusFrame, IsConsistent, ReadsFrame, status-IsConsistent,
}

abbrev pub station_three : Bytes
station_three = 0x31 ∷ 0x05 ∷ 0x12 ∷ 0x03 ∷ 0x00 ∷ 0x02 ∷ 0x58 ∷ []

pub station_three_packed : pack_sprinkle_station (pos 3) (pos 10) ≡ ok station_three
unfolding pack_sprinkle_station pack_v5_duration_command
station_three_packed = refl

sprinkle_station-decodes_example :
    (InRange 1 (pos 3) 8
      × InRange 1 (pos 10) 240
      × (f : Bytes) × (pack_sprinkle_station (pos 3) (pos 10) ≡ ok f)
      × All IsByte f
      × (length f ≡ 7)
      × (at f 3 ≡ 3)
      × (valid_remaining (parse_int3 (at f 4) (at f 5) (at f 6)) ≡ some 600))
    ⊎ ((¬ (InRange 1 (pos 3) 8 × InRange 1 (pos 10) 240))
        × (e : Error) × (pack_sprinkle_station (pos 3) (pos 10) ≡ err e))
sprinkle_station-decodes_example = sprinkle_station-decodes (pos 3) (pos 10)

abbrev pub running_frame : Bytes
running_frame =
    0x32 ∷ 0x10 ∷ 0x02 ∷ 0x42 ∷ 0x00 ∷ 0x00 ∷ 0x00 ∷ 0x00 ∷ 0x00 ∷ 0x52 ∷ 0x00 ∷ 0x00 ∷ 0x00 ∷ 0x03
    ∷ 0x02 ∷ 0x58 ∷ 0x00 ∷ 0x00 ∷ []

running_frame-IsStatusFrame : IsStatusFrame running_frame
running_frame-IsStatusFrame = (omega arith, refl, ground arith)

status-IsConsistent_example :
    (s : SolemStatus) × (parse_status_notification running_frame 6 ≡ ok (some s))
    × IsConsistent 6 s
    × ReadsFrame running_frame 6 s
status-IsConsistent_example = status-IsConsistent running_frame 6 running_frame-IsStatusFrame
