-- ===== src/Protocol/Command/Durations.antt =====
-- The watering commands of src/solem_blip_ble/protocol.py: which arguments they take, and how the
-- duration reads back.
use solem_blip_ble.Common.{inr, inl, Result-cases, ◌⊎◌, Error}
use solem_blip_ble.Common.{
  refl, ◌↔◌, days_range, err, ◌∙◌, sym, ok-injective, pos_part, length, IsByte, All, negsuc, ℤ,
}
use solem_blip_ble.Protocol.Command.{
  pack_turn_off_permanent, pack_turn_off_x_days, pack_sprinkle_station,
}
use solem_blip_ble.Common.{
  ℕ, ◌*◌, ◌/◌, ◌%◌, ◌≡◌, Bytes, at, some, pos, InRange, ok, arith, some, ◌∷◌, [],
}
use solem_blip_ble.Protocol.Status.{parse_int3, valid_remaining}

-- The bytes of a station's watering command.
abbrev pub sprinkle_frame : ℕ → ℕ → ℕ → Bytes
sprinkle_frame opcode station seconds =
    0x31
    ∷ 0x05
    ∷ opcode
    ∷ station
    ∷ (seconds / 65536)
    ∷ (seconds / 256 % 256)
    ∷ (seconds % 256)
    ∷ []

pub sprinkle_station_frame :
    (station minutes : ℕ)
    → InRange 1 (pos station) 8
    → InRange 1 (pos minutes) 240
    → pack_sprinkle_station (pos station) (pos minutes)
      ≡ ok (sprinkle_frame 0x12 station (minutes * 60))
unfolding pack_sprinkle_station
sprinkle_station_frame station minutes hs hm = ground arith

pub remaining_of_frame :
    (opcode station minutes : ℕ)
    → InRange 1 (pos minutes) 240
    → let f = sprinkle_frame opcode station (minutes * 60) in
      valid_remaining (parse_int3 (at f 4) (at f 5) (at f 6)) ≡ some (minutes * 60)
unfolding valid_remaining parse_int3
remaining_of_frame opcode station minutes hm = ground arith

sprinkle_station_inversion :
    (station minutes : ℤ) (f : Bytes)
    → pack_sprinkle_station station minutes ≡ ok f
    → InRange 1 station 8 × InRange 1 minutes 240
unfolding pack_sprinkle_station
sprinkle_station_inversion (pos s) (pos m) f e = ground arith
sprinkle_station_inversion (pos s) (negsuc m) f e = ground arith
sprinkle_station_inversion (negsuc s) m f e = ground arith

sprinkle_station_refused :
    (station minutes : ℤ) (e : Error)
    → InRange 1 station 8
    → InRange 1 minutes 240
    → pack_sprinkle_station station minutes ≡ err e
    → ⊥
sprinkle_station_refused (pos s) (pos m) e hs hm refused =
    let clash = sym refused ∙ sprinkle_station_frame s m hs hm in ground arith
sprinkle_station_refused (pos s) (negsuc m) e hs hm refused = hm
sprinkle_station_refused (negsuc s) m e hs hm refused = hs

-- What a packed watering command says of its arguments and of its bytes.
pub sprinkle_station_fields :
    (station minutes : ℤ) (f : Bytes)
    → pack_sprinkle_station station minutes ≡ ok f
    → InRange 1 station 8
      × InRange 1 minutes 240
      × All IsByte f
      × (length f ≡ 7)
      × (at f 3 ≡ pos_part station)
      × (valid_remaining (parse_int3 (at f 4) (at f 5) (at f 6)) ≡ some (pos_part minutes * 60))
sprinkle_station_fields (pos s) (pos m) f e =
    let h = sprinkle_station_inversion (pos s) (pos m) f e in
    let frame : f ≡ sprinkle_frame 0x12 s (m * 60) =
      ok-injective (sym e ∙ sprinkle_station_frame s m h.0 h.1) in
    rw frame (h.0, h.1, omega arith, refl, refl, remaining_of_frame 0x12 s m h.1)
sprinkle_station_fields (pos s) (negsuc m) f e =
    absurd (sprinkle_station_inversion (pos s) (negsuc m) f e).1
sprinkle_station_fields (negsuc s) m f e = absurd (sprinkle_station_inversion (negsuc s) m f e).0

-- A station's watering command is packed exactly for stations 1 to 8 and 1 to 240 minutes, and refused
-- with an error for all other arguments. What is packed is seven bytes with the station in byte 3, and
-- the status decoder reads bytes 4 to 6 back as a valid remaining time of 60 seconds for each minute.
pub sprinkle_station-decodes :
    (station minutes : ℤ)
    → (InRange 1 station 8
        × InRange 1 minutes 240
        × (f : Bytes) × (pack_sprinkle_station station minutes ≡ ok f)
        × All IsByte f
        × (length f ≡ 7)
        × (at f 3 ≡ pos_part station)
        × (valid_remaining (parse_int3 (at f 4) (at f 5) (at f 6)) ≡ some (pos_part minutes * 60)))
      ⊎ ((¬ (InRange 1 station 8 × InRange 1 minutes 240))
          × (e : Error) × (pack_sprinkle_station station minutes ≡ err e))
sprinkle_station-decodes station minutes =
    elim (Result-cases (pack_sprinkle_station station minutes)) [
      | inl (f, packed) ↦
          let (s, m, bytes, seven, third, decoded) =
            sprinkle_station_fields station minutes f packed in
          inl (s, m, f, packed, bytes, seven, third, decoded)
      | inr (e, refused) ↦
          inr ((λ h. sprinkle_station_refused station minutes e h.0 h.1 refused), e, refused)
    ]

-- Accepted arguments: two calls with the same outcome, one of them with a station from 1 to 8 and 1
-- to 240 minutes, are calls with the same arguments.
pub sprinkle_station-injective :
    (s m s' m' : ℤ)
    → InRange 1 s 8
    → InRange 1 m 240
    → pack_sprinkle_station s m ≡ pack_sprinkle_station s' m'
    → (s ≡ s') × (m ≡ m')
sprinkle_station-injective (pos s) (pos m) s' m' hs hm e =
    same s' m' (sym e ∙ sprinkle_station_frame s m hs hm)
  where
    same :
        (s' m' : ℤ)
        → pack_sprinkle_station s' m' ≡ ok (sprinkle_frame 0x12 s (m * 60))
        → (pos s ≡ s') × (pos m ≡ m')
    same (pos s') (pos m') e =
        let h = sprinkle_station_inversion (pos s') (pos m') _ e in
        let frames : sprinkle_frame 0x12 s (m * 60) ≡ sprinkle_frame 0x12 s' (m' * 60) =
          ok-injective (sym e ∙ sprinkle_station_frame s' m' h.0 h.1) in
        ground arith
    same (pos s') (negsuc m') e = absurd (sprinkle_station_inversion (pos s') (negsuc m') _ e).1
    same (negsuc s') m' e = absurd (sprinkle_station_inversion (negsuc s') m' _ e).0
sprinkle_station-injective (negsuc s) m s' m' hs hm e = absurd hs
sprinkle_station-injective (pos s) (negsuc m) s' m' hs hm e = absurd hm

-- Turning off for a number of days is refused exactly outside 0 to 15 days, and gives the frame of
-- the permanent turn-off exactly for 0 days.
pub turn_off_x_days_frame :
    (days : ℤ)
    → ((pack_turn_off_x_days days ≡ err days_range) ↔ (¬ InRange 0 days 15))
      × ((pack_turn_off_x_days days ≡ ok pack_turn_off_permanent) ↔ (days ≡ pos 0))
unfolding pack_turn_off_x_days pack_turn_off_permanent
turn_off_x_days_frame (pos n) =
    (((λ e h. ground arith), λ h. ground arith), ((λ e. ground arith), λ e. ground arith))
turn_off_x_days_frame (negsuc n) = (((λ e h. h), λ h. refl), ((λ e. cc), λ e. cc))
