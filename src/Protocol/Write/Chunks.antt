-- ===== src/Protocol/Write/Chunks.antt =====
-- The chunks that a program write of src/solem_blip_ble/protocol.py sends, as assembly reads them.
use Prim.Native.Nat.{◌≤◌}
use solem_blip_ble.Common.{
  ℕ, ◌+◌, ◌*◌, ◌≤◌, ◌<◌, ◌≡◌, refl, ap, Option, none, some, [], ◌∷◌, map, arith, byte, replicate,
  All, ℤ, pos, negsuc, pos_part, ok,
}
use solem_blip_ble.Protocol.Program.Shapes.{IsStart, IsDuration}
use solem_blip_ble.Protocol.Write.{start_bytes, duration_bytes, stored_start}
use solem_blip_ble.Protocol.Config.{apply_starts, apply_durations, read_start, parse_config_int3}

pub word_back : (n : ℕ) → n < 65536 → byte n 8 * 256 + byte n 0 ≡ n
word_back n h = omega arith

triple_back : (n : ℕ) → n ≤ 0xFFFFFF → parse_config_int3 (byte n 16) (byte n 8) (byte n 0) ≡ n
unfolding parse_config_int3
triple_back n h = omega arith

start_back :
    (t : Option ℤ)
    → IsStart t
    → read_start (byte (stored_start t) 8 * 256 + byte (stored_start t) 0) ≡ t
start_back none h = refl
start_back (some (pos n)) h = rw (word_back n (omega arith)) (ground arith)
start_back (some (negsuc n)) h = absurd h

pub apply_starts_back :
    (h0 h1 h2 h3 : ℕ) (a b c d e f g h : Option ℤ)
    → All IsStart (a ∷ b ∷ c ∷ d ∷ e ∷ f ∷ g ∷ h ∷ [])
    → apply_starts 8 0
        (h0 ∷ h1 ∷ h2 ∷ h3 ∷ start_bytes (map stored_start (a ∷ b ∷ c ∷ d ∷ e ∷ f ∷ g ∷ h ∷ [])))
        (replicate 8 none)
      ≡ ok (a ∷ b ∷ c ∷ d ∷ e ∷ f ∷ g ∷ h ∷ [])
unfolding apply_starts start_bytes
apply_starts_back h0 h1 h2 h3 a b c d e f g h (pa, (pb, (pc, (pd, (pe, (pf, (pg, (ph, _)))))))) =
    rw (
      start_back a pa,
      start_back b pb,
      start_back c pc,
      start_back d pd,
      start_back e pe,
      start_back f pf,
      start_back g pg,
      start_back h ph,
    )

duration_back :
    (d : ℤ)
    → IsDuration d
    → pos (parse_config_int3 (byte (pos_part d) 16) (byte (pos_part d) 8) (byte (pos_part d) 0)) ≡ d
duration_back (pos n) h = ap pos (triple_back n (omega arith))
duration_back (negsuc n) h = absurd h

-- Five durations read into the stations from 0 on, from 5 on, and two from 10 on.
module _ (h0 h1 h2 h3 : ℕ) (a b c d e f g h i j k l : ℤ) where
  pub first_durations_back :
      All IsDuration (a ∷ b ∷ c ∷ d ∷ e ∷ [])
      → apply_durations 5 0 4
          (h0 ∷ h1 ∷ h2 ∷ h3 ∷ duration_bytes (map pos_part (a ∷ b ∷ c ∷ d ∷ e ∷ [])))
          12
          (replicate 12 (pos 0))
        ≡ ok (a ∷ b ∷ c ∷ d ∷ e ∷ replicate 7 (pos 0))
  unfolding apply_durations duration_bytes
  first_durations_back (pa, (pb, (pc, (pd, (pe, _))))) = rw (
    duration_back a pa,
    duration_back b pb,
    duration_back c pc,
    duration_back d pd,
    duration_back e pe,
  )

  pub next_durations_back :
      All IsDuration (f ∷ g ∷ h ∷ i ∷ j ∷ [])
      → apply_durations 5 5 4
          (h0 ∷ h1 ∷ h2 ∷ h3 ∷ duration_bytes (map pos_part (f ∷ g ∷ h ∷ i ∷ j ∷ [])))
          12
          (a ∷ b ∷ c ∷ d ∷ e ∷ replicate 7 (pos 0))
        ≡ ok (a ∷ b ∷ c ∷ d ∷ e ∷ f ∷ g ∷ h ∷ i ∷ j ∷ pos 0 ∷ pos 0 ∷ [])
  unfolding apply_durations duration_bytes
  next_durations_back (pf, (pg, (ph, (pi, (pj, _))))) = rw (
    duration_back f pf,
    duration_back g pg,
    duration_back h ph,
    duration_back i pi,
    duration_back j pj,
  )

  pub last_durations_back :
      All IsDuration (k ∷ l ∷ [])
      → apply_durations 2 10 4
          (h0 ∷ h1 ∷ h2 ∷ h3 ∷ duration_bytes (map pos_part (k ∷ l ∷ [])))
          12
          (a ∷ b ∷ c ∷ d ∷ e ∷ f ∷ g ∷ h ∷ i ∷ j ∷ pos 0 ∷ pos 0 ∷ [])
        ≡ ok (a ∷ b ∷ c ∷ d ∷ e ∷ f ∷ g ∷ h ∷ i ∷ j ∷ k ∷ l ∷ [])
  unfolding apply_durations duration_bytes
  last_durations_back (pk, (pl, _)) = rw (duration_back k pk, duration_back l pl)
