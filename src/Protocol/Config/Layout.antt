-- ===== src/Protocol/Config/Layout.antt =====
-- The layouts of a configuration notification, and the ranges of what a fragment holds.
use Prim.Native.Nat.{◌≤◌}
use solem_blip_ble.Common.{
  ℕ, ◌+◌, ◌≤◌, ◌<◌, ◌≡◌, true, none, some, [], ◌∷◌, arith, Bytes, at, if◌then◌else◌, length, get_or,
}
use solem_blip_ble.Protocol.Config.{
  is_config_op, normalize_config_notification, parse_irrigation_config_fragment, is_program_frame,
  logical_chunk_of, irrigation_chunk_min_lengths, parsed_chunk,
}

-- A normalised frame has a config command and at least four bytes.
abbrev pub IsNormal : Bytes → Type 0
IsNormal frame = (4 ≤ length frame) × (is_config_op (at frame 0) ≡ true)

pub normalize-IsNormal :
    (frame n : Bytes) → normalize_config_notification frame ≡ some n → IsNormal n
unfolding normalize_config_notification is_config_op
normalize-IsNormal [] n e = ground arith
normalize-IsNormal (a ∷ []) n e = ground arith
normalize-IsNormal (a ∷ b ∷ rest) n e = ground arith

pub normalize_of_normal : (n : Bytes) → IsNormal n → normalize_config_notification n ≡ some n
unfolding normalize_config_notification
normalize_of_normal n h = ground arith

-- A normalised frame has at least four bytes, and normalising it again changes nothing.
pub normalize_idempotent :
    (frame n : Bytes)
    → normalize_config_notification frame ≡ some n
    → (4 ≤ length n) × (normalize_config_notification n ≡ some n)
normalize_idempotent frame n e =
    let h = normalize-IsNormal frame n e in (h.0, normalize_of_normal n h)

-- The length that a chunk's frame has at least.
abbrev pub min_length : ℕ → ℕ
min_length chunk = get_or irrigation_chunk_min_lengths chunk 0

pub logical_chunk_of_inversion :
    (n : Bytes) (first chunk : ℕ)
    → logical_chunk_of n first ≡ some chunk
    → (chunk < 7) × (first ≡ at n 2 + chunk) × (min_length chunk ≤ length n)
unfolding logical_chunk_of
logical_chunk_of_inversion n first chunk e = ground arith

pub parsed_chunk_of_normal :
    (n : Bytes) (first : ℕ)
    → IsNormal n
    → parsed_chunk n first ≡ (if is_program_frame n then logical_chunk_of n first else none)
unfolding parsed_chunk parse_irrigation_config_fragment
parsed_chunk_of_normal n first h = ground (arith, normalize_of_normal n h)
