-- ===== src/Protocol/Write/Groups.antt =====
-- How assembly in src/solem_blip_ble/protocol.py groups the frames of one program, and takes one of
-- its chunks.
use Prim.Native.Nat.{◌≤◌}
use solem_blip_ble.Common.Lists.{append_assoc, append-nil}
use solem_blip_ble.Common.{
  ℕ, ◌+◌, ◌-◌, ◌%◌, ◌≤◌, ◌≡◌, refl, ◌∙◌, true, some, List, [], ◌∷◌, ◌++◌, arith, Bytes, at, length,
  All, ok, ==_refl,
}
use solem_blip_ble.Common.Dict.{push}
use solem_blip_ble.Protocol.Config.{
  is_program_frame, logical_chunk_of, Assembly, apply_irrigation_chunk, group_payloads,
  apply_fragments,
}
use solem_blip_ble.Protocol.Config.Layout.{
  IsNormal, min_length, parsed_chunk_of_normal, normalize_of_normal,
}

-- A normalised frame of the program with the index.
unfoldable pub IsFrameOf : ℕ → Bytes → Type 0
IsFrameOf index f = IsNormal f × (is_program_frame f ≡ true) × (at f 3 % 16 ≡ index)

pub frames_grouped :
    (index : ℕ) (fs gs : List Bytes)
    → All (IsFrameOf index) fs
    → group_payloads fs ((index, gs) ∷ []) ≡ (index, gs ++ fs) ∷ []
unfolding group_payloads IsFrameOf push
frames_grouped index [] gs h = rw (append-nil gs) refl
frames_grouped index (f ∷ fs) gs ((n, p, i), hs) =
    rw (normalize_of_normal f n, p, i, ==_refl index)
      (frames_grouped index fs (gs ++ (f ∷ [])) hs ∙ rw (append_assoc gs (f ∷ []) fs) refl)

pub next_chunk :
    (first m c : ℕ) (f : Bytes) (rest : List Bytes) (s s' : Assembly)
    → IsNormal f
    → is_program_frame f ≡ true
    → logical_chunk_of f first ≡ some c
    → apply_irrigation_chunk s f c m ≡ ok s'
    → apply_fragments first m (f ∷ rest) s ≡ apply_fragments first m rest s'
unfolding apply_fragments
next_chunk first m c f rest s s' n p l a = rw (parsed_chunk_of_normal f first n, p, l, a) refl

pub chunk_at :
    (h0 h1 n key c : ℕ) (payload : Bytes)
    → n + c ≡ 6
    → min_length c ≤ 4 + length payload
    → logical_chunk_of (h0 ∷ h1 ∷ n ∷ key ∷ payload) 6 ≡ some c
unfolding logical_chunk_of
chunk_at h0 h1 n key c payload e l = let same : 6 - n ≡ c = omega arith in rw same (ground arith)

pub group_of_frames :
    (index : ℕ) (f : Bytes) (fs : List Bytes)
    → All (IsFrameOf index) (f ∷ fs)
    → group_payloads (f ∷ fs) [] ≡ (index, f ∷ fs) ∷ []
unfolding group_payloads IsFrameOf push
group_of_frames index f fs ((n, p, i), hs) =
    rw (normalize_of_normal f n, p, i) (frames_grouped index fs (f ∷ []) hs)
