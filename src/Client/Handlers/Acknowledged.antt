-- ===== src/Client/Handlers/Acknowledged.antt =====
-- What the handlers of src/solem_blip_ble/client_v2.py make of the frames of one wait.
use solem_blip_ble.Client.Handlers.{ℕ}
use solem_blip_ble.Client.Polling.{handle_all}
use solem_blip_ble.Common.Lists.{append-nil, append_if}
use solem_blip_ble.Common.{
  ◌≡◌, refl, sym, ap, ◌∙◌, Bool, true, false, ◌&&◌, ◌||◌, Option, List, [], ◌∷◌, ◌++◌, arith, Bytes,
  at, leb, ◌==◌, if◌then◌else◌, length, take, bytes_eq, bytes_eq_sound,
}
use solem_blip_ble.Client.Handlers.{
  NameWrite, is_name_frame, name_frames, is_expected, handle_name_reply, handle_name_notification,
}

-- A frame 34 that has F0 third or fourth.
unfoldable pub is_name_rejection : Bytes → Bool
is_name_rejection frame =
    leb 3 (length frame)
    && (at frame 0 == 0x34 && (at frame 2 == 0xF0 || (leb 4 (length frame) && at frame 3 == 0xF0)))

-- The frames in the order of their arrival.
abbrev pub handle_names : NameWrite → List Bytes → NameWrite
handle_names = handle_all handle_name_notification

-- 34 00 alone, a frame 34 that has F0 third or fourth, or a frame with the expected header.
unfoldable pub is_acknowledgement : Option Bytes → Bytes → Bool
is_acknowledgement expected frame =
    bytes_eq frame (0x34 ∷ 0x00 ∷ [])
    || (leb 3 (length frame)
        && (at frame 0 == 0x34
            && (at frame 2 == 0xF0
                || (leb 4 (length frame) && at frame 3 == 0xF0)
                || is_expected (take 4 frame) expected)))

unfoldable pub any_frame : (Bytes → Bool) → List Bytes → Bool
any_frame p [] = false
any_frame p (frame ∷ rest) = p frame || any_frame p rest

pub or_assoc : (a b c : Bool) → (a || b) || c ≡ a || (b || c)
or_assoc true b c = refl
or_assoc false b c = refl

handle_acknowledges :
    (s : NameWrite) (frame : Bytes)
    → s.reading ≡ false
    → (handle_name_notification s frame).acknowledged
      ≡ s.acknowledged || is_acknowledgement s.expected_header frame
unfolding handle_name_notification handle_name_reply is_acknowledgement
handle_acknowledges s frame h = ground arith

handle_keeps :
    (s : NameWrite) (frame : Bytes)
    → ((handle_name_notification s frame).reading ≡ s.reading)
      × ((handle_name_notification s frame).expected_header ≡ s.expected_header)
unfolding handle_name_notification handle_name_reply
handle_keeps s frame = ground arith

pub short_acknowledgement :
    (a b : ℕ) (frame : Bytes) → bytes_eq frame (a ∷ b ∷ []) ≡ true → length frame ≡ 2
short_acknowledgement a b frame h = ap length (bytes_eq_sound frame (a ∷ b ∷ []) h)

handle_rejects :
    (s : NameWrite) (frame : Bytes)
    → s.reading ≡ false
    → (handle_name_notification s frame).rejected ≡ s.rejected || is_name_rejection frame
unfolding handle_name_notification handle_name_reply is_name_rejection
handle_rejects s frame h = ground (arith, short_acknowledgement 0x34 0x00 frame)

-- In the phase of the write, the session is marked rejected exactly if one of the frames is a
-- rejection, or it was so before.
pub handle_names_rejects :
    (s : NameWrite) (frames : List Bytes)
    → s.reading ≡ false
    → (handle_names s frames).rejected ≡ s.rejected || any_frame is_name_rejection frames
unfolding handle_all any_frame
handle_names_rejects s [] h = ground arith
handle_names_rejects s (frame ∷ rest) h =
    let (reading, expected) = handle_keeps s frame in
    let a = handle_rejects s frame h in
    let later = handle_names_rejects (handle_name_notification s frame) rest (reading ∙ h) in
    later ∙ rw a (or_assoc s.rejected (is_name_rejection frame) (any_frame is_name_rejection rest))

-- In the phase of the write, a wait has ended with the acknowledgement exactly if it was set before or
-- one of the frames is `34 00`, a rejection or a frame with the expected header.
pub handle_names_acknowledges :
    (s : NameWrite) (frames : List Bytes)
    → s.reading ≡ false
    → (handle_names s frames).acknowledged
      ≡ s.acknowledged || any_frame (is_acknowledgement s.expected_header) frames
unfolding handle_all any_frame
handle_names_acknowledges s [] h = ground arith
handle_names_acknowledges s (frame ∷ rest) h =
    let (reading, expected) = handle_keeps s frame in
    let a = handle_acknowledges s frame h in
    let later = handle_names_acknowledges (handle_name_notification s frame) rest (reading ∙ h) in
    later
    ∙ rw (a, expected)
        (or_assoc s.acknowledged (is_acknowledgement s.expected_header frame)
          (any_frame (is_acknowledgement s.expected_header) rest))

handle_collects :
    (s : NameWrite) (frame : Bytes)
    → s.reading ≡ true
    → ((handle_name_notification s frame).reading ≡ true)
      × ((handle_name_notification s frame).read_frames
          ≡ (if is_name_frame frame then s.read_frames ++ (frame ∷ []) else s.read_frames))
      × ((handle_name_notification s frame).acknowledged ≡ s.acknowledged)
unfolding handle_name_notification
handle_collects s frame h = ground arith

-- In a reading phase the frames that begin with 36 12 or 35 12 are kept in the order of their arrival,
-- and the acknowledgement does not change.
pub handle_names_collects :
    (s : NameWrite) (frames : List Bytes)
    → s.reading ≡ true
    → ((handle_names s frames).read_frames ≡ s.read_frames ++ name_frames frames)
      × ((handle_names s frames).acknowledged ≡ s.acknowledged)
unfolding handle_all name_frames
handle_names_collects s [] h = (sym (append-nil s.read_frames), refl)
handle_names_collects s (frame ∷ rest) h =
    let (reading, frames, same) = handle_collects s frame h in
    let (r, a) = handle_names_collects (handle_name_notification s frame) rest reading in
    (
      r
          ∙ ap (λ t. t ++ name_frames rest) frames
          ∙ append_if (is_name_frame frame) frame s.read_frames (name_frames rest),
      a ∙ same,
    )
