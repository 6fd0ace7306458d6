-- ===== src/Snapshot/Patch/Layout.antt =====
-- The lengths of the blocks under `patch` of src/solem_blip_ble/snapshot.py.
use Prim.Native.Nat.{◌≤◌}
use solem_blip_ble.Common.{
  between-InRange, InRange-pos_part, ℕ, zero, suc, ◌+◌, ◌-◌, ◌*◌, ◌≤◌, ◌<◌, ◌≡◌, refl, ap, ◌∙◌, inl,
  inr, not, ◌&&◌, none, some, List, [], ◌∷◌, ◌++◌, arith, Bytes, ltb, leb, ◌==◌, Bool-cases, length,
  get_or, set, take, drop, replicate, between, ok, ok-injective, guard-eq-ok, >>=-eq-ok, ==_iff,
}
use mathlib.Core.Path.{subst}
use solem_blip_ble.Common.Lists.{length-append, length-drop, length-take, length-replicate}
use solem_blip_ble.Common.Results.{integer_range, program_name_text, start_slots}
use solem_blip_ble.Common.Text.{Str, encode, ljust}
use solem_blip_ble.Protocol.Metadata.{has_nul}
use package.solem_blip_ble.Snapshot.{fragment_lengths}
use package.solem_blip_ble.Snapshot.Patch.{
  NumberArg, SlotArg, Change, name, inter_station_delay, water_budget, cycle, week_days,
  period_length, synchro_day, start_times, station_durations, unsupported, integer, splice,
  splice_block, two_bytes, three_bytes, slot_minutes, patch_starts, duration_place, patch_duration,
  patch_durations, patch_header_byte, patch_header_word, patch_name, apply_change, apply_changes,
}

unfoldable pub lengths : List Bytes → List ℕ
lengths [] = []
lengths (b ∷ bs) = length b ∷ lengths bs

length-get_or : (bs : List Bytes) (c : ℕ) → length (get_or bs c []) ≡ get_or (lengths bs) c 0
unfolding lengths
length-get_or [] zero = refl
length-get_or [] (suc c) = refl
length-get_or (b ∷ bs) zero = refl
length-get_or (b ∷ bs) (suc c) = length-get_or bs c

lengths-set :
    (bs : List Bytes) (c : ℕ) (v : Bytes)
    → length v ≡ length (get_or bs c [])
    → lengths (set bs c v) ≡ lengths bs
unfolding lengths
lengths-set [] c v e = refl
lengths-set (b ∷ bs) zero v e = ap (λ (n : ℕ). n ∷ lengths bs) e
lengths-set (b ∷ bs) (suc c) v e = ap (λ (t : List ℕ). length b ∷ t) (lengths-set bs c v e)

length-splice : (i : ℕ) (b f : Bytes) → i + length b ≤ length f → length (splice i b f) ≡ length f
unfolding splice
length-splice i b f h = omega (
  arith,
  length-append (take i f) (b ++ drop (i + length b) f),
  length-append b (drop (i + length b) f),
  length-take i f,
  length-drop (i + length b) f,
)

-- The blocks of a program in the layout that is known.
unfoldable pub IsLaidOut : List Bytes → Type 0
IsLaidOut blocks = lengths blocks ≡ fragment_lengths

splice_block-IsLaidOut :
    (c i : ℕ) (b : Bytes) (bs : List Bytes)
    → i + length b ≤ get_or fragment_lengths c 0
    → IsLaidOut bs
    → IsLaidOut (splice_block c i b bs)
unfolding IsLaidOut splice_block
splice_block-IsLaidOut c i b bs h e =
    let fits : i + length b ≤ length (get_or bs c []) = rw (length-get_or bs c, e) h in
    lengths-set bs c (splice i b (get_or bs c [])) (length-splice i b (get_or bs c []) fits) ∙ e

patch_starts-IsLaidOut :
    (slot : ℕ) (values : List SlotArg) (bs : List Bytes) {out : List Bytes}
    → slot + length values ≤ 8
    → patch_starts slot values bs ≡ ok out
    → IsLaidOut bs
    → IsLaidOut out
unfolding patch_starts
patch_starts-IsLaidOut slot [] bs n e h = subst IsLaidOut (ok-injective e) h
patch_starts-IsLaidOut slot (value ∷ rest) bs n e h =
    let (minutes, _, e1) = >>=-eq-ok (slot_minutes value) _ e in
    patch_starts-IsLaidOut (suc slot) rest (splice_block 3 (4 + slot * 2) (two_bytes minutes) bs)
      (omega arith) e1
      (splice_block-IsLaidOut 3 (4 + slot * 2) (two_bytes minutes) bs (omega arith) h)

integer-bound :
    (value : NumberArg) (maximum minimum : ℕ) {n : ℕ}
    → integer value maximum minimum ≡ ok n
    → n ≤ maximum
unfolding integer
integer-bound none maximum minimum e = cc
integer-bound (some value) maximum minimum e =
    let (b, e1) = guard-eq-ok (between minimum value maximum) integer_range _ e in
    let r = (InRange-pos_part minimum value maximum (between-InRange minimum value maximum b)).1 in
    let same = ok-injective e1 in omega arith

patch_duration-IsLaidOut :
    (station seconds : ℕ) (bs : List Bytes)
    → station < 12
    → IsLaidOut bs
    → IsLaidOut (patch_duration station seconds bs)
unfolding patch_duration duration_place
patch_duration-IsLaidOut station seconds bs l h = elim (Bool-cases (ltb station 5)) [
  | inl a ↦
      rw a (splice_block-IsLaidOut 4 (4 + station * 3) (three_bytes seconds) bs (ground arith) h)
  | inr a ↦ elim (Bool-cases (ltb station 10)) [
    | inl b ↦
        rw (a, b)
          (splice_block-IsLaidOut 5 (4 + (station - 5) * 3) (three_bytes seconds) bs (ground arith)
            h)
    | inr b ↦
        rw (a, b)
          (splice_block-IsLaidOut 6 (4 + (station - 10) * 3) (three_bytes seconds) bs (ground arith)
            h)
  ]
]

patch_durations-IsLaidOut :
    (physical : ℕ) (entries : List (NumberArg × NumberArg)) (bs : List Bytes) {out : List Bytes}
    → physical ≤ 12
    → patch_durations physical entries bs ≡ ok out
    → IsLaidOut bs
    → IsLaidOut out
unfolding patch_durations
patch_durations-IsLaidOut physical [] bs l e h = subst IsLaidOut (ok-injective e) h
patch_durations-IsLaidOut physical ((station, seconds) ∷ rest) bs l e h =
    let (place, p, e1) = >>=-eq-ok (integer station physical 1) _ e in
    let (value, _, e2) = >>=-eq-ok (integer seconds 0xFFFFFF 0) _ e1 in
    let bound = integer-bound station physical 1 p in
    patch_durations-IsLaidOut physical rest (patch_duration (place - 1) value bs) l e2
      (patch_duration-IsLaidOut (place - 1) value bs (omega arith) h)

patch_header_byte-IsLaidOut :
    (offset : ℕ) (value : NumberArg) (maximum minimum : ℕ) (bs : List Bytes) {out : List Bytes}
    → offset < 16
    → patch_header_byte offset value maximum minimum bs ≡ ok out
    → IsLaidOut bs
    → IsLaidOut out
unfolding patch_header_byte
patch_header_byte-IsLaidOut offset value maximum minimum bs l e h =
    let (n, _, e1) = >>=-eq-ok (integer value maximum minimum) _ e in
    subst IsLaidOut (ok-injective e1) (splice_block-IsLaidOut 2 offset (n ∷ []) bs (omega arith) h)

patch_header_word-IsLaidOut :
    (offset : ℕ) (value : NumberArg) (bs : List Bytes) {out : List Bytes}
    → offset < 15
    → patch_header_word offset value bs ≡ ok out
    → IsLaidOut bs
    → IsLaidOut out
unfolding patch_header_word
patch_header_word-IsLaidOut offset value bs l e h =
    let (n, _, e1) = >>=-eq-ok (integer value 65535 0) _ e in
    subst IsLaidOut (ok-injective e1)
      (splice_block-IsLaidOut 2 offset (two_bytes n) bs (omega arith) h)

patch_name-IsLaidOut :
    (text : Str) (bs : List Bytes) {out : List Bytes}
    → patch_name text bs ≡ ok out
    → IsLaidOut bs
    → IsLaidOut out
unfolding patch_name ljust
patch_name-IsLaidOut text bs e h =
    let (fits, e1) =
      guard-eq-ok (not (has_nul text) && leb (length (encode text)) 31) program_name_text _ e in
    let short : length (encode text) ≤ 31 = ground arith in
    let encoded : Bytes = ljust 31 (encode text) in
    let size : length encoded ≡ 31 = omega (
      arith,
      length-append (encode text) (replicate (31 - length (encode text)) 0),
      length-replicate {A = ℕ} (31 - length (encode text)) 0,
    ) in
    subst IsLaidOut (ok-injective e1) (
      splice_block-IsLaidOut 1 4 (drop 16 encoded) (splice_block 0 4 (take 16 encoded) bs)
        (omega (arith, size, length-drop 16 encoded))
        (splice_block-IsLaidOut 0 4 (take 16 encoded) bs
          (omega (arith, size, length-take 16 encoded)) h))

apply_change-IsLaidOut :
    (physical : ℕ) (change : Change) (bs : List Bytes) {out : List Bytes}
    → physical ≤ 12
    → apply_change physical change bs ≡ ok out
    → IsLaidOut bs
    → IsLaidOut out
unfolding apply_change
apply_change-IsLaidOut physical (name none) bs l e h = cc
apply_change-IsLaidOut physical (name (some text)) bs l e h = patch_name-IsLaidOut text bs e h
apply_change-IsLaidOut physical (inter_station_delay value) bs l e h =
    patch_header_word-IsLaidOut 4 value bs (omega arith) e h
apply_change-IsLaidOut physical (water_budget value) bs l e h =
    patch_header_word-IsLaidOut 6 value bs (omega arith) e h
apply_change-IsLaidOut physical (cycle value) bs l e h =
    patch_header_byte-IsLaidOut 8 value 4 0 bs (omega arith) e h
apply_change-IsLaidOut physical (week_days value) bs l e h =
    patch_header_byte-IsLaidOut 9 value 127 0 bs (omega arith) e h
apply_change-IsLaidOut physical (period_length value) bs l e h =
    patch_header_byte-IsLaidOut 10 value 255 1 bs (omega arith) e h
apply_change-IsLaidOut physical (synchro_day value) bs l e h =
    patch_header_byte-IsLaidOut 11 value 255 0 bs (omega arith) e h
apply_change-IsLaidOut physical (start_times none) bs l e h = cc
apply_change-IsLaidOut physical (start_times (some slots)) bs l e h =
    let (eight, e1) = guard-eq-ok (length slots == 8) start_slots _ e in
    let exactly = (==_iff (length slots) 8).0 eight in
    patch_starts-IsLaidOut 0 slots bs (omega arith) e1 h
apply_change-IsLaidOut physical (station_durations none) bs l e h = cc
apply_change-IsLaidOut physical (station_durations (some entries)) bs l e h =
    patch_durations-IsLaidOut physical entries bs l e h
apply_change-IsLaidOut physical (unsupported key) bs l e h = subst IsLaidOut (ok-injective e) h

-- Whatever changes are accepted on a controller of at most twelve stations, seven blocks of the known
-- lengths keep their number and their lengths.
pub apply_changes-IsLaidOut :
    (physical : ℕ) (changes : List Change) (blocks : List Bytes) {out : List Bytes}
    → physical ≤ 12
    → apply_changes physical changes blocks ≡ ok out
    → IsLaidOut blocks
    → IsLaidOut out
unfolding apply_changes
apply_changes-IsLaidOut physical [] blocks l e h = subst IsLaidOut (ok-injective e) h
apply_changes-IsLaidOut physical (change ∷ rest) blocks l e h =
    let (next, first, later) = >>=-eq-ok (apply_change physical change blocks) _ e in
    apply_changes-IsLaidOut physical rest next l later
      (apply_change-IsLaidOut physical change blocks l first h)
