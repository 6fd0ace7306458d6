-- ===== src/Snapshot/Restore/Agreement.antt =====
-- What `validate_expected_write` of src/solem_blip_ble/snapshot.py has compared when it raises nothing.
use Prim.Native.Nat.{◌≤◌}
use solem_blip_ble.Common.{
  ℕ, ◌≤◌, ◌≡◌, refl, sym, ap, ◌∙◌, ◌⊎◌, inl, inr, true, not, ◌&&◌, ◌||◌, Option, none, some,
  is_some, List, [], ◌∷◌, arith, Bytes, at, length, drop, ◌==◌, ltb, bytes_eq_sound, All, All-map,
  ok, ok-injective, guard-eq-ok, >>=-eq-ok, Option-cases, Bool-cases,
}
use solem_blip_ble.Common.Results.{preflight_layout, write_frame, write_layout}
use solem_blip_ble.Common.Dict.{Dict, lookup, insert, lookup-insert}
use solem_blip_ble.Snapshot.{ProgramSnapshot}
use mathlib.Core.Path.{subst}
use package.solem_blip_ble.Snapshot.Restore.Expected.{
  target, last_payload, IsBlockWrite, Rewritten, IsRewritten, HasBlock, MakesExpected,
}
use package.solem_blip_ble.Snapshot.Restore.Blocks.{
  blocks_of, stored_block, later_or, later_or-none, lookup-by_key, stored_block-is_some,
}
use package.solem_blip_ble.Snapshot.Restore.{
  by_key, keys_within, write_chunk, collect_written, agrees, check_keys, validate_expected_write,
}

-- The same of the dicts.
unfoldable WritesKey : Dict Bytes → Bytes → Type 0
WritesKey current frame =
    (4 ≤ length frame)
    × ((at frame 0 ≡ 0x2F) ⊎ (at frame 0 ≡ 0x37))
    × (block : Bytes) × (lookup (target frame) current ≡ some block)

unfoldable RewritesKey : List Bytes → Dict Bytes → ℕ → Bytes → Type 0
RewritesKey frames expected k old =
    (new : Bytes) × (lookup k expected ≡ some new) × Rewritten old new (last_payload k frames)

-- What holds of every entry holds of the one that is found.
entry_of :
    (P : ℕ → Bytes → Type 0) (d : Dict Bytes) (k : ℕ) (v : Bytes)
    → All (λ e. P e.0 e.1) d
    → lookup k d ≡ some v
    → P k v
unfolding lookup
entry_of P [] k v all h = absurd (ground arith)
entry_of P ((j, w) ∷ rest) k v (here, all) h = elim (Bool-cases (j == k)) [
  | inl same ↦
      let key : j ≡ k = ground arith in
      let value : w ≡ v = ground arith in
      subst (λ (n : ℕ). P n v) key (subst (λ (b : Bytes). P j b) value here)
  | inr other ↦ entry_of P rest k v all (ground arith)
]

some_of : {A : Type 0} (o : Option A) → is_some o ≡ true → (a : A) × (o ≡ some a)
some_of none h = absurd (ground arith)
some_of (some a) h = (a, refl)

keys_within-entries :
    (d other : Dict Bytes)
    → keys_within d other ≡ true
    → All (λ (e : ℕ × Bytes). (w : Bytes) × (lookup e.0 other ≡ some w)) d
unfolding keys_within
keys_within-entries [] other h = tt
keys_within-entries ((k, v) ∷ d) other h =
    (some_of (lookup k other) (ground arith), keys_within-entries d other (ground arith))

collect_step :
    (frame : Bytes) (rest : List Bytes) (current written found : Dict Bytes)
    → collect_written (frame ∷ rest) current written ≡ ok found
    → WritesKey current frame
      × (collect_written rest current (insert (target frame) (drop 4 frame) written) ≡ ok found)
unfolding collect_written WritesKey
collect_step frame rest current written found h =
    let (shape, h1) =
      guard-eq-ok (not (ltb (length frame) 4) && (at frame 0 == 0x2F || at frame 0 == 0x37))
        write_frame _ h in
    let (place, h2) =
      guard-eq-ok (is_some (lookup (target frame) current) && ltb (write_chunk frame) 7)
        write_layout _ h1 in
    let block = some_of (lookup (target frame) current) (ground arith) in
    (
      (
        ground arith,
        elim (Bool-cases (at frame 0 == 0x2F)) [
          | inl first ↦ inl (ground arith)
          | inr other ↦ inr (ground arith)
        ],
        block.0,
        block.1,
      ),
      h2,
    )

collected :
    (k : ℕ) (frames : List Bytes) (current written found : Dict Bytes)
    → collect_written frames current written ≡ ok found
    → lookup k found ≡ later_or (last_payload k frames) (lookup k written)
unfolding last_payload collect_written
collected k [] current written found h = ap (lookup k) (sym (ok-injective h))
collected k (frame ∷ rest) current written found h =
    let (write, later) = collect_step frame rest current written found h in
    collected k rest current (insert (target frame) (drop 4 frame) written) found later
    ∙ ap (later_or (last_payload k rest)) (lookup-insert (target frame) k (drop 4 frame) written)
    ∙ elim (Option-cases (last_payload k rest)) [
      | inl nothing ↦ ground arith
      | inr (payload, eq) ↦ ground arith
    ]

collected-WritesKey :
    (frames : List Bytes) (current written found : Dict Bytes)
    → collect_written frames current written ≡ ok found
    → All (WritesKey current) frames
collected-WritesKey [] current written found h = tt
collected-WritesKey (frame ∷ rest) current written found h =
    let (write, later) = collect_step frame rest current written found h in
    (
      write,
      collected-WritesKey rest current (insert (target frame) (drop 4 frame) written) found later,
    )

agrees-Rewritten :
    (old : Bytes) (new payload : Option Bytes)
    → agrees old new payload ≡ ok tt
    → (b : Bytes) × (new ≡ some b) × Rewritten old b payload
unfolding agrees
agrees-Rewritten old none payload h = absurd (ground arith)
agrees-Rewritten old (some b) none h = (b, refl, bytes_eq_sound b old (ground arith))
agrees-Rewritten old (some b) (some payload) h =
    (b, refl, bytes_eq_sound (drop 4 b) payload (ground arith))

check_keys-RewritesKey :
    (frames : List Bytes) (current expected written : Dict Bytes)
    → ((k : ℕ) → lookup k written ≡ last_payload k frames)
    → check_keys current expected written ≡ ok tt
    → All (λ e. RewritesKey frames expected e.0 e.1) current
unfolding check_keys RewritesKey
check_keys-RewritesKey frames [] expected written same h = tt
check_keys-RewritesKey frames ((k, old) ∷ rest) expected written same h =
    let (done, agreed, later) = >>=-eq-ok (agrees old (lookup k expected) (lookup k written)) _ h in
    (
      agrees-Rewritten old (lookup k expected) (last_payload k frames)
          (ap (agrees old (lookup k expected)) (sym (same k)) ∙ agreed),
      check_keys-RewritesKey frames rest expected written same later,
    )

-- The number of a block is a key of the dict.
stored-key :
    (s : ProgramSnapshot) (k : ℕ)
    → is_some (stored_block k (blocks_of s)) ≡ true
    → (old : Bytes) × (stored_block k (blocks_of s) ≡ some old) × (lookup k (by_key s) ≡ some old)
stored-key s k h =
    let (old, stored) = some_of (stored_block k (blocks_of s)) h in
    (old, stored, lookup-by_key k s ∙ stored)

written-IsBlockWrite :
    (s : ProgramSnapshot) (frame : Bytes) → WritesKey (by_key s) frame → IsBlockWrite s frame
unfolding WritesKey IsBlockWrite
written-IsBlockWrite s frame (long, command, block, found) =
    (long, command, block, sym (lookup-by_key (target frame) s) ∙ found)

keys-HasBlock :
    (s expected : ProgramSnapshot)
    → keys_within (by_key expected) (by_key s) ≡ true
    → (e : ℕ × Bytes) → is_some (stored_block e.0 (blocks_of expected)) ≡ true
    → HasBlock s e
unfolding HasBlock
keys-HasBlock s expected within (k, block) h =
    let (new, stored, found) = stored-key expected k h in
    let (old, has) =
      entry_of (λ n b. (w : Bytes) × (lookup n (by_key s) ≡ some w)) (by_key expected) k new
        (keys_within-entries (by_key expected) (by_key s) within) found in
    (old, sym (lookup-by_key k s) ∙ has)

checked-IsRewritten :
    (s : ProgramSnapshot) (frames : List Bytes) (expected : ProgramSnapshot)
    → All (λ e. RewritesKey frames (by_key expected) e.0 e.1) (by_key s)
    → (e : ℕ × Bytes) → is_some (stored_block e.0 (blocks_of s)) ≡ true
    → IsRewritten s frames expected e
unfolding IsRewritten RewritesKey
checked-IsRewritten s frames expected all (k, block) h =
    let (old, stored, found) = stored-key s k h in
    let (new, has, rewritten) =
      entry_of (RewritesKey frames (by_key expected)) (by_key s) k old all found in
    (old, new, stored, sym (lookup-by_key k expected) ∙ has, rewritten)

-- A write that is not refused leads exactly from the one snapshot to the other.
pub validate_expected_write-MakesExpected :
    (s : ProgramSnapshot) (frames : List Bytes) (expected : ProgramSnapshot)
    → validate_expected_write s frames expected ≡ ok tt
    → MakesExpected s frames expected
unfolding validate_expected_write MakesExpected lookup last_payload
validate_expected_write-MakesExpected s frames expected h =
    let (keys, h1) =
      guard-eq-ok
        (keys_within (by_key s) (by_key expected) && keys_within (by_key expected) (by_key s))
        preflight_layout _ h in
    let (written, collects, checked) = >>=-eq-ok (collect_written frames (by_key s) []) _ h1 in
    (
      All-map (WritesKey (by_key s)) (IsBlockWrite s) frames (written-IsBlockWrite s)
          (collected-WritesKey frames (by_key s) [] written collects),
      All-map (λ e. is_some (stored_block e.0 (blocks_of expected)) ≡ true) (HasBlock s)
          (blocks_of expected) (keys-HasBlock s expected (ground arith))
          (stored_block-is_some (blocks_of expected)),
      All-map (λ e. is_some (stored_block e.0 (blocks_of s)) ≡ true) (IsRewritten s frames expected)
          (blocks_of s)
          (checked-IsRewritten s frames expected (
            check_keys-RewritesKey frames (by_key s) (by_key expected) written
              (λ k.
                collected k frames (by_key s) [] written collects
                ∙ later_or-none (last_payload k frames))
              checked))
          (stored_block-is_some (blocks_of s)),
    )
