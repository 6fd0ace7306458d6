-- ===== src/Snapshot/Restore/Blocks.antt =====
-- The blocks of a program snapshot by slot and chunk, and the dict that `validate_expected_write` of
-- src/solem_blip_ble/snapshot.py keeps of them.
use solem_blip_ble.Common.{
  ℕ, suc, ◌+◌, ◌*◌, ◌%◌, ◌≡◌, refl, sym, ap, ◌∙◌, inl, inr, true, Option, none, some, is_some, List,
  [], ◌∷◌, ◌++◌, arith, Bytes, at, ◌==◌, if◌then◌else◌, All, All-map, Option-cases,
}
use solem_blip_ble.Common.Dict.{Dict, lookup, insert, lookup-insert, group_of, sort_desc}
use solem_blip_ble.Protocol.Config.{fragment_key}
use solem_blip_ble.Snapshot.{ProgramSnapshot, slot_groups}
use package.solem_blip_ble.Snapshot.Restore.{by_key, key_block, key_slots}

-- The blocks of one group from the chunk on, each under its slot and chunk as one number.
unfoldable pub numbered : ℕ → List Bytes → List (ℕ × Bytes)
numbered chunk [] = []
numbered chunk (frame ∷ rest) = (at frame 3 % 16 + 16 * chunk, frame) ∷ numbered (suc chunk) rest

-- The blocks of the hidden slots, from the highest id down in each.
unfoldable pub numbered_slots : Dict (List Bytes) → List (ℕ × Bytes)
numbered_slots [] = []
numbered_slots ((index, group) ∷ rest) =
    numbered 0 (sort_desc fragment_key group) ++ numbered_slots rest

-- Every block of a snapshot: those of the programs A, B and C, and those of the hidden slots.
unfoldable pub blocks_of : ProgramSnapshot → List (ℕ × Bytes)
blocks_of s =
    numbered 0 (group_of 0 s.blocks)
    ++ (numbered 0 (group_of 1 s.blocks)
        ++ (numbered 0 (group_of 2 s.blocks) ++ numbered_slots (slot_groups s.extras [])))

-- The last block that stands under the number.
unfoldable pub stored_block : ℕ → List (ℕ × Bytes) → Option Bytes
stored_block k [] = none
stored_block k ((j, frame) ∷ rest) =
    let own = if j == k then some frame else none in
    elim (stored_block k rest) [ some later ↦ some later | none ↦ own ]

-- The bytes behind some steps, given those before.
abbrev pub later_or : Option Bytes → Option Bytes → Option Bytes
later_or (some later) before = some later
later_or none before = before

pub later_or-none : (o : Option Bytes) → later_or o none ≡ o
later_or-none none = refl
later_or-none (some later) = refl

later_or_assoc : (a b c : Option Bytes) → later_or a (later_or b c) ≡ later_or (later_or a b) c
later_or_assoc none b c = refl
later_or_assoc (some later) b c = refl

stored_block-append :
    (k : ℕ) (xs ys : List (ℕ × Bytes))
    → stored_block k (xs ++ ys) ≡ later_or (stored_block k ys) (stored_block k xs)
unfolding stored_block
stored_block-append k [] ys = sym (later_or-none (stored_block k ys))
stored_block-append k ((j, frame) ∷ rest) ys = elim (Option-cases (stored_block k ys)) [
  | inl nothing ↦ ground (arith, stored_block-append k rest ys)
  | inr (later, eq) ↦ ground (arith, stored_block-append k rest ys)
]

lookup-key_block :
    (k chunk : ℕ) (frames : List Bytes) (d : Dict Bytes)
    → lookup k (key_block chunk frames d)
      ≡ later_or (stored_block k (numbered chunk frames)) (lookup k d)
unfolding key_block stored_block numbered
lookup-key_block k chunk [] d = refl
lookup-key_block k chunk (frame ∷ rest) d =
    let key = at frame 3 % 16 + 16 * chunk in
    lookup-key_block k (suc chunk) rest (insert key frame d)
    ∙ ap (later_or (stored_block k (numbered (suc chunk) rest))) (lookup-insert key k frame d)
    ∙ elim (Option-cases (stored_block k (numbered (suc chunk) rest))) [
      | inl nothing ↦ ground arith
      | inr (later, eq) ↦ ground arith
    ]

-- The blocks of one more list behind those of a dict.
behind :
    (k : ℕ) (xs ys : List (ℕ × Bytes)) (before : Option Bytes)
    → later_or (stored_block k ys) (later_or (stored_block k xs) before)
      ≡ later_or (stored_block k (xs ++ ys)) before
behind k xs ys before =
    later_or_assoc (stored_block k ys) (stored_block k xs) before
    ∙ ap (λ o. later_or o before) (sym (stored_block-append k xs ys))

lookup-key_slots :
    (k : ℕ) (groups : Dict (List Bytes)) (d : Dict Bytes)
    → lookup k (key_slots groups d) ≡ later_or (stored_block k (numbered_slots groups)) (lookup k d)
unfolding key_slots numbered_slots stored_block
lookup-key_slots k [] d = refl
lookup-key_slots k ((index, group) ∷ rest) d =
    let sorted = sort_desc fragment_key group in
    lookup-key_slots k rest (key_block 0 sorted d)
    ∙ ap (later_or (stored_block k (numbered_slots rest))) (lookup-key_block k 0 sorted d)
    ∙ behind k (numbered 0 sorted) (numbered_slots rest) (lookup k d)

-- The dict has each block of the snapshot under its number.
pub lookup-by_key :
    (k : ℕ) (s : ProgramSnapshot) → lookup k (by_key s) ≡ stored_block k (blocks_of s)
unfolding by_key blocks_of lookup
lookup-by_key k s =
    let a = numbered 0 (group_of 0 s.blocks) in
    let b = numbered 0 (group_of 1 s.blocks) in
    let c = numbered 0 (group_of 2 s.blocks) in
    let slots = slot_groups s.extras [] in
    let of_a = key_block 0 (group_of 0 s.blocks) [] in
    let of_b = key_block 0 (group_of 1 s.blocks) of_a in
    let of_c = key_block 0 (group_of 2 s.blocks) of_b in
    lookup-key_slots k slots of_c
    ∙ ap (later_or (stored_block k (numbered_slots slots)))
        (lookup-key_block k 0 (group_of 2 s.blocks) of_b)
    ∙ behind k c (numbered_slots slots) (lookup k of_b)
    ∙ ap (later_or (stored_block k (c ++ numbered_slots slots)))
        (lookup-key_block k 0 (group_of 1 s.blocks) of_a)
    ∙ behind k b (c ++ numbered_slots slots) (lookup k of_a)
    ∙ ap (later_or (stored_block k (b ++ (c ++ numbered_slots slots))))
        (lookup-key_block k 0 (group_of 0 s.blocks) [])
    ∙ behind k a (b ++ (c ++ numbered_slots slots)) none
    ∙ later_or-none (stored_block k (blocks_of s))

-- Under the number of a block a block stands.
pub stored_block-is_some :
    (entries : List (ℕ × Bytes)) → All (λ e. is_some (stored_block e.0 entries) ≡ true) entries
unfolding stored_block
stored_block-is_some [] = tt
stored_block-is_some ((j, frame) ∷ rest) = (
  elim (Option-cases (stored_block j rest)) [
    | inl nothing ↦ ground arith
    | inr (later, eq) ↦ ground arith
  ],
  All-map (λ e. is_some (stored_block e.0 rest) ≡ true)
      (λ e. is_some (stored_block e.0 ((j, frame) ∷ rest)) ≡ true) rest
      (λ e h. elim (Option-cases (stored_block e.0 rest)) [
        | inl nothing ↦ absurd (ground arith)
        | inr (later, eq) ↦ ground arith
      ])
      (stored_block-is_some rest),
)
