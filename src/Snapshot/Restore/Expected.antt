-- ===== src/Snapshot/Restore/Expected.antt =====
-- What a write of program blocks makes of a snapshot, for `validate_expected_write` of
-- src/solem_blip_ble/snapshot.py: the bytes that the last frame for a block writes.
use Prim.Native.Nat.{◌≤◌}
use solem_blip_ble.Common.{
  ℕ, ◌+◌, ◌*◌, ◌%◌, ◌≤◌, ◌≡◌, ◌⊎◌, Option, none, some, List, [], ◌∷◌, Bytes, at, length, drop, ◌==◌,
  if◌then◌else◌, All,
}
use solem_blip_ble.Snapshot.{ProgramSnapshot}
use package.solem_blip_ble.Snapshot.Restore.Blocks.{blocks_of, stored_block}

-- Where a write frame goes: its slot, and its chunk by the command, as one number.
abbrev pub target : Bytes → ℕ
target frame = at frame 3 % 16 + 16 * (if at frame 0 == 0x2F then at frame 2 else at frame 2 + 2)

-- The bytes that the last frame for the key writes, if there is one.
unfoldable pub last_payload : ℕ → List Bytes → Option Bytes
last_payload k [] = none
last_payload k (frame ∷ rest) =
    let own = if target frame == k then some (drop 4 frame) else none in
    elim (last_payload k rest) [ some payload ↦ some payload | none ↦ own ]

-- A write frame of a program block, for a block that the snapshot has.
unfoldable pub IsBlockWrite : ProgramSnapshot → Bytes → Type 0
IsBlockWrite s frame =
    (4 ≤ length frame)
    × ((at frame 0 ≡ 0x2F) ⊎ (at frame 0 ≡ 0x37))
    × (block : Bytes) × (stored_block (target frame) (blocks_of s) ≡ some block)

-- A block behind the write: its old bytes where no frame writes it, and the written ones otherwise.
abbrev pub Rewritten : Bytes → Bytes → Option Bytes → Type 0
Rewritten old new none = new ≡ old
Rewritten old new (some payload) = drop 4 new ≡ payload

-- What the write makes of the block under the number.
unfoldable pub IsRewritten : ProgramSnapshot → List Bytes → ProgramSnapshot → ℕ × Bytes → Type 0
IsRewritten s frames expected (k, block) =
    (old : Bytes) × (new : Bytes) × (stored_block k (blocks_of s) ≡ some old)
    × (stored_block k (blocks_of expected) ≡ some new)
    × Rewritten old new (last_payload k frames)

-- The snapshot has a block under the number.
unfoldable pub HasBlock : ProgramSnapshot → ℕ × Bytes → Type 0
HasBlock s (k, block) = (old : Bytes) × (stored_block k (blocks_of s) ≡ some old)

-- The frames lead from the blocks of the one snapshot exactly to those of the other: they write
-- blocks that are there, both have blocks under the same numbers, and each block is as it was or as
-- it was written.
unfoldable pub MakesExpected : ProgramSnapshot → List Bytes → ProgramSnapshot → Type 0
MakesExpected s frames expected =
    All (IsBlockWrite s) frames
    × All (HasBlock s) (blocks_of expected)
    × All (IsRewritten s frames expected) (blocks_of s)
