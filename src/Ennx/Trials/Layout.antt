-- ===== src/Ennx/Trials/Layout.antt =====
-- rust/crates/ennx/src/trials/layout.rs: the packed row layout and its tiles.
pub mod Contiguous
pub mod Tiles
use ennbo.Prelude.{
  ℕ, zero, suc, ◌+◌, ◌-◌, ◌*◌, ◌%◌, ◌^◌, ◌<◌, Bool, true, false, ◌||◌, not, none, some, min,
}
use ennbo.Prelude.{List, [], ◌∷◌, ◌++◌, ◌==◌, ltb, if◌then◌else◌, as_u32}
use ennbo.Prelude.{Result, ok, err, ◌>>=◌, ◌>>◌, fail_if}
use ennbo.Ennx.Trials.Leaf.{Leaf, bytes, TrialError, no_leaves, leaf_offset, parameter_overflow}
use ennbo.Ennx.Trials.Leaf.{row_overflow, layout_too_large, panicked}

abbrev pub tile_elements : ℕ
tile_elements = 65_536

abbrev pub checked_add : ℕ → ℕ → TrialError → Result TrialError ℕ
checked_add a b e = if ltb (a + b) (2 ^ 64) then ok (a + b) else err e

-- `leaf.bytes()`, whose unreachable arm panics.
abbrev pub bytes_or_panic : Leaf → Result TrialError ℕ
bytes_or_panic leaf = elim (bytes leaf) [ none ↦ err panicked | some n ↦ ok n ]

-- The loop of `check_layout`, from the current offset and row bytes.
unfoldable pub check_leaves : List Leaf → ℕ → ℕ → Result TrialError (ℕ × ℕ)
check_leaves [] offset row_bytes = ok (offset, row_bytes)
check_leaves (leaf ∷ leaves) offset row_bytes = do
  fail_if (not (leaf.offset == offset)) leaf_offset
  offset' ← checked_add offset leaf.length parameter_overflow
  n ← bytes_or_panic leaf
  row_bytes' ← checked_add row_bytes n row_overflow
  check_leaves leaves offset' row_bytes'

abbrev pub is_empty : List Leaf → Bool
is_empty [] = true
is_empty (_ ∷ _) = false

unfoldable pub check_layout : List Leaf → Result TrialError ℕ
check_layout leaves = do
  fail_if (is_empty leaves) no_leaves
  (offset, row_bytes) ← check_leaves leaves 0 0
  fail_if (ltb (2 ^ 32 - 1) offset || ltb (2 ^ 32 - 1) row_bytes) layout_too_large
  ok row_bytes

pub record Tile : Type 0 where
  pub leaf : ℕ
  pub start : ℕ
  pub length : ℕ
  pub pad : ℕ

-- `while start < leaf.length`; every round advances, so `leaf.length` rounds are enough.
unfoldable pub tile_leaf : ℕ → ℕ → ℕ → ℕ → List Tile
tile_leaf zero index start total = []
tile_leaf (suc fuel) index start total =
    let length = min (total - start) tile_elements in
    let rest = tile_leaf fuel index (start + length) total in
    if ltb start total
    then record { leaf = as_u32 index; start = as_u32 start; length = as_u32 length; pad = 0 }
      ∷ rest
    else []

-- `for (leaf_index, leaf) in leaves.iter().enumerate()`
unfoldable pub tile_leaves : ℕ → List Leaf → List Tile
tile_leaves index [] = []
tile_leaves index (leaf ∷ leaves) =
    tile_leaf leaf.length index 0 leaf.length ++ tile_leaves (suc index) leaves

unfoldable pub make_tiles : List Leaf → List Tile
make_tiles leaves = tile_leaves 0 leaves
