-- ===== src/Ennx/Trials/Layout/Tiles.antt =====
-- The tiles of `make_tiles` and the leaves they cut.
use ennbo.Prelude.{ltb→lt, ℕ, zero, suc, ◌+◌, ◌-◌, ◌%◌, ◌^◌, ◌≤◌, ◌<◌, ◌≡◌, refl, arith, min, ok}
use ennbo.Prelude.{List, [], ◌∷◌, ◌++◌, length, ltb, Bool-cases, inl, inr}
use ennbo.Ennx.Trials.Leaf.{Leaf}
use ennbo.Ennx.Trials.Layout.{Tile, tile_elements, tile_leaf, tile_leaves, make_tiles, check_layout}
use ennbo.Ennx.Trials.Layout.Contiguous.{parameters, check_layout_iff-IsContiguous}

-- Tiles of the leaf `index` that follow one another from `start` to `total`, none of them empty or
-- longer than a tile may be.
abbrev pub IsPartition : ℕ → ℕ → List Tile → ℕ → Type 0
IsPartition index start [] total = start ≡ total
IsPartition index start (t ∷ ts) total =
    (t.leaf ≡ index)
    × (t.start ≡ start)
    × (1 ≤ t.length)
    × (t.length ≤ tile_elements)
    × IsPartition index (start + t.length) ts total

-- A partition for every leaf, in order.
abbrev pub AreTiled : ℕ → List Leaf → List Tile → Type 0
AreTiled index [] tiles = tiles ≡ []
AreTiled index (leaf ∷ leaves) tiles =
    (here : List Tile) × (rest : List Tile) × (tiles ≡ here ++ rest)
    × IsPartition index 0 here leaf.length
    × AreTiled (suc index) leaves rest

tile_leaf-IsPartition :
    (fuel index start total : ℕ)
    → start ≤ total
    → total - start ≤ fuel
    → index < 2 ^ 32
    → total < 2 ^ 32
    → IsPartition index start (tile_leaf fuel index start total) total
unfolding tile_leaf
tile_leaf-IsPartition zero index start total h k hi ht = omega arith
tile_leaf-IsPartition (suc fuel) index start total h k hi ht = elim (Bool-cases (ltb start total)) [
  | inl more ↦
      let lt = ltb→lt start total more in
      let size : ℕ = min (total - start) tile_elements in
      let word : size % 2 ^ 32 ≡ size = omega arith in
      rw more (
        omega arith,
        omega arith,
        omega arith,
        omega arith,
        rw word (
            tile_leaf-IsPartition fuel index (start + size) total (omega arith) (omega arith) hi
              ht),
      )
  | inr done ↦ rw done (ground arith)
]

tile_leaves-AreTiled :
    (leaves : List Leaf) (index : ℕ)
    → index + length leaves ≤ 2 ^ 32
    → parameters leaves < 2 ^ 32
    → AreTiled index leaves (tile_leaves index leaves)
unfolding tile_leaves
tile_leaves-AreTiled [] index h k = refl
tile_leaves-AreTiled (leaf ∷ leaves) index h k = (
  tile_leaf leaf.length index 0 leaf.length,
  tile_leaves (suc index) leaves,
  refl,
  tile_leaf-IsPartition leaf.length index 0 leaf.length (omega arith) (omega arith) (omega arith)
      (omega arith),
  tile_leaves-AreTiled leaves (suc index) (omega arith) (omega arith),
)

-- For leaves that `check_layout` accepts, at most 2^32 of them, `make_tiles` lists for every leaf in
-- order tiles that cut it from its first to its last parameter without a gap or an overlap, none of
-- them empty and none longer than 65536.
pub make_tiles-AreTiled :
    (leaves : List Leaf) (row_bytes : ℕ)
    → check_layout leaves ≡ ok row_bytes
    → length leaves ≤ 2 ^ 32
    → AreTiled 0 leaves (make_tiles leaves)
unfolding make_tiles
make_tiles-AreTiled leaves row_bytes e h =
    tile_leaves-AreTiled leaves 0 (omega arith)
      ((check_layout_iff-IsContiguous leaves row_bytes).0 e).2
