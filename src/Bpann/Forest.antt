-- ===== src/Bpann/Forest.antt =====
-- rust/crates/bpann/src/index/sync_forest.rs: fragments of many leaves under one root.
pub mod Tiles
pub mod Total
use ennbo.Prelude.{
  ℕ, zero, suc, ◌+◌, ◌-◌, ◌%◌, ◌^◌, max, min, ltb, ◌==◌, true, false, range, as_u32,
}
use ennbo.Prelude.{List, [], ◌∷◌, ◌++◌, map, replicate, none, some, Bool, if◌then◌else◌}
use ennbo.Prelude.{Result, ok, err, ◌>>=◌, get_elem?}
use ennbo.Bpann.Floats.{Floats, BpannError, panicked, add_row}
use ennbo.Bpann.Page.{Page, internal, leaf, empty_range_leaf}
use ennbo.Bpann.Index.{BpannIndex, mean_rows, from_pages_unpersisted, present}
use ennbo.Bpann.Rows.{MmapColumnStore, IndexBuildContext, mmap_row_slice, bpann_row_to_f32}

-- What the loop over the chunks has pushed.
pub record Leaves : Type 0 where
  pub pages : List Page
  pub child_page_ids : List ℕ
  pub child_centroids : List (List ℕ)

abbrev pub no_leaves : Leaves
no_leaves = record { pages = []; child_page_ids = []; child_centroids = [] }

abbrev pub push_leaf : ℕ → List ℕ → Page → Leaves → Leaves
push_leaf id centroid page rest = record {
  pages = page ∷ rest.pages;
  child_page_ids = id ∷ rest.child_page_ids;
  child_centroids = centroid ∷ rest.child_centroids;
}

-- `while cur < end`: a step moves `cur` by one at least, so that `end - cur` steps are enough. The
-- body gives the centroid and the page of a chunk.
unfoldable pub forest_leaves :
    (ℕ → ℕ → ℕ → Result BpannError (List ℕ × Page)) → ℕ → ℕ → ℕ → ℕ → ℕ → Result BpannError Leaves
forest_leaves body zero next_id cur end leaf_rows = ok no_leaves
forest_leaves body (suc fuel) next_id cur end leaf_rows = elim (ltb cur end) [
  | true ↦ do
    (centroid, page) ← body next_id cur (min (cur + leaf_rows) end)
    rest ←
        forest_leaves body fuel ((next_id + 1) % 2 ^ 32) (min (cur + leaf_rows) end) end leaf_rows
    ok (push_leaf next_id centroid page rest)
  | false ↦ ok no_leaves
]

-- The leaves under an internal root, as an index.
unfoldable pub build_forest :
    (ℕ → ℕ → ℕ → Result BpannError (List ℕ × Page)) → ℕ → ℕ → ℕ → ℕ → Result BpannError BpannIndex
unfolding forest_leaves
build_forest body dim start end leaf_rows = do
  leaves ← forest_leaves body (end - start) 1 start end (max leaf_rows 1)
  from_pages_unpersisted dim (end - start) (max leaf_rows 1)
      (leaves.pages ++ (internal 0 leaves.child_centroids leaves.child_page_ids ∷ []))

module _ (f : Floats) (ctx : IndexBuildContext) where
  unfoldable pub first_row_centroid : ℕ → Result BpannError (List ℕ)
  unfolding mmap_row_slice bpann_row_to_f32
  first_row_centroid row = do
    raw ← mmap_row_slice ctx.train_x row
    ok (bpann_row_to_f32 f raw ctx.scale_x ctx.x_scale)

  -- `for i in start..end`, for the `count` rows from `start` on.
  unfoldable pub load_vectors : ℕ → ℕ → Result BpannError (List (List ℕ))
  unfolding first_row_centroid
  load_vectors start zero = ok []
  load_vectors start (suc count) = do
    v ← first_row_centroid start
    rest ← load_vectors (start + 1) count
    ok (v ∷ rest)

  -- `acc[j] += if scale_x { v / x_scale[j] } else { v }`
  unfoldable pub add_observed : List ℕ → List ℕ → List ℕ → Result BpannError (List ℕ)
  add_observed acc scale [] = ok acc
  add_observed [] scale (v ∷ vs) = err panicked
  add_observed (a ∷ acc) [] (v ∷ vs) = elim ctx.scale_x [
    | true ↦ err panicked
    | false ↦ do rest ← add_observed acc [] vs; ok (f.add64 a v ∷ rest)
  ]
  add_observed (a ∷ acc) (s ∷ scale) (v ∷ vs) = do
    rest ← add_observed acc scale vs
    ok (f.add64 a (if ctx.scale_x then f.div64 v s else v) ∷ rest)

  unfoldable pub sum_observed : List ℕ → ℕ → ℕ → Result BpannError (List ℕ)
  unfolding add_observed mmap_row_slice
  sum_observed acc start zero = ok acc
  sum_observed acc start (suc count) = do
    row ← mmap_row_slice ctx.train_x start
    acc' ← add_observed acc ctx.x_scale row
    sum_observed acc' (start + 1) count

  abbrev pub mean_observed : ℕ → List ℕ → List ℕ
  mean_observed count acc = map (λ s. f.narrow (f.div64 s (f.of_usize64 count))) acc

  -- `centroid_from_mmap_rows`, of the `count` rows from `start` on.
  unfoldable pub centroid_from_rows : ℕ → ℕ → Result BpannError (List ℕ)
  unfolding sum_observed
  centroid_from_rows start zero = ok []
  centroid_from_rows start (suc count) = do
    acc ← sum_observed (replicate ctx.num_dim 0) start (suc count)
    ok (mean_observed (suc count) acc)

  -- The body of the loop of `build_empty_leaf_forest_index`.
  unfoldable pub empty_leaf : ℕ → ℕ → ℕ → Result BpannError (List ℕ × Page)
  unfolding first_row_centroid
  empty_leaf id cur chunk_end = do
    c ← first_row_centroid cur
    ok (c, empty_range_leaf id (as_u32 cur) (as_u32 chunk_end) c)

  -- The body of the loop of `build_vector_leaf_forest_index`.
  unfoldable pub vector_leaf : ℕ → ℕ → ℕ → Result BpannError (List ℕ × Page)
  unfolding load_vectors mean_rows
  vector_leaf id cur chunk_end = do
    vectors ← load_vectors cur (chunk_end - cur)
    c ← mean_rows f vectors
    ok (c, leaf id (map as_u32 (range cur (chunk_end - cur))) none vectors (some c))

  unfoldable pub build_empty_leaf_forest_index : ℕ → ℕ → ℕ → Result BpannError BpannIndex
  unfolding build_forest empty_leaf
  build_empty_leaf_forest_index start end leaf_rows =
      build_forest empty_leaf ctx.num_dim start end leaf_rows

  unfoldable pub build_vector_leaf_forest_index : ℕ → ℕ → ℕ → Result BpannError BpannIndex
  unfolding build_forest vector_leaf
  build_vector_leaf_forest_index start end leaf_rows =
      build_forest vector_leaf ctx.num_dim start end leaf_rows
