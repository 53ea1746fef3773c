-- ===== src/Bpann/Forest/Total.antt =====
-- Over a store that has the rows, every builder of sync_forest.rs returns.
use ennbo.Prelude.{ℕ, zero, suc, ◌+◌, ◌-◌, ◌<◌, ◌≤◌, ◌≡◌, refl, sym, ap, ◌∙◌, arith, All, as_u32}
use ennbo.Prelude.{List, [], ◌∷◌, map, length, length-map, range, none, some, get_elem?}
use ennbo.Prelude.{Bool, true, false, leb, ok, IsU32, append-nil, if◌then◌else◌}
use ennbo.Prelude.{replicate, length-replicate}
use ennbo.Bpann.Floats.{Floats}
use ennbo.Bpann.Page.{leaf, empty_range_leaf, page_id}
use ennbo.Bpann.Index.{BpannIndex, rows_of}
use ennbo.Bpann.Index.Closed.{IsIndex}
use ennbo.Bpann.Index.Centers.{mean_rows_total}
use ennbo.Bpann.Rows.{IndexBuildContext, mmap_row_slice, bpann_row_to_f32, scaled_row}
use ennbo.Bpann.Forest.{
  first_row_centroid, load_vectors, add_observed, sum_observed, centroid_from_rows, mean_observed,
  empty_leaf, vector_leaf, build_empty_leaf_forest_index, build_vector_leaf_forest_index,
}
use ennbo.Bpann.Forest.Tiles.{IsBody, build_forest_total}

-- The store has its rows, and they and the scales have the dimension.
pub record IsContext (ctx : IndexBuildContext) : Type 0 where
  pub stored : ctx.train_x.nrows ≤ length ctx.train_x.mmap
  pub wide : All (λ row. length row ≡ ctx.num_dim) ctx.train_x.mmap
  pub scaled : length ctx.x_scale ≡ ctx.num_dim

get_elem?_total {ℓ κ} :
    {A : Type ℓ} (P : A → Type κ) (xs : List A) (i : ℕ)
    → All P xs
    → i < length xs
    → (a : A) × (get_elem? xs i ≡ some a) × P a
get_elem?_total P [] i all h = ground arith
get_elem?_total P (x ∷ xs) zero (here, there) h = (x, refl, here)
get_elem?_total P (x ∷ xs) (suc i) (here, there) h = get_elem?_total P xs i there (omega arith)

module _ (f : Floats) (ctx : IndexBuildContext) (w : IsContext ctx) where
  mmap_row_slice_total :
      (i : ℕ)
      → i < ctx.train_x.nrows
      → (row : List ℕ) × (mmap_row_slice ctx.train_x i ≡ ok row) × (length row ≡ ctx.num_dim)
  unfolding mmap_row_slice
  mmap_row_slice_total i h =
      let inside : leb ctx.train_x.nrows i ≡ false = ground arith in
      let stored = w.stored in
      let wide = λ (row : List ℕ). length row ≡ ctx.num_dim in
      let (row, e, long) = get_elem?_total wide ctx.train_x.mmap i w.wide (omega arith) in
      (row, rw (inside, e) refl, long)

  length-scaled_row :
      (row scale : List ℕ)
      → length row ≡ length scale
      → length (scaled_row f row scale) ≡ length row
  length-scaled_row [] scale h = refl
  length-scaled_row (v ∷ vs) [] h = ground arith
  length-scaled_row (v ∷ vs) (s ∷ scale) h = ap suc (length-scaled_row vs scale (omega arith))

  length-bpann_row_to_f32 :
      (row scale : List ℕ) (scale_x : Bool)
      → length row ≡ length scale
      → length (bpann_row_to_f32 f row scale_x scale) ≡ length row
  unfolding bpann_row_to_f32
  length-bpann_row_to_f32 row scale true h = length-scaled_row row scale h
  length-bpann_row_to_f32 row scale false h = length-map row f.narrow

  first_row_centroid_total :
      (i : ℕ)
      → i < ctx.train_x.nrows
      → (c : List ℕ) × (first_row_centroid f ctx i ≡ ok c) × (length c ≡ ctx.num_dim)
  unfolding first_row_centroid
  first_row_centroid_total i h =
      let (row, e, long) = mmap_row_slice_total i h in
      (
        bpann_row_to_f32 f row ctx.scale_x ctx.x_scale,
        rw e refl,
        length-bpann_row_to_f32 row ctx.x_scale ctx.scale_x (long ∙ sym w.scaled) ∙ long,
      )

  load_vectors_total :
      (start count : ℕ)
      → start + count ≤ ctx.train_x.nrows
      → (vs : List (List ℕ)) × (load_vectors f ctx start count ≡ ok vs)
        × (length vs ≡ count)
        × All (λ v. length v ≡ ctx.num_dim) vs
  unfolding load_vectors
  load_vectors_total start zero h = ([], refl, refl, tt)
  load_vectors_total start (suc count) h =
      let (v, e, long) = first_row_centroid_total start (omega arith) in
      let (vs, e', n, all) = load_vectors_total (start + 1) count (omega arith) in
      (v ∷ vs, rw (e, e') refl, ap suc n, (long, all))

  add_observed_total :
      (acc scale row : List ℕ)
      → length row ≡ length acc
      → length scale ≡ length acc
      → (sum : List ℕ) × (add_observed f ctx acc scale row ≡ ok sum) × (length sum ≡ length acc)
  unfolding add_observed
  add_observed_total acc scale [] same_row same_scale = (acc, refl, refl)
  add_observed_total [] scale (v ∷ vs) same_row same_scale = ground arith
  add_observed_total (a ∷ acc) [] (v ∷ vs) same_row same_scale = ground arith
  add_observed_total (a ∷ acc) (s ∷ scale) (v ∷ vs) same_row same_scale =
      let (sum, e, long) = add_observed_total acc scale vs (omega arith) (omega arith) in
      (f.add64 a (if ctx.scale_x then f.div64 v s else v) ∷ sum, rw e refl, ap suc long)

  sum_observed_total :
      (acc : List ℕ) (start count : ℕ)
      → length acc ≡ ctx.num_dim
      → start + count ≤ ctx.train_x.nrows
      → (sum : List ℕ) × (sum_observed f ctx acc start count ≡ ok sum) × (length sum ≡ ctx.num_dim)
  unfolding sum_observed
  sum_observed_total acc start zero same h = (acc, refl, same)
  sum_observed_total acc start (suc count) same h =
      let (row, e, long) = mmap_row_slice_total start (omega arith) in
      let (acc', e', same') =
        add_observed_total acc ctx.x_scale row (long ∙ sym same) (w.scaled ∙ sym same) in
      let (sum, e'', long') =
        sum_observed_total acc' (start + 1) count (same' ∙ same) (omega arith) in
      (sum, rw (e, e') e'', long')

  pub centroid_from_rows_total :
      (start count : ℕ)
      → 1 ≤ count
      → start + count ≤ ctx.train_x.nrows
      → (c : List ℕ) × (centroid_from_rows f ctx start count ≡ ok c) × (length c ≡ ctx.num_dim)
  unfolding centroid_from_rows
  centroid_from_rows_total start zero some_row h = ground arith
  centroid_from_rows_total start (suc count) some_row h =
      let (sum, e, long) =
        sum_observed_total (replicate ctx.num_dim 0) start (suc count)
          (length-replicate ctx.num_dim 0) h in
      (mean_observed f ctx (suc count) sum, rw e refl, length-map sum _ ∙ long)

  pub rows_as_u32 : (start n : ℕ) → IsU32 (start + n) → map as_u32 (range start n) ≡ range start n
  rows_as_u32 start zero h = refl
  rows_as_u32 start (suc n) h =
      let small : as_u32 start ≡ start = omega arith in
      rw small (ap (λ t. start ∷ t) (rows_as_u32 (start + 1) n (omega arith)))

  empty_leaf-IsBody :
      (end : ℕ) → end ≤ ctx.train_x.nrows → IsU32 end → IsBody ctx.num_dim end (empty_leaf f ctx)
  unfolding empty_leaf rows_of page_id
  empty_leaf-IsBody end there fits id cur chunk_end forth inside =
      let (c, e, long) = first_row_centroid_total cur (omega arith) in
      let small : as_u32 cur ≡ cur = omega arith in
      let small_end : as_u32 chunk_end ≡ chunk_end = omega arith in
      (
        c,
        empty_range_leaf id (as_u32 cur) (as_u32 chunk_end) c,
        rw e refl,
        long,
        refl,
        long,
        tt,
        append-nil (range (as_u32 cur) (as_u32 chunk_end - as_u32 cur))
            ∙ rw (small, small_end) refl,
      )

  vector_leaf-IsBody :
      (end : ℕ) → end ≤ ctx.train_x.nrows → IsU32 end → IsBody ctx.num_dim end (vector_leaf f ctx)
  unfolding vector_leaf rows_of page_id
  vector_leaf-IsBody end there fits id cur chunk_end forth inside =
      let (vs, e, n, all) = load_vectors_total cur (chunk_end - cur) (omega arith) in
      let (c, e', long) = mean_rows_total f ctx.num_dim vs (omega arith, all) in
      (
        c,
        leaf id (map as_u32 (range cur (chunk_end - cur))) none vs (some c),
        rw (e, e') refl,
        long,
        refl,
        long,
        tt,
        append-nil (map as_u32 (range cur (chunk_end - cur)))
            ∙ rows_as_u32 cur (chunk_end - cur) (omega arith),
      )

  -- Both forests of a span that the store has return an index whose leaves hold the rows of the
  -- span, each once and in order.
  pub forests_total :
      (start end leaf_rows : ℕ)
      → start < end
      → end ≤ ctx.train_x.nrows
      → IsU32 end
      → 1 ≤ leaf_rows
      → ((index : BpannIndex) × (build_empty_leaf_forest_index f ctx start end leaf_rows ≡ ok index)
          × IsIndex ctx.num_dim index
          × (rows_of index.pages ≡ range start (end - start))
          × (index.header.indexed_rows ≡ end - start))
        × ((index : BpannIndex) × (build_vector_leaf_forest_index f ctx start end leaf_rows
              ≡ ok index)
            × IsIndex ctx.num_dim index
            × (rows_of index.pages ≡ range start (end - start))
            × (index.header.indexed_rows ≡ end - start))
  unfolding build_empty_leaf_forest_index build_vector_leaf_forest_index
  forests_total start end leaf_rows some_row there fits wide = (
    build_forest_total ctx.num_dim (empty_leaf f ctx) end leaf_rows start
        (empty_leaf-IsBody end there fits) some_row wide,
    build_forest_total ctx.num_dim (vector_leaf f ctx) end leaf_rows start
        (vector_leaf-IsBody end there fits) some_row wide,
  )
