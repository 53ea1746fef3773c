-- ===== src/Bpann/Sync.antt =====
-- rust/crates/bpann/src/index/sync.rs: the index as a list of fragments. An operation gives its
-- result and the state that it leaves, a failure included. The file system takes a write of the
-- indexed rows or refuses it: `write` is its answer.
pub mod Compacted
pub mod Built
pub mod Total
mod Examples
use ennbo.Prelude.{
  ℕ, zero, suc, ◌+◌, ◌-◌, ◌*◌, ◌/◌, ◌%◌, ◌^◌, min, max, ltb, leb, ◌==◌, ◌&&◌, ◌||◌, not,
}
use ennbo.Prelude.{Bool, true, false, if◌then◌else◌, range, as_u32, Option, none, some}
use ennbo.Prelude.{List, [], ◌∷◌, ◌++◌, map, length, take, drop, replicate}
use ennbo.Prelude.{Result, err, ok, ◌>>=◌}
use ennbo.Bpann.Floats.{Floats, BpannError, panicked}
use ennbo.Bpann.Tuning.{BpannTuning}
use ennbo.Bpann.Index.{BpannIndex, concat_merge, build_row_ids_leaf}
use ennbo.Bpann.Kmeans.{Random}
use ennbo.Bpann.Partition.{build_from_rows}
use ennbo.Bpann.Rows.{IndexBuildContext}
use ennbo.Bpann.Forest.{
  centroid_from_rows, load_vectors, build_empty_leaf_forest_index, build_vector_leaf_forest_index,
}

abbrev pub index_compact_threshold_min : ℕ
index_compact_threshold_min = 3

abbrev pub mid_band_shallow_max : ℕ
mid_band_shallow_max = 10_000

abbrev pub mid_band_leaf_capacity : ℕ
mid_band_leaf_capacity = 256

abbrev pub default_leaf_capacity : ℕ
default_leaf_capacity = 32

-- `usize::MAX`, and `saturating_mul`.
abbrev pub usize_max : ℕ
usize_max = 2 ^ 64 - 1

abbrev pub saturating_mul : ℕ → ℕ → ℕ
saturating_mul a b = min (a * b) usize_max

-- The clamp has `min <= max` in a valid tuning.
unfoldable pub index_compact_threshold : BpannTuning → ℕ → ℕ
index_compact_threshold t indexed =
    if leb indexed 1000
    then 1
    else min (max (indexed / t.index_compact_rows_per_fragment) index_compact_threshold_min)
        t.index_compact_fragment_max

-- `compact_limit` in `maybe_compact`, of so many rows.
unfoldable pub compact_limit : BpannTuning → ℕ → ℕ
unfolding index_compact_threshold
compact_limit t indexed =
    let max_fragments = index_compact_threshold t indexed in
    max (saturating_mul max_fragments 2) (max_fragments + 1)

unfoldable pub search_fragment_budget : BpannTuning → ℕ → ℕ → ℕ
search_fragment_budget t fragment_count indexed =
    if leb fragment_count 2
    then fragment_count
    else min (min (max (indexed / t.search_rows_per_fragment) 2) fragment_count)
        t.search_fragment_budget_max

pub record IncrementalIndex : Type 0 where
  pub indices : List BpannIndex
  pub synced_rows : ℕ  -- the field `indexed_rows`
  pub pending_centroid_sum : List ℕ
  pub pending_row_count : ℕ

abbrev pub new_incremental : IncrementalIndex
new_incremental = record {
  indices = [];
  synced_rows = 0;
  pending_centroid_sum = [];
  pending_row_count = 0;
}

abbrev pub reset_incremental : IncrementalIndex → IncrementalIndex
reset_incremental s = new_incremental

-- What an operation returns, with the state that it leaves.
abbrev pub Run : Type 0
Run = Result BpannError (Unit {0}) × IncrementalIndex

-- The next operation runs when the one before it has succeeded.
abbrev pub and_then : Run → (IncrementalIndex → Run) → Run
and_then (ok done, s) next = next s
and_then (err e, s) next = (err e, s)

-- A fragment for the rows up to `end`, when its builder returns one.
abbrev pub push_index : IncrementalIndex → ℕ → Result BpannError BpannIndex → Run
push_index s end (err e) = (err e, s)
push_index s end (ok index) =
    (ok tt, record s { indices = s.indices ++ (index ∷ []); synced_rows = end })

abbrev pub header_rows : BpannIndex → ℕ
header_rows index = index.header.indexed_rows

-- `slice.iter().map(|index| index.header.indexed_rows).sum()`
abbrev pub sum_rows : List BpannIndex → ℕ
sum_rows [] = 0
sum_rows (index ∷ indices) = header_rows index + sum_rows indices

-- `slice.windows(2).all(...)`
unfoldable pub all_small : ℕ → List BpannIndex → Bool
all_small limit [] = true
all_small limit (a ∷ []) = true
all_small limit (a ∷ b ∷ rest) =
    (leb (header_rows a) limit && leb (header_rows b) limit) && all_small limit (b ∷ rest)

-- The rank of a run of fragments, a sum that wraps around.
unfoldable pub run_rank : ℕ → List BpannIndex → ℕ
unfolding all_small
run_rank limit slice =
    if all_small limit slice
    then sum_rows slice % 2 ^ 64
    else (sum_rows slice + usize_max / 2) % 2 ^ 64

-- `for i in 0..=count - merge_n`: the first run of the least rank.
unfoldable pub best_run : ℕ → ℕ → List BpannIndex → ℕ → ℕ → ℕ → ℕ → ℕ
unfolding run_rank
best_run limit merge_n indices best_rows best_i i zero = best_i
best_run limit merge_n indices best_rows best_i i (suc left) =
    let rank = run_rank limit (take merge_n (drop i indices)) in
    let better = ltb rank best_rows in
    best_run limit merge_n indices (if better then rank else best_rows)
      (if better then i else best_i) (i + 1) left

-- The fragments with the merged one in place of the run.
abbrev pub replace_run : ℕ → ℕ → List BpannIndex → BpannIndex → List BpannIndex
replace_run best_i merge_n indices merged =
    take best_i indices ++ (merged ∷ drop (best_i + merge_n) indices)

-- `drain`, and `insert` when the merge succeeds.
abbrev pub put_merged : IncrementalIndex → ℕ → ℕ → Result BpannError BpannIndex → Run
put_merged s best_i merge_n (ok merged) =
    (ok tt, record s { indices = replace_run best_i merge_n s.indices merged })
put_merged s best_i merge_n (err e) =
    (err e, record s { indices = take best_i s.indices ++ drop (best_i + merge_n) s.indices })

module _ (f : Floats) (t : BpannTuning) where
  unfoldable pub amalgamate_smallest_run : IncrementalIndex → ℕ → Run
  unfolding best_run concat_merge
  amalgamate_smallest_run s wanted =
      let count = length s.indices in
      let merge_n = min wanted count in
      let best_i =
        best_run t.small_fragment_merge_rows merge_n s.indices usize_max 0 0
          (count - merge_n + 1) in
      if ltb count 2
      then (ok tt, s)
      else put_merged s best_i merge_n (concat_merge f (take merge_n (drop best_i s.indices)))

  -- `while self.indices.len() > max_fragments`: a step removes a fragment at least, so that as many
  -- steps as there are fragments are enough.
  unfoldable pub compact_loop : ℕ → ℕ → IncrementalIndex → Run
  unfolding amalgamate_smallest_run
  compact_loop zero max_fragments s = (ok tt, s)
  compact_loop (suc fuel) max_fragments s =
      let count = length s.indices in
      let merge_n = min (min (max (count - max_fragments) 2) 4) count in
      if ltb max_fragments count
      then and_then (amalgamate_smallest_run s merge_n) (compact_loop fuel max_fragments)
      else (ok tt, s)

  unfoldable pub compact : IncrementalIndex → Run
  unfolding compact_loop index_compact_threshold
  compact s =
      if s.synced_rows == 0
      then (ok tt, record s { indices = [] })
      else compact_loop (length s.indices) (index_compact_threshold t s.synced_rows) s

  unfoldable pub maybe_compact : IncrementalIndex → Run
  unfolding compact compact_limit
  maybe_compact s =
      if ltb (compact_limit t s.synced_rows) (length s.indices) then compact s else (ok tt, s)

  -- The mean of the pending rows, and the state without them.
  unfoldable pub take_pending_centroid : IncrementalIndex → ℕ → Option (List ℕ) × IncrementalIndex
  take_pending_centroid s num_dim =
      if (s.pending_row_count == 0) || not (length s.pending_centroid_sum == num_dim)
      then (none, s)
      else (
        some (
            map (λ x. f.narrow (f.div64 x (f.of_usize64 s.pending_row_count)))
              s.pending_centroid_sum),
        record s {
          pending_centroid_sum = replicate (length s.pending_centroid_sum) 0;
          pending_row_count = 0;
        },
      )

  -- `self.pending_centroid_sum[j] += if scale_x { s / x_scale[j] } else { s }`
  abbrev pub add_scaled : Bool → List ℕ → List ℕ → List ℕ → Result BpannError (List ℕ)
  add_scaled scale_x sums scale [] = ok sums
  add_scaled scale_x [] scale (c ∷ cs) = err panicked
  add_scaled true (s ∷ sums) [] (c ∷ cs) = err panicked
  add_scaled false (s ∷ sums) [] (c ∷ cs) = do
    rest ← add_scaled false sums [] cs
    ok (f.add64 s c ∷ rest)
  add_scaled scale_x (s ∷ sums) (x ∷ scale) (c ∷ cs) = do
    rest ← add_scaled scale_x sums scale cs
    ok (f.add64 s (if scale_x then f.div64 c x else c) ∷ rest)

  abbrev pub noted : IncrementalIndex → ℕ → Result BpannError (List ℕ) → Run
  noted s count (ok sums) = (
    ok tt,
    record s { pending_centroid_sum = sums; pending_row_count = s.pending_row_count + count },
  )
  noted s count (err e) = (err e, s)

  -- The rows are given with the number of their columns.
  unfoldable pub note_pending_rows : IncrementalIndex → ℕ → List (List ℕ) → Bool → List ℕ → Run
  note_pending_rows s ncols [] scale_x x_scale = (ok tt, s)
  note_pending_rows s ncols (row ∷ rows) scale_x x_scale =
      let old = s.pending_centroid_sum in
      let sums = if length old == ncols then old else replicate ncols 0 in
      noted s (suc (length rows)) (add_scaled scale_x sums x_scale (f.sum_axis ncols (row ∷ rows)))

  module _ (r : Random) (fuel : ℕ) (ctx : IndexBuildContext) where
    -- `unwrap_or_else(|| centroid_from_mmap_rows(...).expect(...))`
    abbrev pub pending_or_rows : Option (List ℕ) → ℕ → ℕ → Result BpannError (List ℕ)
    pending_or_rows (some c) start end = ok c
    pending_or_rows none start end = expect (centroid_from_rows f ctx start (end - start))
      where
        expect : Result BpannError (List ℕ) → Result BpannError (List ℕ)
        expect (ok c) = ok c
        expect (err e) = err panicked

    abbrev pub row_ids_index : Option (List ℕ) → ℕ → ℕ → Result BpannError BpannIndex
    row_ids_index pending start end = do
      c ← pending_or_rows pending start end
      ok (build_row_ids_leaf (map as_u32 (range start (end - start))) c ctx.num_dim)

    -- The branch that builds a tree of partitions; `fuel` bounds its depth.
    abbrev pub structured_index : ℕ → ℕ → Result BpannError BpannIndex
    structured_index start end = do
      vectors ← load_vectors f ctx start (end - start)
      build_from_rows f r t fuel (map as_u32 (range start (end - start))) vectors ctx.num_dim
          default_leaf_capacity (seed_or t.build_seed start)
      where
        seed_or : Option ℕ → ℕ → ℕ
        seed_or none start = start
        seed_or (some seed) start = seed

    unfoldable pub build_batch : IncrementalIndex → ℕ → ℕ → Run
    unfolding take_pending_centroid
    build_batch s start end =
        let (pending, drained) = take_pending_centroid s ctx.num_dim in
        if leb end start
        then (ok tt, s)
        else push_index drained end (
            if leb (end - start) t.structured_build_row_limit
            then row_ids_index pending start end
            else structured_index start end)

    unfoldable pub build_empty_leaf_forest : IncrementalIndex → ℕ → ℕ → ℕ → Run
    build_empty_leaf_forest s start end leaf_rows =
        if leb end start
        then (ok tt, s)
        else push_index s end (build_empty_leaf_forest_index f ctx start end leaf_rows)

    unfoldable pub build_vector_leaf_forest : IncrementalIndex → ℕ → ℕ → ℕ → Run
    build_vector_leaf_forest s start end leaf_rows =
        if leb end start
        then (ok tt, s)
        else push_index s end (build_vector_leaf_forest_index f ctx start end leaf_rows)

    -- The three ways to index the rows that are pending.
    unfoldable pub build_pending : IncrementalIndex → ℕ → Run
    unfolding build_batch build_empty_leaf_forest build_vector_leaf_forest take_pending_centroid
    build_pending s end =
        let limit = t.structured_build_row_limit in
        let pending = end - s.synced_rows in
        let drained = (take_pending_centroid s ctx.num_dim).1 in
        if ltb (saturating_mul limit 2) pending && ltb mid_band_shallow_max pending
        then build_empty_leaf_forest drained s.synced_rows end limit
        else if ltb (saturating_mul limit 2) pending
        then build_vector_leaf_forest drained s.synced_rows end mid_band_leaf_capacity
        else build_batch s s.synced_rows end

    -- What follows the build of a fragment.
    unfoldable pub after_build : (ℕ → Result BpannError (Unit {0})) → Run → Run
    unfolding maybe_compact
    after_build write run = and_then (and_then run maybe_compact) λ s. (write s.synced_rows, s)

    unfoldable pub ensure_sync : (ℕ → Result BpannError (Unit {0})) → IncrementalIndex → ℕ → Run
    ensure_sync write s end =
        if leb end s.synced_rows then (ok tt, s) else after_build write (build_pending s end)
