-- ===== src/Bpann/Sync/Total.antt =====
-- A sync indexes the pending rows, whatever way it builds them.
use ennbo.Prelude.{ℕ, ◌-◌, ◌<◌, ◌≤◌, ltb, leb, ◌==◌, arith}
use ennbo.Prelude.{◌≡◌, refl, ap, ◌∙◌, Bool-cases, inl, inr, ◌⊎◌, ◌||◌, not}
use ennbo.Prelude.{List, map, length, append-nil}
use ennbo.Prelude.{true, false, Option, none, some, Result, ok}
use ennbo.Prelude.{le→ltb_false, lt→ltb, IsU32, range, as_u32}
use ennbo.Bpann.Floats.{Floats, BpannError}
use ennbo.Bpann.Page.{page_id}
use ennbo.Bpann.Tuning.{BpannTuning}
use ennbo.Bpann.Tuning.Limits.{IsValid}
use ennbo.Bpann.Index.{BpannIndex, rows_of, build_row_ids_leaf}
use ennbo.Bpann.Index.Closed.{IsIndex}
use ennbo.Bpann.Kmeans.{Random}
use ennbo.Bpann.Rows.{IndexBuildContext}
use ennbo.Bpann.Forest.Total.{IsContext, forests_total, centroid_from_rows_total, rows_as_u32}
use ennbo.Bpann.Sync.{
  IncrementalIndex, Run, and_then, push_index, maybe_compact, compact_limit, saturating_mul,
  take_pending_centroid, pending_or_rows, build_batch, build_pending, build_empty_leaf_forest,
  build_vector_leaf_forest, ensure_sync, after_build, mid_band_shallow_max, mid_band_leaf_capacity,
}
use ennbo.Bpann.Sync.Compacted.{IsSynced}
use ennbo.Bpann.Sync.Built.{IsDrained, maybe_compact_total, take_pending_total, push_index_total}

some-none {ℓ} : {A : Type ℓ} {a : A} → ◌≡◌ {A = Option A} (some a) none → ⊥
some-none e = cc

module _ (f : Floats) (t : BpannTuning) (r : Random) (fuel : ℕ) (ctx : IndexBuildContext) where
  -- The state without its pending centroid.
  abbrev drained : IncrementalIndex → IncrementalIndex
  drained s = (take_pending_centroid f t s ctx.num_dim).1

  -- A fragment of the pending rows was pushed on the drained state.
  record IsPushed (s : IncrementalIndex) (end : ℕ) (run : Run) : Type 0 where
    index : BpannIndex
    whole : IsIndex ctx.num_dim index
    rows : rows_of index.pages ≡ range s.synced_rows (end - s.synced_rows)
    pushed : run ≡ push_index (drained s) end (ok index)

  -- The centroid for the rows of one leaf, pending or of the rows themselves.
  centered :
      (w : IsContext ctx) (pending : Option (List ℕ)) (start end : ℕ)
      → ((c : List ℕ) → pending ≡ some c → length c ≡ ctx.num_dim)
      → start < end
      → end ≤ ctx.train_x.nrows
      → (c : List ℕ) × (pending_or_rows f t r fuel ctx pending start end ≡ ok c)
        × (length c ≡ ctx.num_dim)
  centered w (some c) start end long before there = (c, refl, long c refl)
  centered w none start end long before there =
      let (c, e, fits) =
        centroid_from_rows_total f ctx w start (end - start) (omega arith) (omega arith) in
      (c, rw e refl, fits)

  row_ids_leaf-IsIndex :
      (ids c : List ℕ)
      → length c ≡ ctx.num_dim
      → IsIndex ctx.num_dim (build_row_ids_leaf ids c ctx.num_dim)
        × (rows_of (build_row_ids_leaf ids c ctx.num_dim).pages ≡ ids)
  unfolding build_row_ids_leaf rows_of page_id
  row_ids_leaf-IsIndex ids c long = (
    record {
      centered = (long, tt);
      closed = (tt, tt);
      rooted = refl;
      mapped = refl;
      counted = ap length (append-nil ids);
    },
    append-nil ids,
  )

  -- A span outside the band where a tree of partitions is built.
  abbrev pub IsLinear : ℕ → Type 0
  IsLinear pending =
      (pending ≤ t.structured_build_row_limit)
      ⊎ (saturating_mul t.structured_build_row_limit 2 < pending)

  small-IsPushed :
      (s : IncrementalIndex) (end : ℕ)
      → IsContext ctx
      → s.synced_rows < end
      → end ≤ ctx.train_x.nrows
      → IsU32 end
      → end - s.synced_rows ≤ t.structured_build_row_limit
      → IsPushed s end (build_batch f t r fuel ctx s s.synced_rows end)
  unfolding build_batch
  small-IsPushed s end w before there fits few =
      let start = s.synced_rows in
      let (c, e, long) =
        centered w (take_pending_centroid f t s ctx.num_dim).0 start end
          (take_pending_total f t ctx.num_dim s).3 before there in
      let ids = map as_u32 (range start (end - start)) in
      let (whole, rows) = row_ids_leaf-IsIndex ids c long in
      let some_rows : leb end start ≡ false = ground arith in
      let small : leb (end - start) t.structured_build_row_limit ≡ true = ground arith in
      record {
        index = build_row_ids_leaf ids c ctx.num_dim;
        whole = whole;
        rows = rows ∙ rows_as_u32 f ctx w start (end - start) (omega arith);
        pushed = rw (some_rows, small, e) refl;
      }

  build_pending-IsPushed :
      (s : IncrementalIndex) (end : ℕ)
      → IsValid t
      → IsContext ctx
      → s.synced_rows < end
      → end ≤ ctx.train_x.nrows
      → IsU32 end
      → IsLinear (end - s.synced_rows)
      → IsPushed s end (build_pending f t r fuel ctx s end)
  unfolding build_pending build_empty_leaf_forest build_vector_leaf_forest
  build_pending-IsPushed s end v w before there fits (inl few) =
      let direct : ltb (saturating_mul t.structured_build_row_limit 2) (end - s.synced_rows)
          ≡ false =
        le→ltb_false _ _ (omega arith) in
      let b = small-IsPushed s end w before there fits few in
      record { index = b.index; whole = b.whole; rows = b.rows; pushed = rw direct b.pushed }
  build_pending-IsPushed s end v w before there fits (inr many) =
      let limit = t.structured_build_row_limit in
      let start = s.synced_rows in
      let some_limit : 1 ≤ limit = v.structured in
      let wide : 1 ≤ mid_band_leaf_capacity = omega arith in
      let chunked : ltb (saturating_mul limit 2) (end - start) ≡ true = lt→ltb _ _ many in
      let some_rows : leb end start ≡ false = ground arith in
      let (index, e, whole, rows, count) =
        (forests_total f ctx w start end limit before there fits some_limit).0 in
      let (index', e', whole', rows', count') =
        (forests_total f ctx w start end mid_band_leaf_capacity before there fits wide).1 in
      elim (Bool-cases (ltb mid_band_shallow_max (end - start))) [
        | inl large ↦ record {
          index = index;
          whole = whole;
          rows = rows;
          pushed = rw (chunked, large, some_rows, e) refl;
        }
        | inr middle ↦ record {
          index = index';
          whole = whole';
          rows = rows';
          pushed = rw (chunked, middle, some_rows, e') refl;
        }
      ]

  -- Only the pending sum and count say whether a centroid is pending.
  still-IsDrained :
      (old new : IncrementalIndex)
      → new.pending_centroid_sum ≡ old.pending_centroid_sum
      → new.pending_row_count ≡ old.pending_row_count
      → IsDrained f t ctx.num_dim old
      → IsDrained f t ctx.num_dim new
  unfolding take_pending_centroid
  still-IsDrained old new e e' empty =
      let without = λ (sum : List ℕ) (count : ℕ). (count == 0) || not (length sum == ctx.num_dim) in
      elim (Bool-cases (without old.pending_centroid_sum old.pending_row_count)) [
        | inl c ↦
            let c' : without new.pending_centroid_sum new.pending_row_count ≡ true = rw (e, e') c in
            rw c' refl
        | inr c ↦ absurd (some-none (rw c at empty))
      ]

  after_compaction :
      (write : ℕ → Result BpannError (Unit {0})) (s s' : IncrementalIndex)
      → maybe_compact f t s ≡ (ok tt, s')
      → after_build f t r fuel ctx write (ok tt, s) ≡ (write s'.synced_rows, s')
  unfolding after_build
  after_compaction write s s' e =
      ap (λ run. and_then run λ state. (write state.synced_rows, state)) e

  -- For a valid tuning, a context whose scales and rows have the dimension (IsContext), and a state
  -- whose fragments are indices of the dimension with pages that refer to each other only and hold
  -- exactly the rows below `synced_rows` in order (IsSynced, as after syncs of this kind from an
  -- empty index): a sync up to an `end` above these rows, that the store has and
  -- that fits a u32, with a span outside the band where a tree of partitions is built, gives what
  -- the write of the row count gave; all rows below `end` are then indexed once and in order, the
  -- fragments are at most as many as trigger a compaction, and no pending centroid is left.
  pub ensure_sync_total :
      (write : ℕ → Result BpannError (Unit {0})) (s : IncrementalIndex) (end : ℕ)
      → IsValid t
      → IsContext ctx
      → IsSynced ctx.num_dim s
      → s.synced_rows < end
      → end ≤ ctx.train_x.nrows
      → IsU32 end
      → IsLinear (end - s.synced_rows)
      → (s' : IncrementalIndex) × (ensure_sync f t r fuel ctx write s end ≡ (write end, s'))
        × IsSynced ctx.num_dim s'
        × (s'.synced_rows ≡ end)
        × (length s'.indices ≤ compact_limit t end)
        × ((take_pending_centroid f t s' ctx.num_dim).0 ≡ none)
  unfolding ensure_sync
  ensure_sync_total write s end v w h before there fits linear =
      let b = build_pending-IsPushed s end v w before there fits linear in
      let (same_indices, same_rows, empty, long) = take_pending_total f t ctx.num_dim s in
      let drained-IsSynced : IsSynced ctx.num_dim (drained s) = record {
        whole = rw same_indices h.whole;
        covered = rw (same_indices, same_rows) h.covered;
      } in
      let pushed-IsSynced =
        push_index_total f t ctx.num_dim (drained s) end b.index drained-IsSynced
          (rw same_rows before) b.whole (rw same_rows b.rows) in
      let pushed = (push_index (drained s) end (ok b.index)).1 in
      let (s', e, step, few) = maybe_compact_total f t ctx.num_dim pushed v pushed-IsSynced in
      let pending : leb end s.synced_rows ≡ false = ground arith in
      let written : write s'.synced_rows ≡ write end = ap write step.same_rows in
      (
        s',
        rw pending (
            ap (after_build f t r fuel ctx write) b.pushed
            ∙ after_compaction write pushed s' e
            ∙ ap (λ answer. (answer, s')) written),
        step.synced,
        step.same_rows,
        few,
        still-IsDrained (drained s) s' step.same_sum step.same_count empty,
      )
