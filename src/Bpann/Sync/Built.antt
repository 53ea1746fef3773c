-- ===== src/Bpann/Sync/Built.antt =====
-- The parts of a sync: a compaction when it is due, the pending centroid, a new fragment.
use ennbo.Prelude.{ℕ, ◌+◌, ◌-◌, ◌<◌, ◌≤◌, ltb, leb, ◌==◌, arith}
use ennbo.Prelude.{◌≡◌, refl, sym, ap, ap₂, ◌∙◌, Bool-cases, inl, inr, ◌||◌, not}
use ennbo.Prelude.{List, [], ◌∷◌, ◌++◌, map, length, joined-All, append-nil}
use ennbo.Prelude.{none, some, ok}
use ennbo.Prelude.{range, range-append, length-map}
use ennbo.Bpann.Floats.{Floats}
use ennbo.Bpann.Tuning.{BpannTuning}
use ennbo.Bpann.Tuning.Limits.{IsValid}
use ennbo.Bpann.Index.{BpannIndex, rows_of}
use ennbo.Bpann.Index.Closed.{IsIndex}
use ennbo.Bpann.Sync.{
  IncrementalIndex, push_index, compact, maybe_compact, compact_limit, index_compact_threshold,
  take_pending_centroid,
}
use ennbo.Bpann.Sync.Compacted.{IsSynced, IsStep, same-IsStep, compact_loop_total, all_rows-append}

-- Nothing is pending any more that a centroid would be taken from.
abbrev pub IsDrained : Floats → BpannTuning → ℕ → IncrementalIndex → Type 0
IsDrained f t d s = (take_pending_centroid f t s d).0 ≡ none

threshold_positive : (t : BpannTuning) (rows : ℕ) → IsValid t → 1 ≤ index_compact_threshold t rows
unfolding index_compact_threshold
threshold_positive t rows v =
    let wide : 3 ≤ t.index_compact_fragment_max = v.compact_max in
    elim (Bool-cases (leb rows 1000)) [
      | inl few ↦ rw few (omega arith)
      | inr many ↦ rw many (omega (arith, wide))
    ]

-- The limit at which a compaction starts is not below the count that it leaves.
threshold_limit :
    (t : BpannTuning) (rows : ℕ) → index_compact_threshold t rows ≤ compact_limit t rows
unfolding compact_limit
threshold_limit t rows = omega arith

module _ (f : Floats) (t : BpannTuning) (d : ℕ) where
  pub maybe_compact_total :
      (s : IncrementalIndex)
      → IsValid t
      → IsSynced d s
      → (s' : IncrementalIndex) × (maybe_compact f t s ≡ (ok tt, s'))
        × IsStep d s s'
        × (length s'.indices ≤ compact_limit t s.synced_rows)
  unfolding maybe_compact compact
  maybe_compact_total s v h =
      let thr = index_compact_threshold t s.synced_rows in
      let some_max = threshold_positive t s.synced_rows v in
      let limit = threshold_limit t s.synced_rows in
      elim (Bool-cases (ltb (compact_limit t s.synced_rows) (length s.indices))) [
        | inr few ↦ (s, rw few refl, same-IsStep d s h, ground arith)
        | inl many ↦ elim (Bool-cases (s.synced_rows == 0)) [
          | inl nothing ↦
              let none_left : s.synced_rows ≡ 0 = ground arith in
              (
                record s { indices = [] },
                rw (many, nothing) refl,
                record {
                  synced = record { whole = tt; covered = ap (range 0) (sym none_left) };
                  same_rows = refl;
                  same_sum = refl;
                  same_count = refl;
                },
                omega arith,
              )
          | inr some_rows ↦
              let (s', e, step, size) =
                compact_loop_total f t d (length s.indices) thr s h some_max (omega arith) in
              (s', rw (many, some_rows) e, step, omega (arith, limit))
        ]
      ]

  -- What is left when the pending centroid was taken.
  pub take_pending_total :
      (s : IncrementalIndex)
      → ((take_pending_centroid f t s d).1.indices ≡ s.indices)
        × ((take_pending_centroid f t s d).1.synced_rows ≡ s.synced_rows)
        × IsDrained f t d (take_pending_centroid f t s d).1
        × ((c : List ℕ) → (take_pending_centroid f t s d).0 ≡ some c → length c ≡ d)
  unfolding take_pending_centroid
  take_pending_total s =
      let sum = s.pending_centroid_sum in
      elim (Bool-cases ((s.pending_row_count == 0) || not (length sum == d))) [
        | inl without ↦ rw without (refl, refl, rw without refl, λ c e. cc)
        | inr taken ↦
            let long : length sum ≡ d = ground arith in
            let mean =
              map (λ (x : ℕ). f.narrow (f.div64 x (f.of_usize64 s.pending_row_count))) sum in
            rw taken (
              refl,
              refl,
              refl,
              λ c e. let same : mean ≡ c = cc in ap length (sym same) ∙ length-map sum _ ∙ long,
            )
      ]

  -- A new fragment of the rows from the last indexed row on.
  pub push_index_total :
      (s : IncrementalIndex) (end : ℕ) (index : BpannIndex)
      → IsSynced d s
      → s.synced_rows < end
      → IsIndex d index
      → rows_of index.pages ≡ range s.synced_rows (end - s.synced_rows)
      → IsSynced d (push_index s end (ok index)).1
  push_index_total s end index h inside w rows = record {
    whole = joined-All (IsIndex d) s.indices index h.whole w;
    covered =
        let from_zero : s.synced_rows ≡ 0 + s.synced_rows = omega arith in
        let total : s.synced_rows + (end - s.synced_rows) ≡ end = omega arith in
        all_rows-append s.indices (index ∷ [])
        ∙ ap₂ (λ a b. a ++ b) h.covered (append-nil (rows_of index.pages) ∙ rows)
        ∙ ap (λ k. range 0 s.synced_rows ++ range k (end - s.synced_rows)) from_zero
        ∙ range-append 0 s.synced_rows (end - s.synced_rows)
        ∙ ap (range 0) total;
  }
