-- ===== src/Ennx/Flush/Examples.antt =====
-- An append of three rows, of which a worker builds an index.
use ennbo.Prelude.{◌≡◌, refl, arith, true, false, some, ok}
use ennbo.Ennx.Flush.{
  synced, written, Disk, building, Handle, new_handle, add, append_rows, end_build, soft_sync_build,
  publish, Steps, done, after, scheduled, added, worker_built, worker_published,
}
use ennbo.Ennx.Flush.Counted.{all_left, reached-IsFlush}
use ennbo.Ennx.Flush.Kept.{IsFlush}

abbrev empty_disk : Disk
empty_disk = record {
  rows = 0;
  indexed_rows = 0;
  pending_unindexed = 0;
  pending_flush_threshold = 2;
  pending_hard_flush_threshold = 100;
  defer_append_indexing = true;
}

abbrev with_rows : Handle
with_rows = new_handle (record empty_disk { rows = 3; pending_unindexed = 3 })

abbrev flushing : Handle
flushing = record with_rows { job = some building }

abbrev holding : Handle
holding = end_build flushing (soft_sync_build flushing.disk synced)

rows_added : add (new_handle empty_disk) false 3 written synced ≡ some (with_rows, ok tt)
unfolding append_rows
rows_added = refl

abbrev flushed : Steps (new_handle empty_disk) (publish holding 3)
flushed =
    after
      (after
        (after (after done (added false 3 written synced rows_added))
          (scheduled {h' = flushing} synced refl))
        (worker_built synced refl))
      (worker_published 3 refl)

reached-IsFlush_example : IsFlush (all_left flushed) (publish holding 3)
reached-IsFlush_example = reached-IsFlush empty_disk (publish holding 3) flushed (omega arith)
