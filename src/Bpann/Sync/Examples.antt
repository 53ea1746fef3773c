-- ===== src/Bpann/Sync/Examples.antt =====
-- A new index is synced to three rows.
use ennbo.Prelude.{ℕ, ◌≤◌, ◌≡◌, refl, arith, inl, length, none, ok, Result}
use ennbo.Bpann.Floats.{BpannError}
use ennbo.Bpann.Samples.{simple, constant, three_rows}
use ennbo.Bpann.Tuning.{default_tuning, validate}
use ennbo.Bpann.Tuning.Limits.{IsValid, validate_iff-IsValid}
use ennbo.Bpann.Forest.Total.{IsContext}
use ennbo.Bpann.Sync.{
  IncrementalIndex, new_incremental, ensure_sync, compact_limit, take_pending_centroid,
}
use ennbo.Bpann.Sync.Compacted.{IsSynced}
use ennbo.Bpann.Sync.Total.{ensure_sync_total}

default_tuning-IsValid : IsValid default_tuning
unfolding validate
default_tuning-IsValid = (validate_iff-IsValid default_tuning).0 refl

three_rows-IsContext : IsContext three_rows
three_rows-IsContext = record {
  stored = omega arith;
  wide = (refl, (refl, (refl, tt)));
  scaled = refl;
}

new_incremental-IsSynced : IsSynced 1 new_incremental
new_incremental-IsSynced = record { whole = tt; covered = refl }

abbrev written : ℕ → Result BpannError (Unit {0})
written rows = ok tt

ensure_sync_total_example :
    (s : IncrementalIndex) × (ensure_sync simple default_tuning constant 9 three_rows written
        new_incremental 3
      ≡ (written 3, s))
    × IsSynced 1 s
    × (s.synced_rows ≡ 3)
    × (length s.indices ≤ compact_limit default_tuning 3)
    × ((take_pending_centroid simple default_tuning s 1).0 ≡ none)
ensure_sync_total_example =
    ensure_sync_total simple default_tuning constant 9 three_rows written new_incremental 3
      default_tuning-IsValid three_rows-IsContext new_incremental-IsSynced (omega arith)
      (omega arith) (omega arith) (inl (omega arith))
