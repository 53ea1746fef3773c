-- ===== src/Ennx/Flush.antt =====
-- rust/crates/ennx/src/backend/flush_controller.rs, with the row counts of
-- rust/crates/bpann/src/backend.rs that it depends on. No lock is poisoned: the one that a worker
-- holds while it may panic is a read lock. What the index build does is an argument: whether it
-- succeeds, and how many rows it had indexed when it failed. What the writes of an append do is an
-- argument too; the sums for the scales, which an append also updates, are left out.
pub mod Kept
pub mod Counted
pub mod Reported
pub mod Examples
use ennbo.Prelude.{ℕ, zero, suc, ◌+◌, ◌≡◌, min, max, Bool, true, false, ◌&&◌, ◌||◌, not, leb}
use ennbo.Prelude.{Option, none, some, ◌>>?◌, Result, ok, err, if◌then◌else◌}

pub data FlushError : Type 0 where
  sync_failed : ℕ → FlushError
  sync_panicked : FlushError
  not_appended : ℕ → FlushError

-- The end of `ensure_sync_for_backend`: an error and the rows indexed before it, success, or success
-- and then an error of the release of the pages, which only `ensure_index_sync` makes.
pub data Sync : Type 0 where
  failed : ℕ → ℕ → Sync
  unreleased : ℕ → Sync
  synced : Sync

-- How far an append comes before the rows are counted: the input is refused at once; the warp of the
-- values, the checks or the write of `x` fail; `x` is written and then a write of `y` or of its
-- variances fails; or all is written.
pub data Writes : Type 0 where
  invalid refused partial : ℕ → Writes
  written : Writes

-- The counts of `BpannBackend`.
pub record Disk : Type 0 where
  pub rows : ℕ
  pub indexed_rows : ℕ
  pub pending_unindexed : ℕ
  pub pending_flush_threshold : ℕ
  pub pending_hard_flush_threshold : ℕ
  pub defer_append_indexing : Bool

-- A worker builds, then holds what it built, then has ended.
pub data Worker : Type 0 where
  building : Worker
  built : ℕ → Worker
  ended : Result FlushError (Unit {0}) → Worker

pub record Handle : Type 0 where
  pub disk : Disk
  pub job : Option Worker
  pub last_error : Option FlushError

abbrev pub new_handle : Disk → Handle
new_handle d = record { disk = d; job = none; last_error = none }

-- The state after a call and what the call returned.
abbrev pub Returned : Type 0
Returned = Handle × Result FlushError (Unit {0})

-- The rows that a detached build would index, none when all are indexed.
abbrev pub soft_sync_build : Disk → Sync → Result FlushError (Option ℕ)
soft_sync_build d synced = if leb d.rows d.indexed_rows then ok none else ok (some d.rows)
soft_sync_build d (failed e reached) =
    if leb d.rows d.indexed_rows then ok none else err (sync_failed e)
soft_sync_build d (unreleased e) = if leb d.rows d.indexed_rows then ok none else ok (some d.rows)

abbrev pub soft_sync_publish : Disk → ℕ → Disk
soft_sync_publish d count = record d { indexed_rows = count; pending_unindexed = 0 }

-- `ensure_index_sync`, which builds in place.
abbrev pub ensure_built : Disk → Sync → Disk × Result FlushError (Unit {0})
ensure_built d synced = (record d { indexed_rows = d.rows; pending_unindexed = 0 }, ok tt)
ensure_built d (unreleased e) =
    (record d { indexed_rows = d.rows; pending_unindexed = 0 }, err (sync_failed e))
ensure_built d (failed e reached) =
    (record d { indexed_rows = min d.rows (max d.indexed_rows reached) }, err (sync_failed e))

unfoldable pub ensure_index_sync : Disk → Sync → Disk × Result FlushError (Unit {0})
ensure_index_sync d sync =
    if leb d.rows d.indexed_rows
    then (record d { pending_unindexed = 0 }, ok tt)
    else ensure_built d sync

-- `BpannBackend::append_rows` of `count` rows.
unfoldable pub append_rows : Disk → ℕ → Writes → Sync → Disk × Result FlushError (Unit {0})
unfolding ensure_index_sync
append_rows d zero outcome sync = (d, ok tt)
append_rows d (suc count) (invalid e) sync = (d, err (not_appended e))
append_rows d (suc count) (refused e) sync = (d, err (not_appended e))
append_rows d (suc count) (partial e) sync =
    (record d { rows = d.rows + suc count }, err (not_appended e))
append_rows d (suc count) written sync =
    let d' = record d {
      rows = d.rows + suc count;
      pending_unindexed = d.pending_unindexed + suc count;
    } in
    let pending = d'.pending_unindexed in
    if leb d.pending_hard_flush_threshold pending
      || (not d.defer_append_indexing && leb d.pending_flush_threshold pending)
    then ensure_index_sync d' sync
    else (d', ok tt)

-- `mark_index_stale`, which resets the index.
abbrev pub mark_index_stale : Disk → Disk
mark_index_stale d = record d { indexed_rows = 0; pending_unindexed = d.rows }

-- `wait_for_flush` when the job slot was taken.
abbrev pub error_taken : Handle → Option FlushError → Returned
error_taken h none = (h, ok tt)
error_taken h (some e) = (record h { last_error = none }, err e)

abbrev pub take_error : Handle → Returned
take_error h = error_taken h h.last_error

abbrev pub joined : Handle → Result FlushError (Unit {0}) → Returned
joined h (ok u) = take_error h
joined h (err e) = (record h { last_error = some e }, err e)

-- `none` when the call still waits for the worker.
abbrev pub wait_job : Handle → Option Worker → Option Returned
wait_job h none = some (take_error h)
wait_job h (some building) = none
wait_job h (some (built count)) = none
wait_job h (some (ended result)) = some (joined (record h { job = none }) result)

abbrev pub wait_for_flush : Handle → Option Returned
wait_for_flush h = wait_job h h.job

-- The synchronous part of `schedule_background_flush`, after the wait.
abbrev pub publish_built : Handle → Result FlushError (Option ℕ) → Returned
publish_built h (err e) = (h, err e)
publish_built h (ok none) = (h, ok tt)
publish_built h (ok (some count)) = (record h { disk = soft_sync_publish h.disk count }, ok tt)

abbrev pub sync_hard : Sync → Returned → Returned
sync_hard sync (h, err e) = (h, err e)
sync_hard sync (h, ok u) =
    if leb h.disk.pending_hard_flush_threshold h.disk.pending_unindexed
    then publish_built h (soft_sync_build h.disk sync)
    else (h, ok tt)

abbrev pub schedule_free : Handle → Option Worker → Returned
schedule_free h (some worker) = (h, ok tt)
schedule_free h none =
    if h.disk.defer_append_indexing && leb h.disk.pending_flush_threshold h.disk.pending_unindexed
    then (record h { job = some building }, ok tt)
    else (h, ok tt)

abbrev pub schedule_checked : Handle → Sync → Option FlushError → Option Returned
schedule_checked h sync (some e) = some (h, err e)
schedule_checked h sync none =
    if h.disk.defer_append_indexing
      && leb h.disk.pending_hard_flush_threshold h.disk.pending_unindexed
    then (wait_for_flush h >>? λ returned. some (sync_hard sync returned))
    else some (schedule_free h h.job)

abbrev pub schedule_background_flush : Handle → Sync → Option Returned
schedule_background_flush h sync = schedule_checked h sync h.last_error

-- `EpistemicNearestNeighbors::add` on a disk backend: it waits for the worker first; where inputs are
-- scaled, the new scale makes the index stale.
abbrev pub after_append : Bool → Disk × Result FlushError (Unit {0}) → Disk
after_append scale_x (d, err e) = d
after_append scale_x (d, ok u) = if scale_x then mark_index_stale d else d

abbrev pub append_returned : Bool → ℕ → Writes → Sync → Returned → Returned
append_returned scale_x count outcome sync (h, err e) = (h, err e)
append_returned scale_x count outcome sync (h, ok u) =
    let appended = append_rows h.disk count outcome sync in
    (record h { disk = after_append scale_x appended }, appended.1)

abbrev pub add_some : Handle → Bool → ℕ → Writes → Sync → Option Returned
add_some h scale_x count outcome sync =
    wait_for_flush h >>? λ returned. some (append_returned scale_x count outcome sync returned)

abbrev pub add : Handle → Bool → ℕ → Writes → Sync → Option Returned
add h scale_x count (invalid e) sync = some (h, err (not_appended e))
add h scale_x zero (refused e) sync = some (h, ok tt)
add h scale_x zero (partial e) sync = some (h, ok tt)
add h scale_x zero written sync = some (h, ok tt)
add h scale_x (suc count) (refused e) sync = add_some h scale_x (suc count) (refused e) sync
add h scale_x (suc count) (partial e) sync = add_some h scale_x (suc count) (partial e) sync
add h scale_x (suc count) written sync = add_some h scale_x (suc count) written sync

-- The steps of the worker's thread.
abbrev pub end_build : Handle → Result FlushError (Option ℕ) → Handle
end_build h (err e) = record h { job = some (ended (err e)) }
end_build h (ok none) = record h { job = some (ended (ok tt)) }
end_build h (ok (some count)) = record h { job = some (built count) }

abbrev pub publish : Handle → ℕ → Handle
publish h count = record h { disk = soft_sync_publish h.disk count; job = some (ended (ok tt)) }

pub data Step : Handle → Handle → Type 0 where
  waited :
      {h h' : Handle} {r : Result FlushError (Unit {0})}
      → wait_for_flush h ≡ some (h', r)
      → Step h h'
  scheduled :
      {h h' : Handle} {r : Result FlushError (Unit {0})} (sync : Sync)
      → schedule_background_flush h sync ≡ some (h', r)
      → Step h h'
  added :
      {h h' : Handle} {r : Result FlushError (Unit {0})} (scale_x : Bool) (count : ℕ)
      (outcome : Writes) (sync : Sync)
      → add h scale_x count outcome sync ≡ some (h', r)
      → Step h h'
  worker_built :
      {h : Handle} (sync : Sync)
      → h.job ≡ some building
      → Step h (end_build h (soft_sync_build h.disk sync))
  worker_panicked :
      {h : Handle}
      → h.job ≡ some building
      → Step h (record h { job = some (ended (err sync_panicked)) })
  worker_published :
      {h : Handle} (count : ℕ) → h.job ≡ some (built count) → Step h (publish h count)

-- Any sequence of steps.
pub data Steps : Handle → Handle → Type 0 where
  done : {h : Handle} → Steps h h
  after : {h h' h'' : Handle} → Steps h h' → Step h' h'' → Steps h h''
