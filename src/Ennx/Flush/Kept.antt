-- ===== src/Ennx/Flush/Kept.antt =====
-- What the calls do to the counts of rows.
use ennbo.Prelude.{ℕ, zero, suc, true, false, Bool, ◌+◌, ◌≤◌, ◌≡◌, refl, sym, ap, ◌∙◌, arith}
use ennbo.Prelude.{Bool-cases, inl, inr, ◌&&◌, ◌||◌, not, leb}
use ennbo.Prelude.{Option, none, some, Result, ok, err}
use ennbo.Ennx.Flush.{
  FlushError, Sync, failed, synced, Disk, Worker, building, built, ended, Handle, Returned,
  soft_sync_build, soft_sync_publish, ensure_built, ensure_index_sync, Writes, invalid, refused,
  partial, written, unreleased, after_append, append_rows, error_taken, take_error, joined,
  wait_job, publish_built, sync_hard, append_returned,
}

-- Every row but `n` is indexed or counted as pending.
abbrev pub AreCounted : ℕ → Disk → Type 0
AreCounted n d = d.rows ≤ d.indexed_rows + d.pending_unindexed + n

-- The rows that an append leaves behind when it fails after the write of `x`.
abbrev pub left_behind : ℕ → Writes → ℕ
left_behind count (partial e) = count
left_behind count (invalid e) = 0
left_behind count (refused e) = 0
left_behind count written = 0

-- What a worker has built covers all rows.
abbrev pub IsCurrent : Disk → Option Worker → Type 0
IsCurrent d none = Unit {0}
IsCurrent d (some building) = Unit {0}
IsCurrent d (some (built count)) = count ≡ d.rows
IsCurrent d (some (ended result)) = Unit {0}

pub record IsFlush (n : ℕ) (h : Handle) : Type 0 where
  pub counted : AreCounted n h.disk
  pub current : IsCurrent h.disk h.job

pub returned_state :
    (x : Returned) (h' : Handle) (r : Result FlushError (Unit {0}))
    → ◌≡◌ {A = Option Returned} (some x) (some (h', r))
    → h' ≡ x.0
returned_state x h' r e = cc

error_taken_kept :
    (h : Handle) (e : Option FlushError)
    → ((error_taken h e).0.disk ≡ h.disk) × ((error_taken h e).0.job ≡ h.job)
error_taken_kept h none = (refl, refl)
error_taken_kept h (some e) = (refl, refl)

joined_kept :
    (h : Handle) (result : Result FlushError (Unit {0}))
    → ((joined h result).0.disk ≡ h.disk) × ((joined h result).0.job ≡ h.job)
joined_kept h (ok u) = error_taken_kept h h.last_error
joined_kept h (err e) = (refl, refl)

-- A wait that ends leaves the data alone and the slot free.
pub wait_kept :
    (h : Handle) (w : Option Worker) (x : Returned)
    → h.job ≡ w
    → wait_job h w ≡ some x
    → (x.0.disk ≡ h.disk) × (x.0.job ≡ none)
wait_kept h none x j e =
    let same : take_error h ≡ x = cc in
    let (d, k) = error_taken_kept h h.last_error in
    (
      ap (λ (x : Returned). x.0.disk) (sym same) ∙ d,
      ap (λ (x : Returned). x.0.job) (sym same) ∙ k ∙ j,
    )
wait_kept h (some building) x j e = cc
wait_kept h (some (built count)) x j e = cc
wait_kept h (some (ended result)) x j e =
    let same : joined (record h { job = none }) result ≡ x = cc in
    let (d, k) = joined_kept (record h { job = none }) result in
    (ap (λ (x : Returned). x.0.disk) (sym same) ∙ d, ap (λ (x : Returned). x.0.job) (sym same) ∙ k)

pub free-IsFlush : (n : ℕ) (h : Handle) → AreCounted n h.disk → h.job ≡ none → IsFlush n h
free-IsFlush n h counted free = record { counted = counted; current = rw free tt }

ensure_built-AreCounted :
    (n : ℕ) (d : Disk) (sync : Sync) → AreCounted n d → AreCounted n (ensure_built d sync).0
ensure_built-AreCounted n d synced counted = omega arith
ensure_built-AreCounted n d (failed e reached) counted = omega arith
ensure_built-AreCounted n d (unreleased e) counted = omega arith

ensure_index_sync-AreCounted :
    (n : ℕ) (d : Disk) (sync : Sync) → AreCounted n d → AreCounted n (ensure_index_sync d sync).0
unfolding ensure_index_sync
ensure_index_sync-AreCounted n d sync counted = elim (Bool-cases (leb d.rows d.indexed_rows)) [
  | inl all ↦ rw all (ground arith)
  | inr some_left ↦ rw some_left (ensure_built-AreCounted n d sync counted)
]

append_rows-AreCounted :
    (n : ℕ) (d : Disk) (count : ℕ) (outcome : Writes) (sync : Sync)
    → AreCounted n d
    → AreCounted (n + left_behind count outcome) (append_rows d count outcome sync).0
unfolding append_rows
append_rows-AreCounted n d zero outcome sync counted = omega arith
append_rows-AreCounted n d (suc count) (invalid e) sync counted = omega arith
append_rows-AreCounted n d (suc count) (refused e) sync counted = omega arith
append_rows-AreCounted n d (suc count) (partial e) sync counted = omega arith
append_rows-AreCounted n d (suc count) written sync counted =
    let d' : Disk = record d {
      rows = d.rows + suc count;
      pending_unindexed = d.pending_unindexed + suc count;
    } in
    let counted' : AreCounted (n + 0) d' = omega arith in
    let full =
      leb d.pending_hard_flush_threshold (d.pending_unindexed + suc count)
      || (not d.defer_append_indexing
          && leb d.pending_flush_threshold (d.pending_unindexed + suc count)) in
    elim (Bool-cases full) [
      | inl due ↦ rw due (ensure_index_sync-AreCounted (n + 0) d' sync counted')
      | inr early ↦ rw early counted'
    ]

after_append-AreCounted :
    (n : ℕ) (scale_x : Bool) (x : Disk × Result FlushError (Unit {0}))
    → AreCounted n x.0
    → AreCounted n (after_append scale_x x)
after_append-AreCounted n scale_x (d, err e) counted = counted
after_append-AreCounted n true (d, ok u) counted = omega arith
after_append-AreCounted n false (d, ok u) counted = counted

pub publish-AreCounted :
    (n : ℕ) (d : Disk) (count : ℕ) → count ≡ d.rows → AreCounted n (soft_sync_publish d count)
publish-AreCounted n d count e = omega arith

pub build_current :
    (d : Disk) (sync : Sync) (count : ℕ) → soft_sync_build d sync ≡ ok (some count) → count ≡ d.rows
build_current d synced count e = ground arith
build_current d (failed x reached) count e = ground arith
build_current d (unreleased x) count e = ground arith

publish_built-IsFlush :
    (n : ℕ) (h : Handle) (r : Result FlushError (Option ℕ))
    → ((count : ℕ) → r ≡ ok (some count) → count ≡ h.disk.rows)
    → AreCounted n h.disk
    → h.job ≡ none
    → IsFlush n (publish_built h r).0
publish_built-IsFlush n h (err e) current counted free = free-IsFlush n h counted free
publish_built-IsFlush n h (ok none) current counted free = free-IsFlush n h counted free
publish_built-IsFlush n h (ok (some count)) current counted free =
    free-IsFlush n (record h { disk = soft_sync_publish h.disk count })
      (publish-AreCounted n h.disk count (current count refl)) free

pub sync_hard-IsFlush :
    (n : ℕ) (sync : Sync) (x : Returned)
    → AreCounted n x.0.disk
    → x.0.job ≡ none
    → IsFlush n (sync_hard sync x).0
sync_hard-IsFlush n sync (h, err e) counted free = free-IsFlush n h counted free
sync_hard-IsFlush n sync (h, ok u) counted free =
    elim (Bool-cases (leb h.disk.pending_hard_flush_threshold h.disk.pending_unindexed)) [
      | inl due ↦ rw due (
          publish_built-IsFlush n h (soft_sync_build h.disk sync) (build_current h.disk sync)
            counted free)
      | inr early ↦ rw early (free-IsFlush n h counted free)
    ]

pub append_returned-IsFlush :
    (n : ℕ) (scale_x : Bool) (count : ℕ) (outcome : Writes) (sync : Sync) (x : Returned)
    → AreCounted n x.0.disk
    → x.0.job ≡ none
    → IsFlush (n + left_behind count outcome) (append_returned scale_x count outcome sync x).0
append_returned-IsFlush n scale_x count outcome sync (h, err e) counted free =
    free-IsFlush (n + left_behind count outcome) h (omega arith) free
append_returned-IsFlush n scale_x count outcome sync (h, ok u) counted free =
    let appended = append_rows h.disk count outcome sync in
    let n' = n + left_behind count outcome in
    free-IsFlush n' (record h { disk = after_append scale_x appended })
      (after_append-AreCounted n' scale_x appended
        (append_rows-AreCounted n h.disk count outcome sync counted))
      free
