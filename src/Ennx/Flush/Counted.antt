-- ===== src/Ennx/Flush/Counted.antt =====
-- The counts of rows in any interleaving of the calls with the worker.
use ennbo.Prelude.{ℕ, zero, suc, Bool, ◌+◌, ◌≡◌, refl, arith}
use ennbo.Prelude.{Bool-cases, Option-cases, inl, inr, ◌&&◌, leb}
use ennbo.Prelude.{Option, none, some, ◌>>?◌, Result, ok, err}
use ennbo.Ennx.Flush.{
  FlushError, Sync, Disk, Worker, ended, Handle, new_handle, Returned, soft_sync_build, Writes,
  invalid, refused, partial, written, not_appended, sync_panicked, publish, add, add_some,
  wait_for_flush, sync_hard, schedule_free, schedule_checked, append_returned, end_build, Step,
  waited, scheduled, added, worker_built, worker_panicked, worker_published, Steps, done, after,
}
use ennbo.Ennx.Flush.Kept.{
  AreCounted, left_behind, IsFlush, returned_state, wait_kept, free-IsFlush, publish-AreCounted,
  build_current, sync_hard-IsFlush, append_returned-IsFlush,
}

-- The rows that a step and all steps leave behind.
abbrev pub step_left : {h h' : Handle} → Step h h' → ℕ
step_left (waited e) = 0
step_left (scheduled sync e) = 0
step_left (added scale_x count outcome sync e) = left_behind count outcome
step_left (worker_built sync j) = 0
step_left (worker_panicked j) = 0
step_left (worker_published count j) = 0

abbrev pub all_left : {h h' : Handle} → Steps h h' → ℕ
all_left done = 0
all_left (after steps step) = all_left steps + step_left step

schedule_free-IsFlush :
    (n : ℕ) (h : Handle) (w : Option Worker)
    → h.job ≡ w
    → IsFlush n h
    → IsFlush n (schedule_free h w).0
schedule_free-IsFlush n h (some worker) j f = f
schedule_free-IsFlush n h none j f =
    let due =
      h.disk.defer_append_indexing && leb h.disk.pending_flush_threshold h.disk.pending_unindexed in
    elim (Bool-cases due) [
      | inl e ↦ rw e record { counted = f.counted; current = tt }
      | inr e ↦ rw e f
    ]

-- A call that waits first and then continues.
continued-IsFlush :
    (n n' : ℕ) (h h' : Handle) (r : Result FlushError (Unit {0})) (next : Returned → Returned)
    → ((x : Returned) → AreCounted n x.0.disk → x.0.job ≡ none → IsFlush n' (next x).0)
    → AreCounted n h.disk
    → (wait_for_flush h >>? λ x. some (next x)) ≡ some (h', r)
    → IsFlush n' h'
continued-IsFlush n n' h h' r next kept counted e = elim (Option-cases (wait_for_flush h)) [
  | inl blocked ↦ let wrong = rw blocked at e in cc
  | inr (x, ready) ↦
      let (d, free) = wait_kept h h.job x refl ready in
      let same : h' ≡ (next x).0 = returned_state (next x) h' r (rw ready at e) in
      rw same (kept x (rw d counted) free)
]

schedule-IsFlush :
    (n : ℕ) (h h' : Handle) (r : Result FlushError (Unit {0})) (sync : Sync) (e : Option FlushError)
    → IsFlush n h
    → schedule_checked h sync e ≡ some (h', r)
    → IsFlush n h'
schedule-IsFlush n h h' r sync (some m) f e =
    let same : h' ≡ h = returned_state (h, err m) h' r e in rw same f
schedule-IsFlush n h h' r sync none f e =
    let hard =
      h.disk.defer_append_indexing
      && leb h.disk.pending_hard_flush_threshold h.disk.pending_unindexed in
    elim (Bool-cases hard) [
      | inl due ↦
          continued-IsFlush n n h h' r (sync_hard sync) (sync_hard-IsFlush n sync) f.counted
            (rw due at e)
      | inr early ↦
          let same : h' ≡ (schedule_free h h.job).0 =
            returned_state (schedule_free h h.job) h' r (rw early at e) in
          rw same (schedule_free-IsFlush n h h.job refl f)
    ]

end_build-IsFlush :
    (n : ℕ) (h : Handle) (r : Result FlushError (Option ℕ))
    → ((count : ℕ) → r ≡ ok (some count) → count ≡ h.disk.rows)
    → AreCounted n h.disk
    → IsFlush n (end_build h r)
end_build-IsFlush n h (err e) current counted = record { counted = counted; current = tt }
end_build-IsFlush n h (ok none) current counted = record { counted = counted; current = tt }
end_build-IsFlush n h (ok (some count)) current counted = record {
  counted = counted;
  current = current count refl;
}

add_some-IsFlush :
    (n : ℕ) (h h' : Handle) (r : Result FlushError (Unit {0})) (scale_x : Bool) (count : ℕ)
    (outcome : Writes) (sync : Sync)
    → IsFlush n h
    → add_some h scale_x count outcome sync ≡ some (h', r)
    → IsFlush (n + left_behind count outcome) h'
add_some-IsFlush n h h' r scale_x count outcome sync f e =
    continued-IsFlush n (n + left_behind count outcome) h h' r
      (append_returned scale_x count outcome sync)
      (append_returned-IsFlush n scale_x count outcome sync) f.counted e

-- An append that changes nothing.
same-IsFlush :
    (n : ℕ) (h h' : Handle) (r r' : Result FlushError (Unit {0}))
    → IsFlush n h
    → ◌≡◌ {A = Option Returned} (some (h, r)) (some (h', r'))
    → IsFlush (n + 0) h'
same-IsFlush n h h' r r' f e =
    let same : h' ≡ h = returned_state (h, r) h' r' e in
    let alone : n + 0 ≡ n = omega arith in rw (same, alone) f

add-IsFlush :
    (n : ℕ) (h h' : Handle) (r : Result FlushError (Unit {0})) (scale_x : Bool) (count : ℕ)
    (outcome : Writes) (sync : Sync)
    → IsFlush n h
    → add h scale_x count outcome sync ≡ some (h', r)
    → IsFlush (n + left_behind count outcome) h'
add-IsFlush n h h' r scale_x count (invalid m) sync f e =
    same-IsFlush n h h' (err (not_appended m)) r f e
add-IsFlush n h h' r scale_x zero (refused m) sync f e = same-IsFlush n h h' (ok tt) r f e
add-IsFlush n h h' r scale_x zero (partial m) sync f e = same-IsFlush n h h' (ok tt) r f e
add-IsFlush n h h' r scale_x zero written sync f e = same-IsFlush n h h' (ok tt) r f e
add-IsFlush n h h' r scale_x (suc count) (refused m) sync f e =
    add_some-IsFlush n h h' r scale_x (suc count) (refused m) sync f e
add-IsFlush n h h' r scale_x (suc count) (partial m) sync f e =
    add_some-IsFlush n h h' r scale_x (suc count) (partial m) sync f e
add-IsFlush n h h' r scale_x (suc count) written sync f e =
    add_some-IsFlush n h h' r scale_x (suc count) written sync f e

more-IsFlush : (n k : ℕ) (h : Handle) → IsFlush n h → IsFlush (n + k) h
more-IsFlush n k h f = let c = f.counted in record { counted = omega arith; current = f.current }

step-IsFlush : (n : ℕ) (h h' : Handle) (s : Step h h') → IsFlush n h → IsFlush (n + step_left s) h'
step-IsFlush n h h' (waited {r = r} e) f =
    let (d, free) = wait_kept h h.job (h', r) refl e in
    more-IsFlush n 0 h' (free-IsFlush n h' (rw d f.counted) free)
step-IsFlush n h h' (scheduled {r = r} sync e) f =
    more-IsFlush n 0 h' (schedule-IsFlush n h h' r sync h.last_error f e)
step-IsFlush n h h' (added {r = r} scale_x count outcome sync e) f =
    add-IsFlush n h h' r scale_x count outcome sync f e
step-IsFlush n h _ (worker_built sync j) f =
    more-IsFlush n 0 (end_build h (soft_sync_build h.disk sync))
      (end_build-IsFlush n h (soft_sync_build h.disk sync) (build_current h.disk sync) f.counted)
step-IsFlush n h _ (worker_panicked j) f =
    more-IsFlush n 0 (record h { job = some (ended (err sync_panicked)) })
      record { counted = f.counted; current = tt }
step-IsFlush n h _ (worker_published count j) f =
    let all : count ≡ h.disk.rows = rw j at f.current in
    more-IsFlush n 0 (publish h count)
      record { counted = publish-AreCounted n h.disk count all; current = tt }

-- In any interleaving of waits, schedules and appends with the steps of the workers, failed calls
-- and panics included, from a backend whose rows are all indexed or counted as pending: every row is
-- indexed or counted as pending, but for as many as the appends had that failed after they wrote
-- `x`, and what a worker has built and not yet published covers all the rows there are.
pub reached-IsFlush :
    (d : Disk) (h : Handle) (steps : Steps (new_handle d) h)
    → AreCounted 0 d
    → IsFlush (all_left steps) h
reached-IsFlush d h steps counted =
    along (new_handle d) h record { counted = counted; current = tt } steps
  where
    along : (s h : Handle) → IsFlush 0 s → (steps : Steps s h) → IsFlush (all_left steps) h
    along s _ f done = f
    along s h f (after {h' = t} steps step) =
        step-IsFlush (all_left steps) t h step (along s t f steps)
