-- ===== src/Ennx/Flush/Reported.antt =====
-- How the failure of a background build is reported.
use ennbo.Prelude.{ℕ, suc, Bool, ◌≡◌, refl, ap, none, some, ok, err}
use ennbo.Ennx.Flush.{
  FlushError, Sync, ended, written, Handle, wait_job, wait_for_flush, schedule_background_flush,
  add,
}

-- The states after the first wait and after the second.
abbrev pub reported : Handle → FlushError → Handle
reported h e = record h { job = none; last_error = some e }

abbrev pub cleared : Handle → Handle
cleared h = record h { job = none; last_error = none }

-- When a worker has ended with an error, the next wait reports it and frees the slot; from then on
-- schedule refuses with the same error, and changes nothing, until a second wait, which may be that
-- of an append of some rows, reports it once more and clears it; then a wait succeeds.
pub failure_reported :
    (h : Handle) (e : FlushError) (sync : Sync) (scale_x : Bool) (count : ℕ)
    → h.job ≡ some (ended (err e))
    → (wait_for_flush h ≡ some (reported h e, err e))
      × (schedule_background_flush (reported h e) sync ≡ some (reported h e, err e))
      × (wait_for_flush (reported h e) ≡ some (cleared h, err e))
      × (add (reported h e) scale_x (suc count) written sync ≡ some (cleared h, err e))
      × (wait_for_flush (cleared h) ≡ some (cleared h, ok tt))
failure_reported h e sync scale_x count j = (ap (wait_job h) j, refl, refl, refl, refl)
