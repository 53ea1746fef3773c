-- ===== src/Ennx/Regions/Update/Scanned.antt =====
-- The loop over the rows of a batch, and the update of one region and of all.
use ennbo.Prelude.{ℕ, suc, ◌+◌, ◌≡◌, refl, sym, ap, ◌∙◌, arith}
use ennbo.Prelude.{Bool, true, false, Bool-cases, inl, inr, ◌&&◌}
use ennbo.Prelude.{Option, none, some, if◌then◌else◌}
use ennbo.Prelude.{List, [], ◌∷◌, length, get_or, set, length-set}
use ennbo.Float64.{F64, f64_lt}
use ennbo.Ennx.Regions.{MultiTrustRegionState}
use ennbo.Ennx.Regions.Update.{
  Scan, record_trial, scan_rows, move_incumbent, count_success, count_failure, generated_by,
  accepts,
}
use ennbo.Ennx.Regions.Update.Kept.{AreCounted, AreObserved, IsRegions}

-- Only the trials of the regions and their statistics differ.
pub record IsRecorded (t t' : MultiTrustRegionState) : Type 0 where
  pub trials : List ℕ
  pub means : List ℕ
  pub m2s : List ℕ
  pub same : t' ≡ record t { trial_counts = trials; mean_y = means; m2_y = m2s }
  pub trials_sized : length trials ≡ length t.trial_counts
  pub means_sized : length means ≡ length t.mean_y
  pub m2s_sized : length m2s ≡ length t.m2_y

IsRecorded-refl : (t : MultiTrustRegionState) → IsRecorded t t
IsRecorded-refl t = record {
  trials = t.trial_counts;
  means = t.mean_y;
  m2s = t.m2_y;
  same = refl;
  trials_sized = refl;
  means_sized = refl;
  m2s_sized = refl;
}

IsRecorded-trans :
    (t t' t'' : MultiTrustRegionState) → IsRecorded t t' → IsRecorded t' t'' → IsRecorded t t''
IsRecorded-trans t t' t'' a b = record {
  trials = b.trials;
  means = b.means;
  m2s = b.m2s;
  same =
      b.same
      ∙ ap
          (λ (s : MultiTrustRegionState). record s {
            trial_counts = b.trials;
            mean_y = b.means;
            m2_y = b.m2s;
          })
          a.same;
  trials_sized =
      b.trials_sized
      ∙ ap (λ (s : MultiTrustRegionState). length s.trial_counts) a.same
      ∙ a.trials_sized;
  means_sized =
      b.means_sized ∙ ap (λ (s : MultiTrustRegionState). length s.mean_y) a.same ∙ a.means_sized;
  m2s_sized = b.m2s_sized ∙ ap (λ (s : MultiTrustRegionState). length s.m2_y) a.same ∙ a.m2s_sized;
}

-- The best row that the loop found is one of the batch and above the incumbent.
abbrev pub IsAbove : ℕ → List ℕ → Option ℕ → Type 0
IsAbove current ys none = Unit {0}
IsAbove current ys (some k) = f64_lt current (get_or ys k 0) ≡ true

and_middle : (a b c : Bool) → (a && b && c) ≡ true → b ≡ true
and_middle a b c h = ground arith

module _ (f : F64) where
  record_trial-IsRecorded :
      (t : MultiTrustRegionState) (r y : ℕ) → IsRecorded t (record_trial f t r y)
  unfolding record_trial
  record_trial-IsRecorded t r y =
      let count = get_or t.trial_counts r 0 + 1 in
      let delta = f.sub y (get_or t.mean_y r 0) in
      let mean = f.add (get_or t.mean_y r 0) (f.div delta (f.of_u64 count)) in
      let m2 = f.add (get_or t.m2_y r 0) (f.mul delta (f.sub y mean)) in
      record {
        trials = set t.trial_counts r count;
        means = set t.mean_y r mean;
        m2s = set t.m2_y r m2;
        same = refl;
        trials_sized = length-set t.trial_counts r count;
        means_sized = length-set t.mean_y r mean;
        m2s_sized = length-set t.m2_y r m2;
      }

  module _ (r current : ℕ) (lb ub : List ℕ) (regions : Option (List ℕ)) (all : List ℕ) where
    pub scanned :
        (t : MultiTrustRegionState) (i : ℕ) (xs : List (List ℕ)) (ys : List ℕ) (scan : Scan)
        → ((j : ℕ) → get_or ys j 0 ≡ get_or all (i + j) 0)
        → IsAbove current all scan.best_x_idx
        → IsRecorded t (scan_rows f r current lb ub regions t i xs ys scan).0
          × IsAbove current all (scan_rows f r current lb ub regions t i xs ys scan).1.best_x_idx
    unfolding scan_rows
    scanned t i [] ys scan reads above = (IsRecorded-refl t, above)
    scanned t i (x ∷ xs) [] scan reads above = (IsRecorded-refl t, above)
    scanned t i (x ∷ xs) (y ∷ ys) scan reads above =
        let inside = accepts f t r i x lb ub regions in
        let t' = if generated_by regions i r then record_trial f t r y else t in
        let better = inside && f64_lt current y && f64_lt scan.best_y_in_batch y in
        let scan' : Scan =
          if better
          then record { region_improved = true; best_y_in_batch = y; best_x_idx = some i }
          else scan in
        let this : IsRecorded t t' =
          (elim (generated_by regions i r)
            as (λ b. IsRecorded t (if b then record_trial f t r y else t)) [
              | true ↦ record_trial-IsRecorded t r y
              | false ↦ IsRecorded-refl t
            ]) in
        let value : get_or all i 0 ≡ y = ap (λ k. get_or all k 0) (omega arith) ∙ sym (reads 0) in
        let above' : IsAbove current all scan'.best_x_idx = (elim (Bool-cases better) [
          | inl e ↦
              rw (e, value) (and_middle inside (f64_lt current y) (f64_lt scan.best_y_in_batch y) e)
          | inr e ↦ rw e above
        ]) in
        let (rest, found) =
          scanned t' (suc i) xs ys scan'
            (λ j. reads (suc j) ∙ ap (λ k. get_or all k 0) (omega arith)) above' in
        (
          IsRecorded-trans t t' (scan_rows f r current lb ub regions t' (suc i) xs ys scan').0 this
              rest,
          found,
        )

pub recorded-AreCounted :
    (t t' : MultiTrustRegionState) → IsRecorded t t' → AreCounted t → AreCounted t'
recorded-AreCounted t t' r c = rw r.same record {
  lengths_sized = c.lengths_sized;
  succ_sized = c.succ_sized;
  fail_sized = c.fail_sized;
  mask_sized = c.mask_sized;
  succ_below = c.succ_below;
  fail_below = c.fail_below;
  one_zero = c.one_zero;
  flagged = c.flagged;
}

pub recorded-AreObserved :
    (t t' : MultiTrustRegionState) → IsRecorded t t' → AreObserved t → AreObserved t'
recorded-AreObserved t t' r o = rw r.same record {
  centers_sized = o.centers_sized;
  incumbents_sized = o.incumbents_sized;
  trials_sized = r.trials_sized ∙ o.trials_sized;
  means_sized = r.means_sized ∙ o.means_sized;
  m2_sized = r.m2s_sized ∙ o.m2_sized;
}

module _ (f : F64) (t : MultiTrustRegionState) (r : ℕ) where
  pub count_success-AreObserved : AreObserved t → AreObserved (count_success f t r)
  unfolding count_success
  count_success-AreObserved o = record {
    centers_sized = o.centers_sized;
    incumbents_sized = o.incumbents_sized;
    trials_sized = o.trials_sized;
    means_sized = o.means_sized;
    m2_sized = o.m2_sized;
  }

  pub count_failure-AreObserved : AreObserved t → AreObserved (count_failure f t r)
  unfolding count_failure
  count_failure-AreObserved o = record {
    centers_sized = o.centers_sized;
    incumbents_sized = o.incumbents_sized;
    trials_sized = o.trials_sized;
    means_sized = o.means_sized;
    m2_sized = o.m2_sized;
  }

  pub move_incumbent-IsRegions :
      (best : Option ℕ) (xs : List (List ℕ)) (ys : List ℕ)
      → IsRegions t
      → IsRegions (move_incumbent f t r best xs ys)
  move_incumbent-IsRegions none xs ys w = w
  move_incumbent-IsRegions (some idx) xs ys w = record {
    counted = record {
      lengths_sized = w.counted.lengths_sized;
      succ_sized = w.counted.succ_sized;
      fail_sized = w.counted.fail_sized;
      mask_sized = w.counted.mask_sized;
      succ_below = w.counted.succ_below;
      fail_below = w.counted.fail_below;
      one_zero = w.counted.one_zero;
      flagged = w.counted.flagged;
    };
    observed = record {
      centers_sized = length-set t.centers r (get_or xs idx []) ∙ w.observed.centers_sized;
      incumbents_sized =
          length-set t.incumbents_y r (get_or ys idx 0) ∙ w.observed.incumbents_sized;
      trials_sized = w.observed.trials_sized;
      means_sized = w.observed.means_sized;
      m2_sized = w.observed.m2_sized;
    };
  }
