-- ===== src/Ennx/Regions/Update.antt =====
-- `tell` of optimizer/multi_tr.rs. The generating regions are the optional argument `regions`.
pub mod Kept
pub mod Scanned
pub mod Loop
pub mod Runs
use ennbo.Prelude.{ℕ, zero, suc, ◌+◌, Bool, true, false, ◌&&◌, ◌||◌, not, ◌==◌, ltb, leb}
use ennbo.Prelude.{Option, none, some, Result, ok, ◌>>◌, fail_if, if◌then◌else◌}
use ennbo.Prelude.{List, [], ◌∷◌, length, get_or, set}
use ennbo.Float64.{F64, f64_lt, f64_le, neg_infinity64, half64, two64}
use ennbo.Ennx.Regions.{
  MultiTrustRegionState, TrustRegionError, bad_batch, bad_regions, regions_required, SharingPolicy,
  shared, nearest_center, independent, ncols, compute_bounds_1d,
}

-- `regions.is_some_and(|ids| ids[i] == r)`
abbrev pub generated_by : Option (List ℕ) → ℕ → ℕ → Bool
generated_by none i r = false
generated_by (some ids) i r = get_or ids i 0 == r

abbrev pub contains : List ℕ → List ℕ → List ℕ → Bool
contains (x ∷ xs) (lb ∷ lbs) (ub ∷ ubs) = (f64_le lb x && f64_le x ub) && contains xs lbs ubs
contains xs lbs ubs = true

pub record Scan : Type 0 where
  pub region_improved : Bool
  pub best_y_in_batch : ℕ
  pub best_x_idx : Option ℕ

abbrev pub first_scan : Scan
first_scan = record { region_improved = false; best_y_in_batch = neg_infinity64; best_x_idx = none }

module _ (f : F64) where
  abbrev pub squares : List ℕ → List ℕ → List ℕ
  squares (x ∷ xs) (c ∷ cs) = f.square (f.sub x c) ∷ squares xs cs
  squares xs cs = []

  abbrev pub distance_to : MultiTrustRegionState → ℕ → List ℕ → ℕ
  distance_to t region x = f.sum (squares x (get_or t.centers region []))

  -- None of the `count` regions from `other` on that is active is nearer, the region itself aside.
  unfoldable pub none_nearer : MultiTrustRegionState → ℕ → List ℕ → ℕ → ℕ → Bool
  none_nearer t region x other zero = true
  none_nearer t region x other (suc count) =
      let rest = none_nearer t region x (suc other) count in
      if not (other == region) && get_or t.active_mask other true
      then f64_le (distance_to t region x) (distance_to t other x) && rest
      else rest

  unfoldable pub accepts_by :
      SharingPolicy
      → MultiTrustRegionState
      → ℕ
      → ℕ
      → List ℕ
      → List ℕ
      → List ℕ
      → Option (List ℕ)
      → Bool
  unfolding none_nearer
  accepts_by shared t region i x lb ub regions = contains x lb ub
  accepts_by independent t region i x lb ub regions = generated_by regions i region
  accepts_by nearest_center t region i x lb ub regions = none_nearer t region x 0 t.num_regions

  abbrev pub accepts :
      MultiTrustRegionState → ℕ → ℕ → List ℕ → List ℕ → List ℕ → Option (List ℕ) → Bool
  accepts t region i x lb ub regions = accepts_by t.config.sharing_policy t region i x lb ub regions

  -- The method `record`.
  unfoldable pub record_trial : MultiTrustRegionState → ℕ → ℕ → MultiTrustRegionState
  record_trial t region y =
      let count = get_or t.trial_counts region 0 + 1 in
      let delta = f.sub y (get_or t.mean_y region 0) in
      let mean = f.add (get_or t.mean_y region 0) (f.div delta (f.of_u64 count)) in
      record t {
        trial_counts = set t.trial_counts region count;
        mean_y = set t.mean_y region mean;
        m2_y = set t.m2_y region (f.add (get_or t.m2_y region 0) (f.mul delta (f.sub y mean)));
      }

  module _ (r current_best : ℕ) (lb ub : List ℕ) (regions : Option (List ℕ)) where
    -- The loop over the rows of the batch, from row `i`.
    unfoldable pub scan_rows :
        MultiTrustRegionState → ℕ → List (List ℕ) → List ℕ → Scan → MultiTrustRegionState × Scan
    unfolding record_trial accepts_by
    scan_rows t i (x ∷ xs) (y ∷ ys) scan =
        let inside = accepts t r i x lb ub regions in
        let t' = if generated_by regions i r then record_trial t r y else t in
        let scan' =
          if inside && f64_lt current_best y && f64_lt scan.best_y_in_batch y
          then record { region_improved = true; best_y_in_batch = y; best_x_idx = some i }
          else scan in
        scan_rows t' (suc i) xs ys scan'
    scan_rows t i xs ys scan = (t, scan)

  abbrev pub move_incumbent :
      MultiTrustRegionState → ℕ → Option ℕ → List (List ℕ) → List ℕ → MultiTrustRegionState
  move_incumbent t r none xs ys = t
  move_incumbent t r (some idx) xs ys = record t {
    incumbents_y = set t.incumbents_y r (get_or ys idx 0);
    centers = set t.centers r (get_or xs idx []);
  }

  unfoldable pub count_success : MultiTrustRegionState → ℕ → MultiTrustRegionState
  count_success t r =
      let count = get_or t.succ_counts r 0 + 1 in
      let full = leb t.config.succ_tolerance count in
      let longer = f.min64 (f.mul two64 (get_or t.lengths r 0)) t.config.lengths.length_max in
      record t {
        fail_counts = set t.fail_counts r 0;
        succ_counts = set t.succ_counts r (if full then 0 else count);
        lengths = if full then set t.lengths r longer else t.lengths;
      }

  unfoldable pub count_failure : MultiTrustRegionState → ℕ → MultiTrustRegionState
  count_failure t r =
      let count = get_or t.fail_counts r 0 + 1 in
      let full = leb t.config.fail_tolerance count in
      let shorter = f.mul (get_or t.lengths r 0) half64 in
      record t {
        succ_counts = set t.succ_counts r 0;
        fail_counts = set t.fail_counts r (if full then 0 else count);
        lengths = if full then set t.lengths r shorter else t.lengths;
        active_mask =
            if full && f64_lt shorter t.config.lengths.length_min
            then set t.active_mask r false
            else t.active_mask;
      }

  unfoldable pub update_region :
      MultiTrustRegionState → ℕ → List (List ℕ) → List ℕ → Option (List ℕ) → MultiTrustRegionState
  unfolding compute_bounds_1d scan_rows count_success count_failure
  update_region t r xs ys regions =
      let (lb, ub) = compute_bounds_1d f t r none in
      let (t', scan) = scan_rows r (get_or t.incumbents_y r 0) lb ub regions t 0 xs ys first_scan in
      if not (get_or t.active_mask r true)
      then t
      else (if scan.region_improved
          then count_success (move_incumbent t' r scan.best_x_idx xs ys) r
          else count_failure t' r)

  -- The loop over `count` regions from `r` on.
  unfoldable pub update_regions :
      MultiTrustRegionState
      → ℕ
      → ℕ
      → List (List ℕ)
      → List ℕ
      → Option (List ℕ)
      → MultiTrustRegionState
  unfolding update_region
  update_regions t r zero xs ys regions = t
  update_regions t r (suc count) xs ys regions =
      update_regions (update_region t r xs ys regions) (suc r) count xs ys regions

  abbrev pub all_below : ℕ → List ℕ → Bool
  all_below n [] = true
  all_below n (id ∷ ids) = ltb id n && all_below n ids

  abbrev pub is_independent : SharingPolicy → Bool
  is_independent independent = true
  is_independent policy = false

  abbrev pub check_regions :
      MultiTrustRegionState → ℕ → Option (List ℕ) → Result TrustRegionError (Unit {0})
  check_regions t n none = fail_if (is_independent t.config.sharing_policy) regions_required
  check_regions t n (some ids) =
      fail_if (not (length ids == n) || not (all_below t.num_regions ids)) bad_regions

  unfoldable pub tell :
      MultiTrustRegionState
      → List (List ℕ)
      → List ℕ
      → Option (List ℕ)
      → Result TrustRegionError MultiTrustRegionState
  unfolding update_regions
  tell t xs ys regions =
      if length xs == 0
      then ok t
      else fail_if (not (ncols xs == t.num_dim) || not (length ys == length xs)) bad_batch
        >> (check_regions t (length xs) regions
            >> ok (update_regions t 0 t.num_regions xs ys regions))

  abbrev pub tell_update :
      MultiTrustRegionState → List (List ℕ) → List ℕ → Result TrustRegionError MultiTrustRegionState
  tell_update t xs ys = tell t xs ys none
