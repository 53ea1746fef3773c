-- ===== src/Ennx/Regions/Allocation.antt =====
-- `allocate` and `allocate_with` of optimizer/multi_tr.rs.
pub mod Shares
pub mod Covers
use ennbo.Prelude.{ℕ, zero, suc, ◌+◌, ◌-◌, ◌%◌, ◌^◌, max, Bool, true, false, ◌&&◌, ◌||◌, not, ◌==◌}
use ennbo.Prelude.{Option, none, some, Result, ok, err, ◌>>◌, fail_if, ltb, if◌then◌else◌}
use ennbo.Prelude.{List, [], ◌∷◌, length, get_or, set, replicate, take}
use ennbo.Float64.{F64, is_finite64, total_key, one64}
use ennbo.Sort.{sort_by}
use ennbo.Ennx.Regions.{
  MultiTrustRegionState, RegionBatch, TrustRegionError, bad_utility, no_active_regions, zero_budget,
  active_regions,
}

abbrev pub all_finite : List ℕ → Bool
all_finite [] = true
all_finite (x ∷ xs) = is_finite64 x && all_finite xs

abbrev pub sum_counts : List ℕ → ℕ
sum_counts [] = 0
sum_counts (x ∷ xs) = x + sum_counts xs

-- `iter().max_by`: of two elements the later one, unless the earlier one is greater.
abbrev pub max_by : (ℕ → ℕ → Bool) → ℕ → List ℕ → ℕ
max_by greater top [] = top
max_by greater top (x ∷ xs) = max_by greater (if greater top x then top else x) xs

-- One candidate for each of the regions, in their order.
unfoldable pub single_batches : ℕ → List ℕ → List RegionBatch
single_batches start [] = []
single_batches start (r ∷ rs) =
    record { region = r; start = start; len = 1 } ∷ single_batches (start + 1) rs

-- As many candidates for each region as it was given.
unfoldable pub counted_batches : ℕ → List ℕ → List ℕ → List RegionBatch
counted_batches start [] counts = []
counted_batches start (r ∷ rs) counts =
    let count = get_or counts r 0 in
    record { region = r; start = start; len = count } ∷ counted_batches (start + count) rs counts

module _ (f : F64) (t : MultiTrustRegionState) where
  unfoldable pub priority : ℕ → ℕ → ℕ → ℕ → ℕ
  priority region queued total_trials utility =
      let effective_trials = f.add (f.of_u64 (get_or t.trial_counts region 0)) (f.of_u64 queued) in
      let total = f.add (f.add total_trials (f.of_u64 t.num_regions)) one64 in
      let uncertainty = f.sqrt (f.div (f.ln total) effective_trials) in
      f.add utility (f.mul t.config.exploration uncertainty)

  abbrev pub total_trials : ℕ
  total_trials = f.of_u64 (max (sum_counts t.trial_counts % 2 ^ 64) 1)

  module _ (utility : List ℕ) where
    abbrev pub rank_key : ℕ → ℕ → ℕ
    rank_key region queued =
        total_key (priority region queued total_trials (get_or utility region 0))

    -- The comparison of the ranking: a greater priority, on a tie the lower region.
    unfoldable pub ranks_before : ℕ → ℕ → Bool
    unfolding priority
    ranks_before a b =
        ltb (rank_key b 0) (rank_key a 0) || ((rank_key a 0 == rank_key b 0) && ltb a b)

    -- The comparison of the greatest priority is `Greater`.
    unfoldable pub takes_more : List ℕ → ℕ → ℕ → Bool
    unfolding priority
    takes_more counts a b =
        let pa = rank_key a (get_or counts a 0) in
        let pb = rank_key b (get_or counts b 0) in ltb pb pa || ((pa == pb) && ltb a b)

    -- The loop that gives one more candidate to the region of the greatest priority, for the active
    -- regions `first ∷ rest`.
    unfoldable pub share : ℕ → ℕ → List ℕ → List ℕ → List ℕ
    unfolding takes_more
    share zero first rest counts = counts
    share (suc n) first rest counts =
        let region = max_by (takes_more counts) first rest in
        share n first rest (set counts region (get_or counts region 0 + 1))

    unfoldable pub allocate_active : ℕ → List ℕ → Result TrustRegionError (List RegionBatch)
    unfolding ranks_before share single_batches counted_batches
    allocate_active budget [] = err no_active_regions
    allocate_active budget (first ∷ rest) =
        let active = first ∷ rest in
        let counts = share (budget - length active) first rest (replicate t.num_regions 1) in
        fail_if (budget == 0) zero_budget
        >> ok (
            if ltb budget (length active)
            then single_batches 0 (take budget (sort_by ranks_before active))
            else counted_batches 0 active counts)

    unfoldable pub allocate_with : ℕ → Result TrustRegionError (List RegionBatch)
    unfolding allocate_active
    allocate_with budget =
        fail_if (not (length utility == t.num_regions) || not (all_finite utility)) bad_utility
        >> allocate_active budget (active_regions 0 t.active_mask)

  unfoldable pub allocate : ℕ → Result TrustRegionError (List RegionBatch)
  unfolding allocate_with
  allocate budget = allocate_with t.mean_y budget
