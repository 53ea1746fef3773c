-- ===== src/Ennx/Regions.antt =====
-- rust/crates/ennx/src/optimizer/multi_tr.rs: the state of several trust regions. `f64` values are
-- bit patterns. A state is well formed when its arrays have one element for each region, so that no
-- index is out of range; a tolerance below zero is 0, since the code compares it with counts only.
pub mod Allocation
pub mod Selection
pub mod Update
pub mod Examples
use ennbo.Prelude.{ℕ, zero, suc, ◌+◌, ◌-◌, ◌*◌, ◌≡◌, Bool, true, false, ◌&&◌, ◌||◌, not, ◌==◌, ltb}
use ennbo.Prelude.{Option, none, some, ◌>>?◌, Result, ok, err, ◌>>=◌, ◌>>◌, fail_if}
use ennbo.Prelude.{
  List, [], ◌∷◌, map, length, get_elem?, get_or, set, replicate, if◌then◌else◌, All,
}
use ennbo.Float64.{F64, is_finite64, f64_lt, f64_le, neg_infinity64, half64, one64}

-- The errors, by message; `no_active_regions` and `num_obs_backwards` are `InvalidState`, the others
-- are `InvalidParameter`.
pub data TrustRegionError : Type 0 where
  num_regions_zero bad_exploration bad_seed_distance bad_centers : TrustRegionError
  bad_utility no_active_regions zero_budget : TrustRegionError
  bad_num_arms bad_candidate : TrustRegionError
  bad_batch bad_regions regions_required : TrustRegionError
  region_out_of_bounds bad_center : TrustRegionError
  num_obs_backwards num_obs_mismatch : TrustRegionError

pub data SharingPolicy : Type 0 where
  shared nearest_center independent : SharingPolicy

pub record LengthConfig : Type 0 where
  pub length_init : ℕ
  pub length_min : ℕ
  pub length_max : ℕ

pub record MultiTrustRegionConfig : Type 0 where
  pub num_regions : ℕ
  pub lengths : LengthConfig  -- the field `length`
  pub succ_tolerance : ℕ
  pub fail_tolerance : ℕ
  pub sharing_policy : SharingPolicy
  pub exploration : ℕ
  pub min_seed_distance : ℕ

abbrev pub new_config : ℕ → LengthConfig → MultiTrustRegionConfig
new_config regions length_config = record {
  num_regions = regions;
  lengths = length_config;
  succ_tolerance = 3;
  fail_tolerance = 5;
  sharing_policy = shared;
  exploration = one64;
  min_seed_distance = 0;
}

pub record RegionBatch : Type 0 where
  pub region : ℕ
  pub start : ℕ
  pub len : ℕ

pub record RegionCandidate : Type 0 where
  pub index : ℕ
  pub region : ℕ
  pub seed : ℕ
  pub score : ℕ

pub record MultiTrustRegionState : Type 0 where
  pub num_regions : ℕ
  pub num_dim : ℕ
  pub centers : List (List ℕ)
  pub lengths : List ℕ
  pub incumbents_y : List ℕ
  pub succ_counts : List ℕ
  pub fail_counts : List ℕ
  pub active_mask : List Bool
  pub trial_counts : List ℕ
  pub mean_y : List ℕ
  pub m2_y : List ℕ
  pub config : MultiTrustRegionConfig

-- The columns of a two-dimensional array, all of whose rows have one length.
abbrev pub ncols : List (List ℕ) → ℕ
ncols [] = 0
ncols (row ∷ rows) = length row

-- The centers that `gen_range` draws, given the sequence of its results.
abbrev pub sample_row : (ℕ → ℕ) → ℕ → ℕ → List ℕ
sample_row random at zero = []
sample_row random at (suc count) = random at ∷ sample_row random (suc at) count

abbrev pub sample_centers : (ℕ → ℕ) → ℕ → ℕ → ℕ → List (List ℕ)
sample_centers random at zero num_dim = []
sample_centers random at (suc count) num_dim =
    sample_row random at num_dim ∷ sample_centers random (at + num_dim) count num_dim

unfoldable pub initial_state : ℕ → MultiTrustRegionConfig → List (List ℕ) → MultiTrustRegionState
initial_state num_dim config centers =
    let count = config.num_regions in
    record {
      num_regions = count;
      num_dim = num_dim;
      centers = centers;
      lengths = replicate count config.lengths.length_init;
      incumbents_y = replicate count neg_infinity64;
      succ_counts = replicate count 0;
      fail_counts = replicate count 0;
      active_mask = replicate count true;
      trial_counts = replicate count 0;
      mean_y = replicate count 0;
      m2_y = replicate count 0;
      config = config;
    }

-- The choice of the centers in `MultiTrustRegionState::new`.
unfoldable pub choose_centers :
    ℕ
    → MultiTrustRegionConfig
    → Option (List (List ℕ))
    → (ℕ → ℕ)
    → Result TrustRegionError (List (List ℕ))
choose_centers num_dim config none random = ok (sample_centers random 0 config.num_regions num_dim)
choose_centers num_dim config (some init) random =
    fail_if (not (length init == config.num_regions) || not (ncols init == num_dim)) bad_centers
    >> ok init

-- `MultiTrustRegionState::new`
unfoldable pub new_regions :
    ℕ
    → MultiTrustRegionConfig
    → Option (List (List ℕ))
    → (ℕ → ℕ)
    → Result TrustRegionError MultiTrustRegionState
unfolding choose_centers initial_state
new_regions num_dim config initial_centers random =
    fail_if (config.num_regions == 0) num_regions_zero
    >> (fail_if (not (is_finite64 config.exploration) || f64_lt config.exploration 0)
          bad_exploration
        >> (fail_if
              (not (is_finite64 config.min_seed_distance)
                || not (f64_le 0 config.min_seed_distance && f64_le config.min_seed_distance one64))
              bad_seed_distance
            >> (choose_centers num_dim config initial_centers random >>= λ centers.
                ok (initial_state num_dim config centers))))

abbrev pub active_regions : ℕ → List Bool → List ℕ
active_regions r [] = []
active_regions r (true ∷ mask) = r ∷ active_regions (suc r) mask
active_regions r (false ∷ mask) = active_regions (suc r) mask

-- `active_mask.iter().filter(|&&a| a).count()`
abbrev pub active_count : MultiTrustRegionState → ℕ
active_count t = length (active_regions 0 t.active_mask)

module _ (f : F64) where
  unfoldable pub variance : MultiTrustRegionState → ℕ → Option ℕ
  variance t region = get_elem? t.trial_counts region >>? λ count.
      if ltb 1 count then some (f.div (get_or t.m2_y region 0) (f.of_u64 (count - 1))) else none

  abbrev pub bounds_row : List ℕ → List ℕ → List ℕ × List ℕ
  bounds_row [] halves = ([], [])
  bounds_row (c ∷ center) [] = ([], [])
  bounds_row (c ∷ center) (half ∷ halves) =
      let (lb, ub) = bounds_row center halves in
      (f.clamp01 (f.sub c half) ∷ lb, f.clamp01 (f.add c half) ∷ ub)

  -- `ls.mean().unwrap_or(1.0)`
  abbrev pub mean_of : List ℕ → ℕ
  mean_of [] = one64
  mean_of (l ∷ ls) = f.mean l ls

  unfoldable pub compute_bounds_1d : MultiTrustRegionState → ℕ → Option (List ℕ) → List ℕ × List ℕ
  compute_bounds_1d t r none =
      bounds_row (get_or t.centers r []) (replicate t.num_dim (f.mul half64 (get_or t.lengths r 0)))
  compute_bounds_1d t r (some ls) =
      bounds_row (get_or t.centers r [])
        (map (λ l. f.mul (f.mul half64 (get_or t.lengths r 0)) (f.div l (mean_of ls))) ls)

  unfoldable pub restart_region :
      MultiTrustRegionState → ℕ → List ℕ → Result TrustRegionError MultiTrustRegionState
  restart_region t r new_center =
      fail_if (not (ltb r t.num_regions)) region_out_of_bounds
      >> (fail_if (not (length new_center == t.num_dim)) bad_center
          >> ok (record t {
            centers = set t.centers r (map (λ x. f.clamp01 x) new_center);
            lengths = set t.lengths r t.config.lengths.length_init;
            succ_counts = set t.succ_counts r 0;
            fail_counts = set t.fail_counts r 0;
            incumbents_y = set t.incumbents_y r neg_infinity64;
            active_mask = set t.active_mask r true;
            trial_counts = set t.trial_counts r 0;
            mean_y = set t.mean_y r 0;
            m2_y = set t.m2_y r 0;
          }))
