-- ===== src/Ennx/Turbo.antt =====
-- rust/crates/ennx/src/trust_region.rs: the trust region of one objective. Its counters and
-- tolerances are never negative.
pub mod History
pub mod Counters
pub mod Examples
use ennbo.Prelude.{ℕ, zero, suc, ◌+◌, ◌-◌, max, Bool, true, false, not, ◌==◌, ltb, leb}
use ennbo.Prelude.{Option, none, some, Result, ok, ◌>>◌, fail_if, if◌then◌else◌}
use ennbo.Prelude.{List, [], ◌∷◌, ◌++◌, map, length, take, drop, replicate}
use ennbo.Float64.{F64, is_finite64, f64_lt, neg_infinity64, infinity64, half64, one64, two64}
use ennbo.Ennx.Regions.{
  TrustRegionError, num_obs_backwards, num_obs_mismatch, LengthConfig, bounds_row,
}

abbrev pub four64 : ℕ
four64 = 0x4010_0000_0000_0000

-- 1e-6 and 1e-3
abbrev pub micro64 : ℕ
micro64 = 0x3eb0_c6f7_a0b5_ed8d

abbrev pub milli64 : ℕ
milli64 = 0x3f50_624d_d2f1_a9fc

pub record TurboTrustRegion : Type 0 where
  pub length64 : ℕ  -- the field `length`
  pub failure_counter : ℕ
  pub success_counter : ℕ
  pub best_value : ℕ
  pub prev_num_obs : ℕ
  pub success_tolerance : ℕ
  pub failure_tolerance : Option ℕ
  pub num_dim : ℕ
  pub num_arms : Option ℕ
  pub config : LengthConfig
  pub hist_ymin : ℕ
  pub hist_ymax : ℕ
  pub failure_tolerance_dim : Option ℕ

unfoldable pub new_turbo : ℕ → LengthConfig → TurboTrustRegion
new_turbo dim lengths = record {
  length64 = lengths.length_init;
  failure_counter = 0;
  success_counter = 0;
  best_value = neg_infinity64;
  prev_num_obs = 0;
  success_tolerance = 3;
  failure_tolerance = none;
  num_dim = dim;
  num_arms = none;
  config = lengths;
  hist_ymin = infinity64;
  hist_ymax = neg_infinity64;
  failure_tolerance_dim = none;
}

abbrev pub unwrap_or : Option ℕ → ℕ → ℕ
unwrap_or none d = d
unwrap_or (some x) d = x

unfoldable pub restart : TurboTrustRegion → TurboTrustRegion
restart t = record t {
  length64 = t.config.length_init;
  failure_counter = 0;
  success_counter = 0;
  best_value = neg_infinity64;
  hist_ymin = infinity64;
  hist_ymax = neg_infinity64;
}

abbrev pub set_best_value : TurboTrustRegion → ℕ → TurboTrustRegion
set_best_value t value = record t { best_value = value }

abbrev pub set_prev_num_obs : TurboTrustRegion → ℕ → TurboTrustRegion
set_prev_num_obs t count = record t { prev_num_obs = count }

abbrev pub needs_restart : TurboTrustRegion → Bool
needs_restart t = f64_lt t.length64 t.config.length_min

module _ (f : F64) where
  -- `fold(f64::INFINITY, |a, &b| a.min(b))` and its like, from the value `a`.
  abbrev pub fold_min : ℕ → List ℕ → ℕ
  fold_min a [] = a
  fold_min a (b ∷ bs) = fold_min (f.min64 a b) bs

  abbrev pub fold_max : ℕ → List ℕ → ℕ
  fold_max a [] = a
  fold_max a (b ∷ bs) = fold_max (f.max64 a b) bs

  abbrev pub max_of : List ℕ → ℕ
  max_of ys = fold_max neg_infinity64 ys

  abbrev pub incorporate_hist : TurboTrustRegion → List ℕ → TurboTrustRegion
  incorporate_hist t ys = record t {
    hist_ymin = fold_min t.hist_ymin ys;
    hist_ymax = fold_max t.hist_ymax ys;
  }

  abbrev pub scale_from_hist : TurboTrustRegion → ℕ
  scale_from_hist t =
      if leb 2 t.prev_num_obs then f.max64 (f.sub t.hist_ymax t.hist_ymin) micro64 else 0

  -- The scale of the values before the batch, scanned as a whole.
  abbrev pub scale_of : List ℕ → ℕ
  scale_of ys =
      if leb 2 (length ys) then f.max64 (f.sub (max_of ys) (fold_min infinity64 ys)) micro64 else 0

  abbrev pub tolerance_of : TurboTrustRegion → ℕ → ℕ
  tolerance_of t arms =
      let eff_dim = unwrap_or t.failure_tolerance_dim (f.of_u64 t.num_dim) in
      let share = f.max64 (f.div four64 (f.of_u64 arms)) (f.div eff_dim (f.of_u64 arms)) in
      max (f.to_i32 (f.ceil share)) 1

  abbrev pub with_tolerance : TurboTrustRegion → Option ℕ → TurboTrustRegion
  with_tolerance t none = t
  with_tolerance t (some arms) = record t { failure_tolerance = some (tolerance_of t arms) }

  abbrev pub compute_failure_tolerance : TurboTrustRegion → TurboTrustRegion
  compute_failure_tolerance t = with_tolerance t t.num_arms

  abbrev pub set_failure_tolerance_dim : TurboTrustRegion → ℕ → TurboTrustRegion
  set_failure_tolerance_dim t dim =
      compute_failure_tolerance (record t { failure_tolerance_dim = some dim })

  abbrev pub set_num_arms : TurboTrustRegion → ℕ → TurboTrustRegion
  set_num_arms t arms = compute_failure_tolerance (record t { num_arms = some arms })

  -- The counters after a batch.
  abbrev pub count : TurboTrustRegion → Bool → TurboTrustRegion
  count t true = record t { success_counter = t.success_counter + 1; failure_counter = 0 }
  count t false = record t { failure_counter = t.failure_counter + 1; success_counter = 0 }

  -- The length after a batch.
  unfoldable pub adapt : TurboTrustRegion → TurboTrustRegion
  adapt t =
      if leb t.success_tolerance t.success_counter
      then record t {
        length64 = f.min64 (f.mul t.length64 two64) t.config.length_max;
        success_counter = 0;
      }
      else (if leb (unwrap_or t.failure_tolerance 4) t.failure_counter
          then record t { length64 = f.mul t.length64 half64; failure_counter = 0 }
          else t)

  abbrev pub is_improved : TurboTrustRegion → ℕ → ℕ → Bool
  is_improved t scale value = f64_lt (f.add t.best_value (f.mul milli64 scale)) value

  -- `update_with_incumbent_new_batch` once the arguments are checked, given the scale.
  unfoldable pub update_with_scale : ℕ → TurboTrustRegion → List ℕ → ℕ → TurboTrustRegion
  unfolding adapt
  update_with_scale scale t y_new incumbent =
      let n = t.prev_num_obs + length y_new in
      let adapted = adapt (count t (is_improved t scale incumbent)) in
      if not (is_finite64 t.best_value)
      then record (incorporate_hist (set_best_value t incumbent) y_new) { prev_num_obs = n }
      else record (incorporate_hist
          (record adapted { best_value = f.max64 adapted.best_value incumbent }) y_new) {
            prev_num_obs = n;
          }

  unfoldable pub update_with_incumbent_new_batch :
      TurboTrustRegion → List ℕ → ℕ → ℕ → Result TrustRegionError TurboTrustRegion
  unfolding update_with_scale
  update_with_incumbent_new_batch t y_new num_obs incumbent =
      if length y_new == 0
      then ok t
      else fail_if (not (num_obs == t.prev_num_obs + length y_new)) num_obs_mismatch
        >> ok (update_with_scale (scale_from_hist t) t y_new incumbent)

  unfoldable pub update_with_incumbent :
      TurboTrustRegion → List ℕ → ℕ → ℕ → Result TrustRegionError TurboTrustRegion
  unfolding update_with_incumbent_new_batch
  update_with_incumbent t y_all num_obs incumbent =
      let n = length y_all in
      if n == 0
      then ok t
      else (if n == t.prev_num_obs
          then ok t
          else fail_if (ltb n t.prev_num_obs) num_obs_backwards
            >> (fail_if (not (num_obs == n)) num_obs_mismatch
                >> update_with_incumbent_new_batch t (drop t.prev_num_obs y_all) num_obs incumbent))

  -- The rest of `update` once the arguments are checked.
  unfoldable pub update_all : TurboTrustRegion → List ℕ → TurboTrustRegion
  unfolding adapt
  update_all t y_all =
      let new_best = max_of (drop t.prev_num_obs y_all) in
      let improved = is_improved t (scale_of (take t.prev_num_obs y_all)) new_best in
      let counted = count t improved in
      let better =
        if improved
        then record counted { best_value = f.max64 t.best_value new_best }
        else counted in
      if not (is_finite64 t.best_value)
      then record t { best_value = max_of y_all; prev_num_obs = length y_all }
      else record (adapt better) { prev_num_obs = length y_all }

  unfoldable pub update : TurboTrustRegion → List ℕ → ℕ → Result TrustRegionError TurboTrustRegion
  unfolding update_all
  update t y_all num_obs =
      let n = length y_all in
      if n == 0
      then ok t
      else (if n == t.prev_num_obs
          then ok t
          else fail_if (ltb n t.prev_num_obs) num_obs_backwards
            >> (fail_if (not (num_obs == n)) num_obs_mismatch >> ok (update_all t y_all)))

  -- The rest of `update_scalar_incumbent`, whose history is as many zeros.
  unfoldable pub update_scalar : TurboTrustRegion → ℕ → ℕ → TurboTrustRegion
  unfolding adapt
  update_scalar t num_obs incumbent =
      let scale = scale_of (take t.prev_num_obs (replicate num_obs 0)) in
      let adapted = adapt (count t (is_improved t scale incumbent)) in
      if not (is_finite64 t.best_value)
      then record t { best_value = incumbent; prev_num_obs = num_obs }
      else record adapted {
        best_value = f.max64 adapted.best_value incumbent;
        prev_num_obs = num_obs;
      }

  unfoldable pub update_scalar_incumbent :
      TurboTrustRegion → ℕ → ℕ → Result TrustRegionError TurboTrustRegion
  unfolding update_scalar
  update_scalar_incumbent t num_obs incumbent =
      if num_obs == 0
      then ok t
      else (if num_obs == t.prev_num_obs
          then ok t
          else fail_if (ltb num_obs t.prev_num_obs) num_obs_backwards
            >> ok (update_scalar t num_obs incumbent))

  unfoldable pub turbo_bounds : TurboTrustRegion → List ℕ → Option (List ℕ) → List ℕ × List ℕ
  turbo_bounds t x_center none =
      bounds_row f x_center (replicate (length x_center) (f.div t.length64 two64))
  turbo_bounds t x_center (some ls) =
      bounds_row f x_center (map (λ l. f.div (f.mul l t.length64) two64) ls)

-- `NoTrustRegion`, which is its `num_dim`.
abbrev pub no_trust_region_bounds : ℕ → List ℕ × List ℕ
no_trust_region_bounds dim = (replicate dim 0, replicate dim one64)
