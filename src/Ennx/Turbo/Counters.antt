-- ===== src/Ennx/Turbo/Counters.antt =====
-- The counters of a trust region in any run of its operations.
use ennbo.Prelude.{ℕ, ◌+◌, ◌<◌, ◌≡◌, refl, arith}
use ennbo.Prelude.{Bool, true, false, Bool-cases, inl, inr, ◌⊎◌, not, ◌==◌, ltb, leb}
use ennbo.Prelude.{Option, none, some, Result, ok, err, ◌>>◌, fail_if}
use ennbo.Prelude.{if◌then◌else◌, List, [], ◌∷◌, length, take, drop, replicate}
use ennbo.Float64.{F64, is_finite64}
use ennbo.Ennx.Regions.{TrustRegionError, LengthConfig, num_obs_mismatch, num_obs_backwards}
use ennbo.Ennx.Turbo.{
  TurboTrustRegion, new_turbo, restart, set_best_value, set_prev_num_obs, scale_from_hist,
  with_tolerance, set_failure_tolerance_dim, set_num_arms, count, adapt, is_improved,
  update_with_scale, update_with_incumbent_new_batch, update_with_incumbent, update_all, update,
  update_scalar, update_scalar_incumbent, max_of, scale_of, unwrap_or,
}

-- Fewer successes than it takes to grow, and one of the counters is zero.
pub record IsTurbo (t : TurboTrustRegion) : Type 0 where
  pub tolerance : t.success_tolerance ≡ 3
  pub successes : t.success_counter < 3
  pub one_zero : (t.success_counter ≡ 0) ⊎ (t.failure_counter ≡ 0)

abbrev IsCounted : TurboTrustRegion → Type 0
IsCounted t =
    (t.success_tolerance ≡ 3)
    × (t.success_counter < 4)
    × ((t.success_counter ≡ 0) ⊎ (t.failure_counter ≡ 0))

module _ (f : F64) where
  count-IsCounted : (t : TurboTrustRegion) (b : Bool) → IsTurbo t → IsCounted (count f t b)
  count-IsCounted t true w = (w.tolerance, omega (arith, w.successes), inr refl)
  count-IsCounted t false w = (w.tolerance, omega arith, inl refl)

  adapt-IsTurbo : (t : TurboTrustRegion) → IsCounted t → IsTurbo (adapt f t)
  unfolding adapt
  adapt-IsTurbo t (tolerance, most, zeros) =
      elim (Bool-cases (leb t.success_tolerance t.success_counter)) [
        | inl grown ↦
            rw grown record { tolerance = tolerance; successes = omega arith; one_zero = inl refl }
        | inr less ↦
            let few : t.success_counter < 3 = ground arith in
            elim (Bool-cases (leb (unwrap_or t.failure_tolerance 4) t.failure_counter)) [
              | inl shrunk ↦
                  rw (less, shrunk)
                    record { tolerance = tolerance; successes = few; one_zero = inr refl }
              | inr kept ↦
                  rw (less, kept)
                    record { tolerance = tolerance; successes = few; one_zero = zeros }
            ]
      ]

  count_adapt-IsTurbo :
      (t : TurboTrustRegion) (b : Bool) → IsTurbo t → IsTurbo (adapt f (count f t b))
  count_adapt-IsTurbo t b w = adapt-IsTurbo (count f t b) (count-IsCounted t b w)

  update_with_scale-IsTurbo :
      (scale : ℕ) (t : TurboTrustRegion) (ys : List ℕ) (incumbent : ℕ)
      → IsTurbo t
      → IsTurbo (update_with_scale f scale t ys incumbent)
  unfolding update_with_scale
  update_with_scale-IsTurbo scale t ys incumbent w =
      let w' = count_adapt-IsTurbo t (is_improved f t scale incumbent) w in
      elim (Bool-cases (is_finite64 t.best_value)) [
        | inl e ↦
            rw e
              record { tolerance = w'.tolerance; successes = w'.successes; one_zero = w'.one_zero }
        | inr e ↦
            rw e record { tolerance = w.tolerance; successes = w.successes; one_zero = w.one_zero }
      ]

  update_all-IsTurbo :
      (t : TurboTrustRegion) (ys : List ℕ) → IsTurbo t → IsTurbo (update_all f t ys)
  unfolding update_all
  update_all-IsTurbo t ys w =
      let new_best = max_of f (drop t.prev_num_obs ys) in
      let improved = is_improved f t (scale_of f (take t.prev_num_obs ys)) new_best in
      let w' = count-IsCounted t improved w in
      elim (Bool-cases (is_finite64 t.best_value)) [
        | inr e ↦
            rw e record { tolerance = w.tolerance; successes = w.successes; one_zero = w.one_zero }
        | inl e ↦ elim (Bool-cases improved) [
          | inl i ↦
              let counted = count-IsCounted t true w in
              let better : TurboTrustRegion = record (count f t true) {
                best_value = f.max64 t.best_value new_best;
              } in
              let v = adapt-IsTurbo better counted in
              rw (e, i)
                record { tolerance = v.tolerance; successes = v.successes; one_zero = v.one_zero }
          | inr i ↦
              let v = count_adapt-IsTurbo t false w in
              rw (e, i)
                record { tolerance = v.tolerance; successes = v.successes; one_zero = v.one_zero }
        ]
      ]

  update_scalar-IsTurbo :
      (t : TurboTrustRegion) (num_obs incumbent : ℕ)
      → IsTurbo t
      → IsTurbo (update_scalar f t num_obs incumbent)
  unfolding update_scalar
  update_scalar-IsTurbo t num_obs incumbent w =
      let scale = scale_of f (take t.prev_num_obs (replicate num_obs 0)) in
      let w' = count_adapt-IsTurbo t (is_improved f t scale incumbent) w in
      elim (Bool-cases (is_finite64 t.best_value)) [
        | inl e ↦
            rw e
              record { tolerance = w'.tolerance; successes = w'.successes; one_zero = w'.one_zero }
        | inr e ↦
            rw e record { tolerance = w.tolerance; successes = w.successes; one_zero = w.one_zero }
      ]

  with_tolerance-IsTurbo :
      (t : TurboTrustRegion) (arms : Option ℕ) → IsTurbo t → IsTurbo (with_tolerance f t arms)
  with_tolerance-IsTurbo t none w = w
  with_tolerance-IsTurbo t (some arms) w = record {
    tolerance = w.tolerance;
    successes = w.successes;
    one_zero = w.one_zero;
  }

-- The operations of a trust region; a call that fails changes nothing.
pub data TurboCall : Type 0 where
  new_batch : List ℕ → ℕ → ℕ → TurboCall
  with_incumbent : List ℕ → ℕ → ℕ → TurboCall
  all_values : List ℕ → ℕ → TurboCall
  scalar_incumbent : ℕ → ℕ → TurboCall
  arms_set dim_set best_set watermark_set : ℕ → TurboCall
  restarted : TurboCall

abbrev or_kept : TurboTrustRegion → Result TrustRegionError TurboTrustRegion → TurboTrustRegion
or_kept t (ok t') = t'
or_kept t (err e) = t

unfoldable step : F64 → TurboTrustRegion → TurboCall → TurboTrustRegion
unfolding update_with_incumbent_new_batch update_with_incumbent update update_scalar_incumbent
    restart
step f t (new_batch ys n incumbent) = or_kept t (update_with_incumbent_new_batch f t ys n incumbent)
step f t (with_incumbent ys n incumbent) = or_kept t (update_with_incumbent f t ys n incumbent)
step f t (all_values ys n) = or_kept t (update f t ys n)
step f t (scalar_incumbent n incumbent) = or_kept t (update_scalar_incumbent f t n incumbent)
step f t (arms_set arms) = set_num_arms f t arms
step f t (dim_set dim) = set_failure_tolerance_dim f t dim
step f t (best_set value) = set_best_value t value
step f t (watermark_set n) = set_prev_num_obs t n
step f t restarted = restart t

unfoldable pub run : F64 → TurboTrustRegion → List TurboCall → TurboTrustRegion
unfolding step
run f t [] = t
run f t (call ∷ calls) = run f (step f t call) calls

module _ (f : F64) (t : TurboTrustRegion) (w : IsTurbo t) where
  -- Checks and early returns before an update keep what the update keeps.
  kept_checked :
      (check : Result TrustRegionError (Unit {0})) (updated : TurboTrustRegion)
      → IsTurbo updated
      → IsTurbo (or_kept t (check >> ok updated))
  kept_checked (ok u) updated v = v
  kept_checked (err e) updated v = w

  kept_either :
      (b : Bool) (r : Result TrustRegionError TurboTrustRegion)
      → IsTurbo (or_kept t r)
      → IsTurbo (or_kept t (if b then ok t else r))
  kept_either true r v = w
  kept_either false r v = v

  kept_after :
      (check : Result TrustRegionError (Unit {0})) (r : Result TrustRegionError TurboTrustRegion)
      → IsTurbo (or_kept t r)
      → IsTurbo (or_kept t (check >> r))
  kept_after (ok u) r v = v
  kept_after (err e) r v = w

  new_batch-IsTurbo :
      (ys : List ℕ) (n incumbent : ℕ)
      → IsTurbo (or_kept t (update_with_incumbent_new_batch f t ys n incumbent))
  unfolding update_with_incumbent_new_batch
  new_batch-IsTurbo ys n incumbent = kept_either (length ys == 0) _ (
      kept_checked (fail_if (not (n == t.prev_num_obs + length ys)) num_obs_mismatch) _
        (update_with_scale-IsTurbo f (scale_from_hist f t) t ys incumbent w))

  with_incumbent-IsTurbo :
      (ys : List ℕ) (n incumbent : ℕ)
      → IsTurbo (or_kept t (update_with_incumbent f t ys n incumbent))
  unfolding update_with_incumbent
  with_incumbent-IsTurbo ys n incumbent = kept_either (length ys == 0) _ (
      kept_either (length ys == t.prev_num_obs) _ (
        kept_after (fail_if (ltb (length ys) t.prev_num_obs) num_obs_backwards) _ (
          kept_after (fail_if (not (n == length ys)) num_obs_mismatch) _
            (new_batch-IsTurbo (drop t.prev_num_obs ys) n incumbent))))

  all_values-IsTurbo : (ys : List ℕ) (n : ℕ) → IsTurbo (or_kept t (update f t ys n))
  unfolding update
  all_values-IsTurbo ys n = kept_either (length ys == 0) _ (
      kept_either (length ys == t.prev_num_obs) _ (
        kept_after (fail_if (ltb (length ys) t.prev_num_obs) num_obs_backwards) _ (
          kept_checked (fail_if (not (n == length ys)) num_obs_mismatch) _
            (update_all-IsTurbo f t ys w))))

  scalar-IsTurbo : (n incumbent : ℕ) → IsTurbo (or_kept t (update_scalar_incumbent f t n incumbent))
  unfolding update_scalar_incumbent
  scalar-IsTurbo n incumbent = kept_either (n == 0) _ (
      kept_either (n == t.prev_num_obs) _ (
        kept_checked (fail_if (ltb n t.prev_num_obs) num_obs_backwards) _
          (update_scalar-IsTurbo f t n incumbent w)))

  step-IsTurbo : (call : TurboCall) → IsTurbo (step f t call)
  unfolding step
  step-IsTurbo (new_batch ys n incumbent) = new_batch-IsTurbo ys n incumbent
  step-IsTurbo (with_incumbent ys n incumbent) = with_incumbent-IsTurbo ys n incumbent
  step-IsTurbo (all_values ys n) = all_values-IsTurbo ys n
  step-IsTurbo (scalar_incumbent n incumbent) = scalar-IsTurbo n incumbent
  step-IsTurbo (arms_set arms) =
      with_tolerance-IsTurbo f (record t { num_arms = some arms }) (some arms)
        record { tolerance = w.tolerance; successes = w.successes; one_zero = w.one_zero }
  step-IsTurbo (dim_set dim) =
      with_tolerance-IsTurbo f (record t { failure_tolerance_dim = some dim }) t.num_arms
        record { tolerance = w.tolerance; successes = w.successes; one_zero = w.one_zero }
  step-IsTurbo (best_set value) = record {
    tolerance = w.tolerance;
    successes = w.successes;
    one_zero = w.one_zero;
  }
  step-IsTurbo (watermark_set n) = record {
    tolerance = w.tolerance;
    successes = w.successes;
    one_zero = w.one_zero;
  }
  step-IsTurbo restarted = record {
    tolerance = w.tolerance;
    successes = omega arith;
    one_zero = inl refl;
  }

run-IsTurbo :
    (f : F64) (calls : List TurboCall) (t : TurboTrustRegion) → IsTurbo t → IsTurbo (run f t calls)
unfolding run
run-IsTurbo f [] t w = w
run-IsTurbo f (call ∷ calls) t w = run-IsTurbo f calls (step f t call) (step-IsTurbo f t w call)

-- In any run of the operations of a new trust region, failed calls included, it has seen fewer than
-- three successes since it last grew, and it never counts successes and failures at once.
pub reached-IsTurbo :
    (f : F64) (dim : ℕ) (lengths : LengthConfig) (calls : List TurboCall)
    → IsTurbo (run f (new_turbo dim lengths) calls)
unfolding new_turbo
reached-IsTurbo f dim lengths calls =
    run-IsTurbo f calls (new_turbo dim lengths)
      record { tolerance = refl; successes = omega arith; one_zero = inl refl }
