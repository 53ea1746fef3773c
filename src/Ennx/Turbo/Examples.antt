-- ===== src/Ennx/Turbo/Examples.antt =====
-- A trust region of two dimensions that is told two batches.
use ennbo.Prelude.{◌≡◌, refl, ok, List, [], ◌∷◌, length}
use ennbo.Ennx.Regions.{LengthConfig}
use ennbo.Ennx.Regions.Examples.{small}
use ennbo.Ennx.Turbo.{TurboTrustRegion, new_turbo, scale_from_hist, scale_of, update_with_scale}
use ennbo.Ennx.Turbo.History.{Batch, values_of, run_batches, scale_from_hist_scanned}
use ennbo.Ennx.Turbo.Counters.{
  TurboCall, new_batch, all_values, scalar_incumbent, arms_set, restarted, IsTurbo, run,
  reached-IsTurbo,
}

abbrev lengths : LengthConfig
lengths = record { length_init = 4; length_min = 2; length_max = 8 }

abbrev batches : List Batch
batches =
    record { y_new = 3 ∷ (5 ∷ []); num_obs = 2; incumbent = 5 }
    ∷ (record { y_new = 9 ∷ []; num_obs = 3; incumbent = 9 } ∷ [])

abbrev first : TurboTrustRegion
first =
    update_with_scale small (scale_from_hist small (new_turbo 2 lengths)) (new_turbo 2 lengths)
      (3 ∷ (5 ∷ [])) 5

abbrev second : TurboTrustRegion
second = update_with_scale small (scale_from_hist small first) first (9 ∷ []) 9

batches_run : run_batches small (new_turbo 2 lengths) batches ≡ ok second
unfolding run_batches new_turbo
batches_run = refl

scale_from_hist_scanned_example :
    (scale_from_hist small second ≡ scale_of small (values_of batches))
    × (second.prev_num_obs ≡ length (values_of batches))
scale_from_hist_scanned_example = scale_from_hist_scanned small 2 lengths batches second batches_run

abbrev calls : List TurboCall
calls =
    arms_set 2
    ∷ (new_batch (3 ∷ (5 ∷ [])) 2 5
        ∷ (all_values (3 ∷ []) 1 ∷ (scalar_incumbent 4 7 ∷ (restarted ∷ []))))

reached-IsTurbo_example : IsTurbo (run small (new_turbo 2 lengths) calls)
reached-IsTurbo_example = reached-IsTurbo small 2 lengths calls
