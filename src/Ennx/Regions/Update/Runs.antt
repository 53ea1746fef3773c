-- ===== src/Ennx/Regions/Update/Runs.antt =====
-- Runs of `tell` and `restart_region`.
use ennbo.Prelude.{ℕ, zero, suc, ◌+◌, ◌<◌, ◌≡◌, refl, sym, ap, ◌∙◌, arith, max}
use ennbo.Prelude.{Bool, true, Bool-cases, inl, inr, ◌⊎◌, ◌&&◌, ◌||◌, not, ◌==◌, ltb}
use ennbo.Prelude.{
  Option, none, some, Result, ok, err, ◌>>◌, ◌>>=◌, bind_parts, fail_if, passed, checked_value,
  ok_inj, Result-cases,
}
use ennbo.Prelude.{List, [], ◌∷◌, map, length, get_or, set, replicate}
use ennbo.Prelude.{All-set, length-set, length-replicate, All-replicate}
use ennbo.Float64.{F64, f64_lt, f64_le, is_finite64, neg_infinity64, one64}
use ennbo.Ennx.Regions.{
  MultiTrustRegionConfig, MultiTrustRegionState, TrustRegionError, initial_state, choose_centers,
  new_regions, sample_centers, restart_region, num_regions_zero, bad_exploration, bad_seed_distance,
  bad_centers, bad_batch, region_out_of_bounds, bad_center, ncols,
}
use ennbo.Ennx.Regions.Update.{tell, check_regions, update_regions}
use ennbo.Ennx.Regions.Update.Kept.{IsRegions, HasZero-left, flagged_restart}
use ennbo.Ennx.Regions.Update.Loop.{IsBetter, update_regions_kept}

module _ (f : F64) where
  tell_updated :
      (t t' : MultiTrustRegionState) (xs : List (List ℕ)) (ys : List ℕ) (regions : Option (List ℕ))
      → tell f t xs ys regions ≡ ok t'
      → (t' ≡ t) ⊎ (t' ≡ update_regions f t 0 t.num_regions xs ys regions)
  unfolding tell
  tell_updated t t' xs ys regions h =
      let updated = update_regions f t 0 t.num_regions xs ys regions in
      elim (Bool-cases (length xs == 0)) [
        | inl e ↦ inl (sym (ok_inj {E = TrustRegionError} t t' (rw e at h)))
        | inr e ↦
            let (_, h') =
              checked_value
                (fail_if (not (ncols xs == t.num_dim) || not (length ys == length xs)) bad_batch)
                (check_regions f t (length xs) regions >> ok updated) t' (rw e at h) in
            let (_, h'') =
              checked_value (check_regions f t (length xs) regions) (ok updated) t' h' in
            inr (sym (ok_inj {E = TrustRegionError} updated t' h''))
      ]

  -- From a well-formed state, a `tell` that succeeds leaves a well-formed state, in which the
  -- incumbent of every region is the same as before or a greater value.
  pub tell_improves :
      (t t' : MultiTrustRegionState) (xs : List (List ℕ)) (ys : List ℕ) (regions : Option (List ℕ))
      → IsRegions t
      → tell f t xs ys regions ≡ ok t'
      → IsRegions t' × ((r : ℕ) → IsBetter (get_or t.incumbents_y r 0) (get_or t'.incumbents_y r 0))
  tell_improves t t' xs ys regions w h = elim (tell_updated t t' xs ys regions h) [
    | inl same ↦ rw same (w, λ r. inl refl)
    | inr same ↦ rw same (update_regions_kept f xs ys regions t.num_regions t 0 (omega arith) w)
  ]

  restart_region-IsRegions :
      (t t' : MultiTrustRegionState) (r : ℕ) (center : List ℕ)
      → IsRegions t
      → restart_region f t r center ≡ ok t'
      → IsRegions t'
  unfolding restart_region
  restart_region-IsRegions t t' r center w h =
      let restarted : MultiTrustRegionState = record t {
        centers = set t.centers r (map (λ x. f.clamp01 x) center);
        lengths = set t.lengths r t.config.lengths.length_init;
        succ_counts = set t.succ_counts r 0;
        fail_counts = set t.fail_counts r 0;
        incumbents_y = set t.incumbents_y r neg_infinity64;
        active_mask = set t.active_mask r true;
        trial_counts = set t.trial_counts r 0;
        mean_y = set t.mean_y r 0;
        m2_y = set t.m2_y r 0;
      } in
      let (inside, h') =
        checked_value (fail_if (not (ltb r t.num_regions)) region_out_of_bounds)
          (fail_if (not (length center == t.num_dim)) bad_center >> ok restarted) t' h in
      let (_, h'') =
        checked_value (fail_if (not (length center == t.num_dim)) bad_center) (ok restarted) t'
          h' in
      let same : t' ≡ restarted = sym (ok_inj {E = TrustRegionError} restarted t' h'') in
      let below = passed (not (ltb r t.num_regions)) region_out_of_bounds inside in
      let within : r < length t.active_mask = (let m = w.counted.mask_sized in ground arith) in
      let in_fails : r < length t.fail_counts = (let m = w.counted.fail_sized in ground arith) in
      rw same record {
        counted = record {
          lengths_sized =
              length-set t.lengths r t.config.lengths.length_init ∙ w.counted.lengths_sized;
          succ_sized = length-set t.succ_counts r 0 ∙ w.counted.succ_sized;
          fail_sized = length-set t.fail_counts r 0 ∙ w.counted.fail_sized;
          mask_sized = length-set t.active_mask r true ∙ w.counted.mask_sized;
          succ_below =
              All-set (λ c. c < max 1 t.config.succ_tolerance) t.succ_counts r 0
                w.counted.succ_below (omega arith);
          fail_below =
              All-set (λ c. c < max 1 t.config.fail_tolerance) t.fail_counts r 0
                w.counted.fail_below (omega arith);
          one_zero = HasZero-left r 0 t.succ_counts t.fail_counts in_fails w.counted.one_zero;
          flagged =
              flagged_restart r t.config.lengths.length_init t.config.lengths.length_min
                t.active_mask t.lengths within w.counted.flagged;
        };
        observed = record {
          centers_sized =
              length-set t.centers r (map (λ x. f.clamp01 x) center) ∙ w.observed.centers_sized;
          incumbents_sized =
              length-set t.incumbents_y r neg_infinity64 ∙ w.observed.incumbents_sized;
          trials_sized = length-set t.trial_counts r 0 ∙ w.observed.trials_sized;
          means_sized = length-set t.mean_y r 0 ∙ w.observed.means_sized;
          m2_sized = length-set t.m2_y r 0 ∙ w.observed.m2_sized;
        };
      }

initial_state-IsRegions :
    (num_dim : ℕ) (config : MultiTrustRegionConfig) (centers : List (List ℕ))
    → length centers ≡ config.num_regions
    → IsRegions (initial_state num_dim config centers)
unfolding initial_state
initial_state-IsRegions num_dim config centers e =
    let n = config.num_regions in
    record {
      counted = record {
        lengths_sized = length-replicate n config.lengths.length_init;
        succ_sized = length-replicate n 0;
        fail_sized = length-replicate n 0;
        mask_sized = length-replicate n true;
        succ_below = All-replicate (λ c. c < max 1 config.succ_tolerance) n 0 (omega arith);
        fail_below = All-replicate (λ c. c < max 1 config.fail_tolerance) n 0 (omega arith);
        one_zero = λ r. inl (zeros n r);
        flagged = λ r off. let on = all_on n r in cc;
      };
      observed = record {
        centers_sized = e;
        incumbents_sized = length-replicate n neg_infinity64;
        trials_sized = length-replicate n 0;
        means_sized = length-replicate n 0;
        m2_sized = length-replicate n 0;
      };
    }
  where
    zeros : (n r : ℕ) → get_or {A = ℕ} (replicate n 0) r 0 ≡ 0
    zeros zero r = refl
    zeros (suc n) zero = refl
    zeros (suc n) (suc r) = zeros n r

    all_on : (n r : ℕ) → get_or {A = Bool} (replicate n true) r true ≡ true
    all_on zero r = refl
    all_on (suc n) zero = refl
    all_on (suc n) (suc r) = all_on n r

length-sample_centers :
    (random : ℕ → ℕ) (at count num_dim : ℕ)
    → length (sample_centers random at count num_dim) ≡ count
length-sample_centers random at zero num_dim = refl
length-sample_centers random at (suc count) num_dim =
    ap suc (length-sample_centers random (at + num_dim) count num_dim)

choose_centers_sized :
    (num_dim : ℕ) (config : MultiTrustRegionConfig) (initial_centers : Option (List (List ℕ)))
    (random : ℕ → ℕ) (centers : List (List ℕ))
    → choose_centers num_dim config initial_centers random ≡ ok centers
    → length centers ≡ config.num_regions
unfolding choose_centers
choose_centers_sized num_dim config none random centers h =
    let drawn = sample_centers random 0 config.num_regions num_dim in
    let same : drawn ≡ centers = ok_inj {E = TrustRegionError} drawn centers h in
    ap (λ cs. length {A = List ℕ} cs) (sym same)
    ∙ length-sample_centers random 0 config.num_regions num_dim
choose_centers_sized num_dim config (some init) random centers h =
    let bad = not (length init == config.num_regions) || not (ncols init == num_dim) in
    let (good, h') = checked_value (fail_if bad bad_centers) (ok init) centers h in
    let same : centers ≡ init = sym (ok_inj {E = TrustRegionError} init centers h') in
    let accepted = passed bad bad_centers good in rw same (ground arith)

new_regions-IsRegions :
    (num_dim : ℕ) (config : MultiTrustRegionConfig) (initial_centers : Option (List (List ℕ)))
    (random : ℕ → ℕ) (t : MultiTrustRegionState)
    → new_regions num_dim config initial_centers random ≡ ok t
    → IsRegions t
unfolding new_regions
new_regions-IsRegions num_dim config initial_centers random t h =
    let made = choose_centers num_dim config initial_centers random >>= λ centers.
    ok (initial_state num_dim config centers) in
    let seeds =
      fail_if
        (not (is_finite64 config.min_seed_distance)
          || not (f64_le 0 config.min_seed_distance && f64_le config.min_seed_distance one64))
        bad_seed_distance in
    let exploration =
      fail_if (not (is_finite64 config.exploration) || f64_lt config.exploration 0)
        bad_exploration in
    let (_, h1) =
      checked_value (fail_if (config.num_regions == 0) num_regions_zero)
        (exploration >> (seeds >> made)) t h in
    let (_, h2) = checked_value exploration (seeds >> made) t h1 in
    let (_, h3) = checked_value seeds made t h2 in
    let (centers, chosen, h4) =
      bind_parts (choose_centers num_dim config initial_centers random)
        (λ centers. ok (initial_state num_dim config centers)) h3 in
    let same : t ≡ initial_state num_dim config centers =
      sym (ok_inj {E = TrustRegionError} (initial_state num_dim config centers) t h4) in
    rw same (
      initial_state-IsRegions num_dim config centers
        (choose_centers_sized num_dim config initial_centers random centers chosen))

-- A call of `tell` or of `restart_region`; a call that fails changes nothing.
pub data Call : Type 0 where
  told : List (List ℕ) → List ℕ → Option (List ℕ) → Call
  restarted : ℕ → List ℕ → Call

abbrev pub after :
    MultiTrustRegionState → Result TrustRegionError MultiTrustRegionState → MultiTrustRegionState
after t (ok t') = t'
after t (err e) = t

unfoldable pub run : F64 → MultiTrustRegionState → List Call → MultiTrustRegionState
unfolding tell restart_region
run f t [] = t
run f t (told xs ys regions ∷ calls) = run f (after t (tell f t xs ys regions)) calls
run f t (restarted r center ∷ calls) = run f (after t (restart_region f t r center)) calls

run-IsRegions :
    (f : F64) (calls : List Call) (t : MultiTrustRegionState)
    → IsRegions t
    → IsRegions (run f t calls)
unfolding run
run-IsRegions f [] t w = w
run-IsRegions f (told xs ys regions ∷ calls) t w =
    run-IsRegions f calls (after t (tell f t xs ys regions))
      (elim (Result-cases (tell f t xs ys regions)) [
        | inl (t', e) ↦ rw e (tell_improves f t t' xs ys regions w e).0
        | inr (e', e) ↦ rw e w
      ])
run-IsRegions f (restarted r center ∷ calls) t w =
    run-IsRegions f calls (after t (restart_region f t r center))
      (elim (Result-cases (restart_region f t r center)) [
        | inl (t', e) ↦ rw e (restart_region-IsRegions f t t' r center w e)
        | inr (e', e) ↦ rw e w
      ])

-- From the regions that `new` makes, calls of `tell` and `restart_region` in any order, failed ones
-- included, lead to a well-formed state: every array has one element for each region, the counters
-- of successes and failures are below their tolerances (or 0 when a tolerance is not positive) and
-- one of the two of each region is 0, and a region that is not active is shorter than the least
-- length.
pub reached-IsRegions :
    (f : F64) (num_dim : ℕ) (config : MultiTrustRegionConfig)
    (initial_centers : Option (List (List ℕ))) (random : ℕ → ℕ) (t : MultiTrustRegionState)
    (calls : List Call)
    → new_regions num_dim config initial_centers random ≡ ok t
    → IsRegions (run f t calls)
reached-IsRegions f num_dim config initial_centers random t calls h =
    run-IsRegions f calls t (new_regions-IsRegions num_dim config initial_centers random t h)
