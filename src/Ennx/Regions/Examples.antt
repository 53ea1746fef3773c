-- ===== src/Ennx/Regions/Examples.antt =====
-- Two regions in one dimension. The stand-in for the arithmetic computes with small bit patterns as
-- with numbers.
use ennbo.Prelude.{ℕ, ◌+◌, ◌-◌, ◌*◌, ◌/◌, ◌<◌, ◌≡◌, refl, arith, min, max, true, get_or}
use ennbo.Prelude.{none, some, ok, List, [], ◌∷◌, length, take, AreDistinct, All}
use mathlib.Core.List.{Perm}
use ennbo.Sort.Ranked.{AreRanked}
use ennbo.Float64.{F64, f64_lt, f64_le, neg_infinity64}
use ennbo.Ennx.Regions.{
  MultiTrustRegionConfig, MultiTrustRegionState, RegionBatch, RegionCandidate, new_config,
  new_regions, active_regions,
}
use ennbo.Ennx.Regions.Allocation.{allocate_with}
use ennbo.Ennx.Regions.Allocation.Covers.{IsAllocation, allocate_with_covers}
use ennbo.Ennx.Regions.Selection.{select, seed_distance, indices_of}
use ennbo.Ennx.Regions.Selection.Chosen.{IsPreferred, select_best, select_full}
use ennbo.Ennx.Regions.Update.{tell, update_regions}
use ennbo.Ennx.Regions.Update.Kept.{IsRegions}
use ennbo.Ennx.Regions.Update.Loop.{IsBetter}
use ennbo.Ennx.Regions.Update.Runs.{Call, told, restarted, run, tell_improves, reached-IsRegions}

abbrev pub small : F64
small = record {
  of_u64 = λ n. n;
  to_i32 = λ n. n;
  add = λ x y. x + y;
  sub = λ x y. x - y;
  mul = λ x y. x * y;
  div = λ x y. x / y;
  min64 = λ x y. min x y;
  max64 = λ x y. max x y;
  clamp01 = λ x. x;
  sqrt = λ x. x;
  ln = λ x. x;
  ceil = λ x. x;
  cos = λ x. x;
  clamp = λ x least greatest. x;
  square = λ x. x * x;
  sum = λ xs. length xs;
  mean = λ x xs. x;
}

abbrev config : MultiTrustRegionConfig
config = record (new_config 2 (record { length_init = 4; length_min = 2; length_max = 8 })) {
  exploration = 1;
}

abbrev two_regions : MultiTrustRegionState
two_regions = record {
  num_regions = 2;
  num_dim = 1;
  centers = (3 ∷ []) ∷ ((6 ∷ []) ∷ []);
  lengths = 4 ∷ (4 ∷ []);
  incumbents_y = neg_infinity64 ∷ (neg_infinity64 ∷ []);
  succ_counts = 0 ∷ (0 ∷ []);
  fail_counts = 0 ∷ (0 ∷ []);
  active_mask = true ∷ (true ∷ []);
  trial_counts = 0 ∷ (0 ∷ []);
  mean_y = 0 ∷ (0 ∷ []);
  m2_y = 0 ∷ (0 ∷ []);
  config = config;
}

two_regions_new : new_regions 1 config (some ((3 ∷ []) ∷ ((6 ∷ []) ∷ []))) (λ n. n) ≡ ok two_regions
unfolding new_regions f64_lt f64_le
two_regions_new = refl

abbrev calls : List Call
calls =
    told ((3 ∷ []) ∷ []) (5 ∷ []) none
    ∷ (restarted 7 [] ∷ (told ((9 ∷ []) ∷ []) (4 ∷ []) none ∷ []))

reached-IsRegions_example : IsRegions (run small two_regions calls)
reached-IsRegions_example =
    reached-IsRegions small 1 config (some ((3 ∷ []) ∷ ((6 ∷ []) ∷ []))) (λ n. n) two_regions calls
      two_regions_new

two_regions-IsRegions : IsRegions two_regions
unfolding run
two_regions-IsRegions =
    reached-IsRegions small 1 config (some ((3 ∷ []) ∷ ((6 ∷ []) ∷ []))) (λ n. n) two_regions []
      two_regions_new

abbrev told_regions : MultiTrustRegionState
told_regions = update_regions small two_regions 0 2 ((3 ∷ []) ∷ []) (5 ∷ []) none

told_once : tell small two_regions ((3 ∷ []) ∷ []) (5 ∷ []) none ≡ ok told_regions
unfolding tell
told_once = refl

tell_improves_example :
    IsRegions told_regions
    × ((r : ℕ)
        → IsBetter (get_or two_regions.incumbents_y r 0) (get_or told_regions.incumbents_y r 0))
tell_improves_example =
    tell_improves small two_regions told_regions ((3 ∷ []) ∷ []) (5 ∷ []) none two_regions-IsRegions
      told_once

allocate_with_covers_example :
    (batches : List RegionBatch) × (allocate_with small two_regions (1 ∷ (2 ∷ [])) 5 ≡ ok batches)
    × IsAllocation two_regions.active_mask
        (length (active_regions 0 two_regions.active_mask))
        5
        batches
allocate_with_covers_example =
    allocate_with_covers small two_regions (1 ∷ (2 ∷ [])) 5 refl (omega arith) refl refl
      (omega arith)

abbrev candidates : List RegionCandidate
candidates =
    record { index = 4; region = 0; seed = 1; score = 8 }
    ∷ (record { index = 2; region = 1; seed = 7; score = 9 }
        ∷ (record { index = 3; region = 1; seed = 0; score = 9 } ∷ []))

select_full_example :
    (selected : List RegionCandidate) × (select small two_regions candidates 2 ≡ ok selected)
    × (length selected ≡ 2)
    × AreDistinct (indices_of selected)
    × All (λ (c : RegionCandidate). 7 < c.score) selected
select_full_example =
    select_full small two_regions (λ (c : RegionCandidate). 7 < c.score) candidates 2 (omega arith)
      (omega arith) refl (refl, (refl, (refl, tt))) (omega arith, (omega arith, (omega arith, tt)))

-- An arithmetic whose quotients are 0, the minimum distance.
abbrev no_quotients : F64
no_quotients = record small { div = λ x y. 0 }

every_apart : (a b : ℕ) → seed_distance no_quotients two_regions a b ≡ true
unfolding seed_distance f64_le
every_apart a b = refl

select_best_example :
    (ranked : List RegionCandidate) × Perm ranked candidates
    × AreRanked IsPreferred ranked
    × (select no_quotients two_regions candidates 2 ≡ ok (take 2 ranked))
select_best_example =
    select_best no_quotients two_regions every_apart candidates 2 (omega arith) (omega arith) refl
