-- ===== src/Ennx/Tracker/Examples.antt =====
-- A tracker of the two best values, with noise, and rows with one metric.
use ennbo.Prelude.{ℕ, ◌≡◌, refl, true, false, some, All}
use ennbo.Prelude.{List, [], ◌∷◌}
use ennbo.Float64.{total_key, one64, two64}
use ennbo.Sort.{sort_by}
use ennbo.Ennx.Tracker.{
  IncrementalIncumbentTracker, new_tracker, ask, rebuild, entry_before, sorted_indices,
}
use ennbo.Ennx.Tracker.Spec.{Observation, IsRow, mode_of, candidates, tell_all}
use ennbo.Ennx.Tracker.Chosen.{IsAnswer, tracker_refines_candidates}
use ennbo.Ennx.Tracker.Rebuild.{numbered, rebuild_forgets}

abbrev four64 : ℕ
four64 = 0x4010_0000_0000_0000

abbrev fresh : IncrementalIncumbentTracker
fresh = record {
  m = 2;
  observation_count = 0;
  all_indices = [];
  max_y = 0xfff0_0000_0000_0000;
  max_indices = [];
  max_initialized = false;
  top_entries = [];
  per_metric_entries = [];
  use_all_candidates = false;
  use_noiseless_max = false;
  use_scalar_topm = true;
}

fresh_new : new_tracker 2 true 1 ≡ some fresh
unfolding new_tracker
fresh_new = refl

abbrev three_rows : List Observation
three_rows = (5, two64 ∷ []) ∷ ((7, one64 ∷ []) ∷ ((3, four64 ∷ []) ∷ []))

abbrev three_rows-IsRow : All (IsRow 1) three_rows
three_rows-IsRow = ((refl, (refl, tt)), ((refl, (refl, tt)), ((refl, (refl, tt)), tt)))

candidates_computed : candidates (mode_of 2 true 1) 2 1 three_rows ≡ 3 ∷ (5 ∷ [])
unfolding sorted_indices sort_by entry_before total_key
candidates_computed = refl

tracker_refines_candidates_example :
    (t' : IncrementalIncumbentTracker) × (tell_all fresh three_rows ≡ some t')
    × IsAnswer (mode_of 2 true 1) 2 1 three_rows (ask t')
tracker_refines_candidates_example =
    tracker_refines_candidates 2 true 1 fresh (5, two64 ∷ [])
      ((7, one64 ∷ []) ∷ ((3, four64 ∷ []) ∷ [])) fresh_new three_rows-IsRow

abbrev two_rows-IsRow : All (IsRow 1) (numbered 0 ((one64 ∷ []) ∷ ((two64 ∷ []) ∷ [])))
two_rows-IsRow = ((refl, (refl, tt)), ((refl, (refl, tt)), tt))

rebuild_forgets_example :
    (t' t'' : IncrementalIncumbentTracker) × (tell_all fresh three_rows ≡ some t')
    × (rebuild t' ((one64 ∷ []) ∷ ((two64 ∷ []) ∷ [])) ≡ some t'')
    × (ask t''
        ≡ candidates (mode_of 2 true 1) 2 1 (numbered 0 ((one64 ∷ []) ∷ ((two64 ∷ []) ∷ []))))
rebuild_forgets_example =
    rebuild_forgets 2 true 1 fresh three_rows (one64 ∷ []) ((two64 ∷ []) ∷ []) fresh_new
      three_rows-IsRow two_rows-IsRow
