-- ===== src/Bpann/Tuning.antt =====
-- rust/crates/bpann/src/tuning.rs: the tunable parameters, their validation and the search modes.
pub mod Limits
mod Examples
use ennbo.Prelude.{ℕ, Bool, true, false, ◌&&◌, not, Option, none, some, List, [], ◌∷◌}
use ennbo.Prelude.{ltb, leb, ◌==◌, if◌then◌else◌, Result, ok, err}

pub record BpannTuning : Type 0 where
  pub index_compact_rows_per_fragment : ℕ
  pub index_compact_fragment_max : ℕ
  pub search_rows_per_fragment : ℕ
  pub small_fragment_merge_rows : ℕ
  pub search_fragment_budget_max : ℕ
  pub build_seed : Option ℕ
  pub pending_flush_threshold : ℕ
  pub pending_hard_flush_threshold : ℕ
  pub structured_build_row_limit : ℕ
  pub search_beam_width : ℕ
  pub exhaustive_search_row_limit : ℕ
  pub skip_refinement_row_limit : ℕ

abbrev pub index_compact_fragment_max_min : ℕ
index_compact_fragment_max_min = 3

abbrev pub default_pending_flush_threshold : ℕ
default_pending_flush_threshold = 250

abbrev pub default_pending_hard_flush_threshold : ℕ
default_pending_hard_flush_threshold = 3000

abbrev pub default_exhaustive_search_row_limit : ℕ
default_exhaustive_search_row_limit = 2500

abbrev pub default_skip_refinement_row_limit : ℕ
default_skip_refinement_row_limit = 150_000

abbrev pub default_structured_build_row_limit : ℕ
default_structured_build_row_limit = 1024

-- `impl Default for BpannTuning`
abbrev pub default_tuning : BpannTuning
default_tuning = record {
  index_compact_rows_per_fragment = 10_000;
  index_compact_fragment_max = 32;
  search_rows_per_fragment = 80_000;
  small_fragment_merge_rows = 15_000;
  search_fragment_budget_max = 1;
  build_seed = none;
  pending_flush_threshold = default_pending_flush_threshold;
  pending_hard_flush_threshold = default_pending_hard_flush_threshold;
  structured_build_row_limit = default_structured_build_row_limit;
  search_beam_width = 1;
  exhaustive_search_row_limit = default_exhaustive_search_row_limit;
  skip_refinement_row_limit = default_skip_refinement_row_limit;
}

-- The message of each check, in the order of the checks.
pub data TuningError : Type 0 where
  compact_rows_zero compact_fragment_max_small search_rows_zero merge_rows_zero : TuningError
  budget_zero flush_zero hard_flush_zero hard_flush_below_soft : TuningError
  structured_limit_zero beam_zero exhaustive_limit_zero skip_limit_below : TuningError

-- The array `checks`: each test with the message of its violation.
unfoldable pub checks : BpannTuning → List (Bool × TuningError)
checks t =
    (t.index_compact_rows_per_fragment == 0, compact_rows_zero)
    ∷ (ltb t.index_compact_fragment_max index_compact_fragment_max_min, compact_fragment_max_small)
    ∷ (t.search_rows_per_fragment == 0, search_rows_zero)
    ∷ (t.small_fragment_merge_rows == 0, merge_rows_zero)
    ∷ (t.search_fragment_budget_max == 0, budget_zero)
    ∷ (t.pending_flush_threshold == 0, flush_zero)
    ∷ (t.pending_hard_flush_threshold == 0, hard_flush_zero)
    ∷ (ltb t.pending_hard_flush_threshold t.pending_flush_threshold, hard_flush_below_soft)
    ∷ (t.structured_build_row_limit == 0, structured_limit_zero)
    ∷ (t.search_beam_width == 0, beam_zero)
    ∷ (t.exhaustive_search_row_limit == 0, exhaustive_limit_zero)
    ∷ (ltb t.skip_refinement_row_limit t.exhaustive_search_row_limit, skip_limit_below)
    ∷ []

-- The loop over `checks`: the first violation is returned.
unfoldable pub first_violation : List (Bool × TuningError) → Result TuningError (Unit {0})
first_violation [] = ok tt
first_violation ((invalid, message) ∷ rest) = if invalid then err message else first_violation rest

unfoldable pub validate : BpannTuning → Result TuningError (Unit {0})
unfolding checks first_violation
validate t = first_violation (checks t)

unfoldable pub rows_need_skip_edges : BpannTuning → ℕ → Bool
rows_need_skip_edges t row_count =
    ltb t.exhaustive_search_row_limit row_count && leb row_count t.skip_refinement_row_limit

unfoldable pub use_exhaustive_search : BpannTuning → ℕ → Bool
use_exhaustive_search t rows = leb rows t.exhaustive_search_row_limit

unfoldable pub use_skip_refinement_search : BpannTuning → ℕ → Bool
unfolding use_exhaustive_search
use_skip_refinement_search t rows =
    not (use_exhaustive_search t rows) && leb rows t.skip_refinement_row_limit

-- `result.is_ok()`
abbrev pub is_ok : Result TuningError (Unit {0}) → Bool
is_ok (ok _) = true
is_ok (err _) = false

-- The installed provider, if any, is the snapshot that it would return.
unfoldable pub current_tuning : Option BpannTuning → BpannTuning
current_tuning provider =
    let tuning : BpannTuning = elim provider [ some t ↦ t | none ↦ default_tuning ] in
    if is_ok (validate tuning) then tuning else default_tuning
