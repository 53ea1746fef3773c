-- ===== src/Bpann/Tuning/Limits.antt =====
-- What a validated tuning guarantees, and how the search modes split the row counts.
use ennbo.Prelude.{ℕ, true, ◌≤◌, ◌<◌, ◌≡◌, refl, ◌↔◌, Option, none, some, arith}
use ennbo.Prelude.{ok}
use ennbo.Bpann.Tuning.{BpannTuning, validate, current_tuning, default_tuning}
use ennbo.Bpann.Tuning.{rows_need_skip_edges, use_exhaustive_search, use_skip_refinement_search}

-- The documented bounds on the fields.
pub record IsValid (t : BpannTuning) : Type 0 where
  pub compact_rows : 1 ≤ t.index_compact_rows_per_fragment
  pub compact_max : 3 ≤ t.index_compact_fragment_max
  pub search_rows : 1 ≤ t.search_rows_per_fragment
  pub merge_rows : 1 ≤ t.small_fragment_merge_rows
  pub budget : 1 ≤ t.search_fragment_budget_max
  pub soft : 1 ≤ t.pending_flush_threshold
  pub hard : t.pending_flush_threshold ≤ t.pending_hard_flush_threshold
  pub structured : 1 ≤ t.structured_build_row_limit
  pub beam : 1 ≤ t.search_beam_width
  pub exhaustive : 1 ≤ t.exhaustive_search_row_limit
  pub skip : t.exhaustive_search_row_limit ≤ t.skip_refinement_row_limit

-- `validate` accepts a tuning exactly when every field is within its documented bound and the
-- hard thresholds are not below the soft ones.
pub validate_iff-IsValid : (t : BpannTuning) → (validate t ≡ ok tt) ↔ IsValid t
unfolding validate
validate_iff-IsValid t = (λ h. ground arith, λ v. ground arith)

default-validate : validate default_tuning ≡ ok tt
unfolding validate
default-validate = refl

-- Whatever an installed provider returns, and with none installed, the tuning in force is
-- accepted by `validate`; an accepted snapshot of the provider is used as it is.
pub current_tuning-validate :
    (provider : Option BpannTuning)
    → (validate (current_tuning provider) ≡ ok tt)
      × ((t : BpannTuning) → provider ≡ some t → validate t ≡ ok tt → current_tuning provider ≡ t)
unfolding current_tuning
current_tuning-validate none = (ground (arith, default-validate), λ t e h. cc)
current_tuning-validate (some t) = (ground (arith, default-validate), λ u e h. ground arith)

-- For every tuning and row count exactly one search mode is taken: exhaustive, skip refinement,
-- or neither, and skip edges are stored at build time exactly when skip refinement would be used.
pub search_modes :
    (t : BpannTuning) (rows : ℕ)
    → (rows_need_skip_edges t rows ≡ use_skip_refinement_search t rows)
      × ((use_exhaustive_search t rows ≡ true) ↔ (rows ≤ t.exhaustive_search_row_limit))
      × ((use_skip_refinement_search t rows ≡ true)
          ↔ ((t.exhaustive_search_row_limit < rows) × (rows ≤ t.skip_refinement_row_limit)))
unfolding rows_need_skip_edges use_exhaustive_search use_skip_refinement_search
search_modes t rows =
    (ground arith, (λ h. ground arith, λ h. ground arith), (λ h. ground arith, λ h. ground arith))
