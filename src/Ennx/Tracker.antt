-- ===== src/Ennx/Tracker.antt =====
-- rust/crates/ennx/src/incumbent_tracker.rs: the candidates for the incumbent, kept up to date with
-- every observation. A failed assertion or an index out of range, where the code panics, is `none`.
pub mod TopM
pub mod Spec
pub mod Maximum
pub mod Refine
pub mod Answers
pub mod Chosen
pub mod Rebuild
pub mod Examples
use ennbo.Prelude.{◌>>?◌}
use ennbo.Prelude.{ℕ, zero, suc, ◌+◌, ◌-◌, Bool, true, false, ◌&&◌, ◌||◌, not, Option, none, some}
use ennbo.Prelude.{List, [], ◌∷◌, ◌++◌, map, length, take, get_elem?, ◌==◌, ltb, leb, max}
use ennbo.Prelude.{if◌then◌else◌, replicate}
use ennbo.Float64.{f64_lt, f64_eq, neg_infinity64, total_key}
use ennbo.Sort.{sort_by, sort_indices, insert_sorted}

abbrev pub all_candidates_m_threshold : ℕ
all_candidates_m_threshold = 1_000_000_000

pub record IncrementalIncumbentTracker : Type 0 where
  pub m : ℕ
  pub observation_count : ℕ
  pub all_indices : List ℕ
  pub max_y : ℕ
  pub max_indices : List ℕ
  pub max_initialized : Bool
  pub top_entries : List (ℕ × ℕ)
  pub per_metric_entries : List (List (ℕ × ℕ))
  pub use_all_candidates : Bool
  pub use_noiseless_max : Bool
  pub use_scalar_topm : Bool

-- `IncrementalIncrementalIncumbentTracker::new`
unfoldable pub new_tracker : ℕ → Bool → ℕ → Option IncrementalIncumbentTracker
new_tracker m noise_aware num_metrics =
    let every = leb all_candidates_m_threshold m in
    if m == 0 || num_metrics == 0
    then none
    else some (record {
      m = m;
      observation_count = 0;
      all_indices = [];
      max_y = neg_infinity64;
      max_indices = [];
      max_initialized = false;
      top_entries = [];
      per_metric_entries = if not every && ltb 1 num_metrics then replicate num_metrics [] else [];
      use_all_candidates = every;
      use_noiseless_max = not every && (num_metrics == 1) && not noise_aware;
      use_scalar_topm = not every && (num_metrics == 1) && noise_aware;
    })

-- `vb.total_cmp(&va).then_with(|| ia.cmp(&ib))` is `Less`.
unfoldable pub entry_before : ℕ × ℕ → ℕ × ℕ → Bool
entry_before (ia, va) (ib, vb) =
    ltb (total_key vb) (total_key va) || ((total_key va == total_key vb) && ltb ia ib)

unfoldable pub push_top_m : List (ℕ × ℕ) → ℕ → ℕ → ℕ → List (ℕ × ℕ)
push_top_m entries index value m = take m (sort_by entry_before (entries ++ ((index, value) ∷ [])))

unfoldable pub sorted_indices : List (ℕ × ℕ) → List ℕ
sorted_indices entries = sort_indices (map (λ e. e.0) entries)

-- The noiseless branch of `tell`.
unfoldable pub tell_max : IncrementalIncumbentTracker → ℕ → ℕ → IncrementalIncumbentTracker
tell_max t index value =
    if not t.max_initialized || f64_lt t.max_y value
    then record t { max_y = value; max_indices = index ∷ []; max_initialized = true }
    else (if f64_eq value t.max_y
        then record t { max_indices = t.max_indices ++ (index ∷ []) }
        else t)

-- `for (col, entries) in self.per_metric_entries.iter_mut().enumerate()`
unfoldable pub tell_metrics :
    ℕ → List (List (ℕ × ℕ)) → ℕ → List ℕ → ℕ → Option (List (List (ℕ × ℕ)))
unfolding push_top_m
tell_metrics col [] index y m = some []
tell_metrics col (entries ∷ rest) index y m = get_elem? y col >>? λ value.
    tell_metrics (suc col) rest index y m >>? λ rest'.
    some (push_top_m entries index value m ∷ rest')

abbrev pub counted : IncrementalIncumbentTracker → IncrementalIncumbentTracker
counted t = record t { observation_count = t.observation_count + 1 }

unfoldable pub tell : IncrementalIncumbentTracker → ℕ → List ℕ → Option IncrementalIncumbentTracker
unfolding tell_max push_top_m tell_metrics
tell t index y =
    if t.use_all_candidates
    then some (record (counted t) { all_indices = t.all_indices ++ (index ∷ []) })
    else (if t.use_noiseless_max
        then (get_elem? y 0 >>? λ value. some (tell_max (counted t) index value))
        else (if t.use_scalar_topm
            then (get_elem? y 0 >>? λ value.
                some
                  (record (counted t) { top_entries = push_top_m t.top_entries index value t.m }))
            else (tell_metrics 0 t.per_metric_entries index y t.m >>? λ entries.
                some (record (counted t) { per_metric_entries = entries }))))

-- `BTreeSet::insert` on the sorted list of the set.
unfoldable pub set_insert : ℕ → List ℕ → List ℕ
set_insert x [] = x ∷ []
set_insert x (y ∷ ys) =
    let later = set_insert x ys in
    if ltb x y then x ∷ (y ∷ ys) else (if x == y then y ∷ ys else y ∷ later)

unfoldable pub set_insert_all : List ℕ → List ℕ → List ℕ
unfolding set_insert
set_insert_all [] union = union
set_insert_all (x ∷ xs) union = set_insert_all xs (set_insert x union)

unfoldable pub union_entries : List (List (ℕ × ℕ)) → List ℕ → List ℕ
unfolding set_insert_all sorted_indices
union_entries [] union = union
union_entries (entries ∷ rest) union =
    union_entries rest (set_insert_all (sorted_indices entries) union)

unfoldable pub ask : IncrementalIncumbentTracker → List ℕ
unfolding sorted_indices union_entries
ask t =
    if t.observation_count == 0
    then []
    else (if t.use_all_candidates
        then sort_indices t.all_indices
        else (if t.use_noiseless_max
            then sort_indices t.max_indices
            else (if t.use_scalar_topm
                then sorted_indices t.top_entries
                else union_entries t.per_metric_entries [])))

unfoldable pub reset : IncrementalIncumbentTracker → IncrementalIncumbentTracker
reset t = record t {
  observation_count = 0;
  all_indices = [];
  max_y = neg_infinity64;
  max_indices = [];
  max_initialized = false;
  top_entries = [];
  per_metric_entries = map (λ entries. []) t.per_metric_entries;
}

-- The loop of `rebuild`, from row `i`.
unfoldable pub tell_rows :
    IncrementalIncumbentTracker → ℕ → List (List ℕ) → Option IncrementalIncumbentTracker
tell_rows t i [] = some t
tell_rows t i (row ∷ rows) = tell t i row >>? λ t'. tell_rows t' (suc i) rows

unfoldable pub rebuild :
    IncrementalIncumbentTracker → List (List ℕ) → Option IncrementalIncumbentTracker
unfolding reset tell_rows
rebuild t rows = tell_rows (reset t) 0 rows

-- `k.max(1) as usize`, for a `k` that is not negative.
abbrev pub tracker_m_from_enn_k : ℕ → ℕ
tracker_m_from_enn_k k = max k 1

abbrev pub tracker_m_no_surrogate : ℕ
tracker_m_no_surrogate = all_candidates_m_threshold + 1
