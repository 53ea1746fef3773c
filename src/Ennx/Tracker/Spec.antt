-- ===== src/Ennx/Tracker/Spec.antt =====
-- The abstract view of the tracker: the whole list of observations, from which the candidates are
-- computed anew.
use ennbo.Prelude.{ℕ, zero, suc, ◌+◌, ◌≤◌, ◌<◌, ◌≡◌, refl, sym, ap, ◌∙◌, arith, max}
use ennbo.Prelude.{Bool, true, false, Bool-cases, inl, inr, ◌==◌, leb}
use ennbo.Prelude.{Option, some, if◌then◌else◌, ◌>>?◌, get_elem?, get_or, All}
use ennbo.Prelude.{List, [], ◌∷◌, ◌++◌, map, length}
use ennbo.Float64.{is_nan64, order_key64}
use ennbo.Sort.{sort_indices}
use ennbo.Ennx.Tracker.{
  IncrementalIncumbentTracker, tell, tell_metrics, push_top_m, sorted_indices, union_entries,
  all_candidates_m_threshold,
}
use ennbo.Ennx.Tracker.TopM.{best, push_top_m-best}

-- An index and the row of its objective values.
abbrev pub Observation : Type 0
Observation = ℕ × List ℕ

abbrev pub column : ℕ → List Observation → List (ℕ × ℕ)
column col obs = map (λ (o : Observation). (o.0, get_or o.1 col 0)) obs

-- The greatest key of the values, and the indices of the values that have it.
abbrev pub best_key : List (ℕ × ℕ) → ℕ
best_key [] = 0
best_key (e ∷ es) = max (order_key64 e.1) (best_key es)

abbrev pub with_key : ℕ → List (ℕ × ℕ) → List ℕ
with_key key [] = []
with_key key (e ∷ es) = if order_key64 e.1 == key then e.0 ∷ with_key key es else with_key key es

abbrev pub maxima : List (ℕ × ℕ) → List ℕ
maxima entries = with_key (best_key entries) entries

-- The best `m` entries of each of the columns `col`, `col + 1`, ...
abbrev pub best_columns : ℕ → ℕ → ℕ → List Observation → List (List (ℕ × ℕ))
best_columns m col zero obs = []
best_columns m col (suc count) obs = best m (column col obs) ∷ best_columns m (suc col) count obs

-- How a tracker chooses, by the arguments of `new`.
pub data Mode : Type 0 where
  every noiseless scalar several : Mode

abbrev pub mode_of : ℕ → Bool → ℕ → Mode
mode_of m noise_aware num_metrics =
    if leb all_candidates_m_threshold m
    then every
    else (if num_metrics == 1 then (if noise_aware then scalar else noiseless) else several)

-- The candidates for the incumbent among all observations.
abbrev pub candidates : Mode → ℕ → ℕ → List Observation → List ℕ
candidates every m num_metrics obs = sort_indices (map (λ (o : Observation). o.0) obs)
candidates noiseless m num_metrics obs = sort_indices (maxima (column 0 obs))
candidates scalar m num_metrics obs = sorted_indices (best m (column 0 obs))
candidates several m num_metrics obs = union_entries (best_columns m 0 num_metrics obs) []

-- A row with a value for every metric, none of them NaN.
abbrev pub IsRow : ℕ → Observation → Type 0
IsRow num_metrics o = (length o.1 ≡ num_metrics) × All (λ v. is_nan64 v ≡ false) o.1

unfoldable pub tell_all :
    IncrementalIncumbentTracker → List Observation → Option IncrementalIncumbentTracker
unfolding tell
tell_all t [] = some t
tell_all t (o ∷ obs) = tell t o.0 o.1 >>? λ t'. tell_all t' obs

-- The greatest value of the entries and its indices, in the fields of the noiseless branch.
abbrev pub IsMaxOf : IncrementalIncumbentTracker → List (ℕ × ℕ) → Type 0
IsMaxOf t es =
    (t.max_initialized ≡ true)
    × (is_nan64 t.max_y ≡ false)
    × (order_key64 t.max_y ≡ best_key es)
    × (t.max_indices ≡ maxima es)

-- The same, or a fresh state when there are none.
abbrev pub IsMax : IncrementalIncumbentTracker → List (ℕ × ℕ) → Type 0
IsMax t [] = (t.max_initialized ≡ false) × (t.max_indices ≡ [])
IsMax t (e ∷ es) = IsMaxOf t (e ∷ es)

pub map-append {ℓ κ} :
    {A : Type ℓ} {B : Type κ} (f : A → B) (xs ys : List A) → map f (xs ++ ys) ≡ map f xs ++ map f ys
map-append f [] ys = refl
map-append f (x ∷ xs) ys = ap (λ t. f x ∷ t) (map-append f xs ys)

-- A read inside the row.
pub read_inside : (y : List ℕ) (col : ℕ) → col < length y → get_elem? y col ≡ some (get_or y col 0)
read_inside [] col h = ground arith
read_inside (v ∷ y) zero h = refl
read_inside (v ∷ y) (suc col) h = read_inside y col (omega arith)

pub best-column_step :
    (m index : ℕ) (y : List ℕ) (col : ℕ) (done : List Observation)
    → push_top_m (best m (column col done)) index (get_or y col 0) m
      ≡ best m (column col (done ++ ((index, y) ∷ [])))
best-column_step m index y col done =
    push_top_m-best m index (get_or y col 0) (column col done)
    ∙ ap (best m)
        (sym (map-append (λ (o : Observation). (o.0, get_or o.1 col 0)) done ((index, y) ∷ [])))

pub tell_metrics_step :
    (m col count index : ℕ) (y : List ℕ) (done : List Observation)
    → col + count ≤ length y
    → tell_metrics col (best_columns m col count done) index y m
      ≡ some (best_columns m col count (done ++ ((index, y) ∷ [])))
unfolding tell_metrics
tell_metrics_step m col zero index y done h = refl
tell_metrics_step m col (suc count) index y done h =
    rw
      (
        read_inside y col (omega arith),
        tell_metrics_step m (suc col) count index y done (omega arith),
        best-column_step m index y col done,
      )
      refl

pub with_key_above : (key : ℕ) (es : List (ℕ × ℕ)) → best_key es < key → with_key key es ≡ []
with_key_above key [] h = refl
with_key_above key (e ∷ es) h =
    let apart : (order_key64 e.1 == key) ≡ false = ground arith in
    rw (apart, with_key_above key es (omega arith)) refl

pub best_key-append :
    (es : List (ℕ × ℕ)) (e : ℕ × ℕ)
    → best_key (es ++ (e ∷ [])) ≡ max (best_key es) (order_key64 e.1)
best_key-append [] e = omega arith
best_key-append (d ∷ es) e = omega (arith, best_key-append es e)

pub with_key-append :
    (key : ℕ) (es : List (ℕ × ℕ)) (e : ℕ × ℕ)
    → with_key key (es ++ (e ∷ [])) ≡ with_key key es ++ with_key key (e ∷ [])
with_key-append key [] e = refl
with_key-append key (d ∷ es) e = elim (Bool-cases (order_key64 d.1 == key)) [
  | inl here ↦ rw here (ap (λ t. d.0 ∷ t) (with_key-append key es e))
  | inr other ↦ rw other (with_key-append key es e)
]
