-- ===== src/Bpann/Sync/Compacted.antt =====
-- The compaction: it ends, keeps the rows of the fragments and leaves few of them.
use ennbo.Prelude.{ℕ, zero, suc, ◌+◌, ◌-◌, ◌<◌, ◌≤◌, min, max, ltb, arith}
use ennbo.Prelude.{◌≡◌, refl, sym, ap, ◌∙◌, Bool-cases, inl, inr}
use ennbo.Prelude.{List, [], ◌∷◌, ◌++◌, length, take, drop, All, All-take, length-take}
use ennbo.Prelude.{length-append, append_assoc, false, ok, range}
use ennbo.Bpann.Floats.{Floats}
use ennbo.Bpann.Tuning.{BpannTuning}
use ennbo.Bpann.Index.{BpannIndex, rows_of, concat_merge}
use ennbo.Bpann.Index.Closed.{IsIndex, append-All}
use ennbo.Bpann.Index.Merged.{all_rows, concat_merge_total}
use ennbo.Bpann.Sync.{
  IncrementalIndex, put_merged, replace_run, best_run, run_rank, amalgamate_smallest_run,
  compact_loop, usize_max,
}

-- The fragments are indices of the dimension, and hold the rows in their order.
pub record IsSynced (d : ℕ) (s : IncrementalIndex) : Type 0 where
  pub whole : All (IsIndex d) s.indices
  pub covered : all_rows s.indices ≡ range 0 s.synced_rows

pub all_rows-append : (xs ys : List BpannIndex) → all_rows (xs ++ ys) ≡ all_rows xs ++ all_rows ys
all_rows-append [] ys = refl
all_rows-append (x ∷ xs) ys =
    ap (λ t. rows_of x.pages ++ t) (all_rows-append xs ys)
    ∙ sym (append_assoc (rows_of x.pages) (all_rows xs) (all_rows ys))

All-drop {ℓ κ} : {A : Type ℓ} (P : A → Type κ) (n : ℕ) (xs : List A) → All P xs → All P (drop n xs)
All-drop P zero xs all = all
All-drop P (suc n) [] all = tt
All-drop P (suc n) (x ∷ xs) (here, there) = All-drop P n xs there

length-drop {ℓ} : {A : Type ℓ} (n : ℕ) (xs : List A) → length (drop n xs) ≡ length xs - n
length-drop zero xs = omega arith
length-drop (suc n) [] = omega arith
length-drop (suc n) (x ∷ xs) = omega (arith, length-drop n xs)

drop_sum {ℓ} : {A : Type ℓ} (i n k : ℕ) (xs : List A) → k ≡ i + n → drop k xs ≡ drop n (drop i xs)
drop_sum zero n k xs e = ap (λ m. drop m xs) (omega (arith, e))
drop_sum (suc i) n zero xs e = ground arith
drop_sum (suc i) zero (suc k) [] e = refl
drop_sum (suc i) (suc n) (suc k) [] e = refl
drop_sum (suc i) n (suc k) (x ∷ xs) e = drop_sum i n k xs (omega arith)

halves : (i : ℕ) (xs : List BpannIndex) → all_rows (take i xs) ++ all_rows (drop i xs) ≡ all_rows xs
halves zero xs = refl
halves (suc i) [] = refl
halves (suc i) (x ∷ xs) =
    append_assoc (rows_of x.pages) (all_rows (take i xs)) (all_rows (drop i xs))
    ∙ ap (λ t. rows_of x.pages ++ t) (halves i xs)

-- The rows before a run, those of the run, and those behind it.
rows_split :
    (i n : ℕ) (xs : List BpannIndex)
    → all_rows (take i xs) ++ (all_rows (take n (drop i xs)) ++ all_rows (drop (i + n) xs))
      ≡ all_rows xs
rows_split i n xs =
    ap (λ r. all_rows (take i xs) ++ (all_rows (take n (drop i xs)) ++ all_rows r))
      (drop_sum i n (i + n) xs refl)
    ∙ ap (λ r. all_rows (take i xs) ++ r) (halves n (drop i xs))
    ∙ halves i xs

-- The run that is found stands within the list.
best_run_bound :
    (limit merge_n : ℕ) (xs : List BpannIndex) (best_rows best_i i left bound : ℕ)
    → best_i ≤ bound
    → i + left ≤ bound + 1
    → best_run limit merge_n xs best_rows best_i i left ≤ bound
unfolding best_run
best_run_bound limit merge_n xs best_rows best_i i zero bound old room = old
best_run_bound limit merge_n xs best_rows best_i i (suc left) bound old room =
    elim (Bool-cases (ltb (run_rank limit (take merge_n (drop i xs))) best_rows)) [
      | inl better ↦ rw better (
          best_run_bound limit merge_n xs (run_rank limit (take merge_n (drop i xs))) i (i + 1) left
            bound (omega arith) (omega arith))
      | inr not_better ↦
          rw not_better
            (best_run_bound limit merge_n xs best_rows best_i (i + 1) left bound old (omega arith))
    ]

-- What a step of the compaction keeps.
pub record IsStep (d : ℕ) (s s' : IncrementalIndex) : Type 0 where
  pub synced : IsSynced d s'
  pub same_rows : s'.synced_rows ≡ s.synced_rows
  pub same_sum : s'.pending_centroid_sum ≡ s.pending_centroid_sum
  pub same_count : s'.pending_row_count ≡ s.pending_row_count

pub same-IsStep : (d : ℕ) (s : IncrementalIndex) → IsSynced d s → IsStep d s s
same-IsStep d s h = record { synced = h; same_rows = refl; same_sum = refl; same_count = refl }

pub IsStep-IsStep :
    (d : ℕ) (s s' s'' : IncrementalIndex) → IsStep d s s' → IsStep d s' s'' → IsStep d s s''
IsStep-IsStep d s s' s'' a b = record {
  synced = b.synced;
  same_rows = b.same_rows ∙ a.same_rows;
  same_sum = b.same_sum ∙ a.same_sum;
  same_count = b.same_count ∙ a.same_count;
}

module _ (f : Floats) (t : BpannTuning) (d : ℕ) where
  -- A run is merged into one fragment in its place.
  put_merged_total :
      (s : IncrementalIndex) (i n : ℕ)
      → IsSynced d s
      → 2 ≤ n
      → i + n ≤ length s.indices
      → (s' : IncrementalIndex) × (put_merged s i n (concat_merge f (take n (drop i s.indices)))
          ≡ (ok tt, s'))
        × IsStep d s s'
        × (length s'.indices + n ≡ length s.indices + 1)
  put_merged_total s i n h some_run inside =
      let xs = s.indices in
      let part = take n (drop i xs) in
      let fits : length part ≡ n = length-take n (drop i xs) ∙ omega (arith, length-drop i xs) in
      let good = All-take (IsIndex d) n (drop i xs) (All-drop (IsIndex d) i xs h.whole) in
      let (merged, e, w, rows) = concat_merge_total f d part (omega arith) good in
      (
        record s { indices = replace_run i n xs merged },
        rw e refl,
        record {
          synced = record {
            whole =
                append-All (IsIndex d) (take i xs) (merged ∷ drop (i + n) xs)
                  (All-take (IsIndex d) i xs h.whole) (w, All-drop (IsIndex d) (i + n) xs h.whole);
            covered =
                all_rows-append (take i xs) (merged ∷ drop (i + n) xs)
                ∙ ap (λ r. all_rows (take i xs) ++ (r ++ all_rows (drop (i + n) xs))) rows
                ∙ rows_split i n xs
                ∙ h.covered;
          };
          same_rows = refl;
          same_sum = refl;
          same_count = refl;
        },
        omega (
          arith,
          length-append (take i xs) (merged ∷ drop (i + n) xs),
          length-take i xs,
          length-drop (i + n) xs,
        ),
      )

  amalgamate_total :
      (s : IncrementalIndex) (n : ℕ)
      → IsSynced d s
      → 2 ≤ n
      → n ≤ length s.indices
      → (s' : IncrementalIndex) × (amalgamate_smallest_run f t s n ≡ (ok tt, s'))
        × IsStep d s s'
        × (length s'.indices + n ≡ length s.indices + 1)
  unfolding amalgamate_smallest_run
  amalgamate_total s n h some_run inside =
      let m = min n (length s.indices) in
      let whole : m ≡ n = omega arith in
      let many : ltb (length s.indices) 2 ≡ false = ground arith in
      let chosen =
        best_run t.small_fragment_merge_rows m s.indices usize_max 0 0 (length s.indices - m + 1) in
      let best : chosen ≤ length s.indices - m =
        best_run_bound t.small_fragment_merge_rows m s.indices usize_max 0 0
          (length s.indices - m + 1) (length s.indices - m) (omega arith) (omega arith) in
      let (s', e, step, size) = put_merged_total s chosen m h (omega arith) (omega (arith, best)) in
      (s', rw many e, step, omega (arith, size))

  -- The loop ends with as many fragments as allowed, or with those that it was given.
  pub compact_loop_total :
      (fuel max_fragments : ℕ) (s : IncrementalIndex)
      → IsSynced d s
      → 1 ≤ max_fragments
      → length s.indices ≤ fuel
      → (s' : IncrementalIndex) × (compact_loop f t fuel max_fragments s ≡ (ok tt, s'))
        × IsStep d s s'
        × (length s'.indices ≡ min (length s.indices) max_fragments)
  unfolding compact_loop
  compact_loop_total zero m s h some_max enough = (s, refl, same-IsStep d s h, omega arith)
  compact_loop_total (suc fuel) m s h some_max enough =
      elim (Bool-cases (ltb m (length s.indices))) [
        | inr few ↦ (s, rw few refl, same-IsStep d s h, ground arith)
        | inl many ↦
            let over : m < length s.indices = ground arith in
            let count = length s.indices in
            let n = min (min (max (count - m) 2) 4) count in
            let two : 2 ≤ n = omega arith in
            let fits : n ≤ count = omega arith in
            let small : n ≤ count - m + 1 = omega arith in
            let (s1, e, step, size) = amalgamate_total s n h two fits in
            let (s2, e', step', size') =
              compact_loop_total fuel m s1 step.synced some_max (omega arith) in
            (s2, rw (many, e) e', IsStep-IsStep d s s1 s2 step step', omega arith)
      ]
