-- ===== src/Ennx/Hash/Direct.antt =====
-- The variates of a batch without the cache of unique indices.
use native.Mathlib.Nat.{mul-le-mul_right}
use ennbo.Prelude.{ℕ, zero, suc, ◌+◌, ◌*◌, ◌≤◌, ◌<◌, ◌≡◌, refl, ap, ap₂, ◌∙◌, arith}
use ennbo.Prelude.{range}
use ennbo.Prelude.{false, ◌==◌, ok}
use ennbo.Prelude.{List, [], ◌∷◌, ◌++◌, map, length, take, drop, get_or, All}
use ennbo.Prelude.{take-append}
use ennbo.Float64.{F64}
use ennbo.Ennx.Hash.{
  metric_values, normal_for_seed_index_metric, fill_cache, copy_slices, fill_seeds,
  normal_hash_batch_multi_seed_fast, as_u64,
}
use ennbo.Ennx.Hash.Inverse.{unique_index_inverse_read}

module _ (f : F64) where
  -- The variates of a seed and index for the metrics `metric`, `metric + 1`, ...
  abbrev pub index_values : ℕ → ℕ → List ℕ → List ℕ
  index_values seed idx metrics =
      map (λ (metric : ℕ). normal_for_seed_index_metric f seed idx metric) metrics

  metric_values_each :
      (seed idx metric count : ℕ)
      → metric_values f seed idx metric count ≡ index_values seed idx (range metric count)
  unfolding metric_values
  metric_values_each seed idx metric zero = refl
  metric_values_each seed idx metric (suc count) =
      let next : suc metric ≡ metric + 1 = omega arith in
      ap (λ t. normal_for_seed_index_metric f seed idx metric ∷ t)
        (metric_values_each seed idx (suc metric) count
          ∙ ap (λ m. index_values seed idx (range m count)) next)

  -- The variates of a seed for each index and metric in turn, and those of all the seeds.
  abbrev pub seed_values : ℕ → List ℕ → ℕ → List ℕ
  seed_values seed [] num_metrics = []
  seed_values seed (idx ∷ indices) num_metrics =
      index_values (as_u64 seed) idx (range 0 num_metrics) ++ seed_values seed indices num_metrics

  abbrev pub direct_values : List ℕ → List ℕ → ℕ → List ℕ
  direct_values [] indices num_metrics = []
  direct_values (seed ∷ seeds) indices num_metrics =
      seed_values seed indices num_metrics ++ direct_values seeds indices num_metrics

  length-metric_values :
      (seed idx metric count : ℕ) → length (metric_values f seed idx metric count) ≡ count
  unfolding metric_values
  length-metric_values seed idx metric zero = refl
  length-metric_values seed idx metric (suc count) =
      ap suc (length-metric_values seed idx (suc metric) count)

  take_block : (n : ℕ) (xs ys : List ℕ) → length xs ≡ n → take n (xs ++ ys) ≡ xs
  take_block n xs ys e = rw⁻¹ e (take-append xs ys)

  drop_more : (n k : ℕ) (xs ys : List ℕ) → length xs ≡ n → drop (n + k) (xs ++ ys) ≡ drop k ys
  drop_more n k [] ys e = ap (λ i. drop i ys) (omega arith)
  drop_more n k (x ∷ xs) ys e =
      let count : n + k ≡ suc (length xs + k) = omega arith in
      rw count (drop_more (length xs) k xs ys refl)

  -- The slice of a position is the block of the index there.
  slice_block :
      (seed n : ℕ) (unique : List ℕ) (p : ℕ)
      → p < length unique
      → take n (drop (p * n) (fill_cache f seed n unique))
        ≡ metric_values f seed (get_or unique p 0) 0 n
  unfolding fill_cache
  slice_block seed n [] p inside = ground arith
  slice_block seed n (idx ∷ unique) zero inside =
      let start : 0 * n ≡ 0 = omega arith in
      rw start (
        take_block n (metric_values f seed idx 0 n) (fill_cache f seed n unique)
          (length-metric_values seed idx 0 n))
  slice_block seed n (idx ∷ unique) (suc p) inside =
      let start : suc p * n ≡ n + p * n = omega arith in
      rw start (
        ap (take n) (
          drop_more n (p * n) (metric_values f seed idx 0 n) (fill_cache f seed n unique)
            (length-metric_values seed idx 0 n))
        ∙ slice_block seed n unique p (omega arith))

  copied :
      (seed n : ℕ) (unique inverse : List ℕ)
      → All (λ p. p < length unique) inverse
      → copy_slices f n (fill_cache f (as_u64 seed) n unique) inverse
        ≡ seed_values seed (map (λ p. get_or unique p 0) inverse) n
  unfolding copy_slices
  copied seed n unique [] all = refl
  copied seed n unique (p ∷ inverse) (here, there) =
      ap₂ (λ xs ys. xs ++ ys)
        (slice_block (as_u64 seed) n unique p here
          ∙ metric_values_each (as_u64 seed) (get_or unique p 0) 0 n)
        (copied seed n unique inverse there)

  filled :
      (n : ℕ) (unique inverse seeds : List ℕ)
      → All (λ p. p < length unique) inverse
      → fill_seeds f n unique inverse seeds
        ≡ direct_values seeds (map (λ p. get_or unique p 0) inverse) n
  unfolding fill_seeds
  filled n unique inverse [] all = refl
  filled n unique inverse (seed ∷ seeds) all =
      ap₂ (λ xs ys. xs ++ ys) (copied seed n unique inverse all) (filled n unique inverse seeds all)

  -- For at least one metric and one index, the batch, which computes the variates of an index once
  -- however often it occurs, is the variate of each seed, index and metric in turn.
  pub normal_hash_batch_direct :
      (seeds data_indices : List ℕ) (num_metrics : ℕ)
      → 1 ≤ num_metrics
      → 1 ≤ length data_indices
      → normal_hash_batch_multi_seed_fast f seeds data_indices num_metrics
        ≡ ok (direct_values seeds data_indices num_metrics)
  unfolding normal_hash_batch_multi_seed_fast
  normal_hash_batch_direct seeds data_indices n some_metric some_index =
      let (unique, inverse, done, increasing, same, inside, reads) =
        unique_index_inverse_read data_indices in
      let a : (n == 0) ≡ false = ground arith in
      let more : 1 * n ≤ length data_indices * n = mul-le-mul_right n some_index in
      let b : (length data_indices * n == 0) ≡ false = ground arith in
      let values : fill_seeds f n unique inverse seeds ≡ direct_values seeds data_indices n =
        filled n unique inverse seeds inside ∙ ap (λ xs. direct_values seeds xs n) reads in
      rw (a, b, done) (ap (λ xs. ok xs) values)
