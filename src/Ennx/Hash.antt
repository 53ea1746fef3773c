-- ===== src/Ennx/Hash.antt =====
-- rust/crates/ennx/src/hash.rs: normal variates by hashing. An `i64` is given by the number 2^63
-- above it, which keeps the order; a number of metrics that is not positive is 0.
pub mod Inverse
pub mod Direct
pub mod Examples
use Prim.Native.Nat.{bit_xor}
use ennbo.Prelude.{ℕ, zero, suc, ◌+◌, ◌*◌, ◌/◌, ◌%◌, ◌^◌, Bool, true, false, ◌==◌, ltb}
use ennbo.Prelude.{Option, none, some, ◌>>?◌, Result, ok, err, ◌>>◌, fail_if, if◌then◌else◌}
use ennbo.Prelude.{List, [], ◌∷◌, ◌++◌, map, length, take, drop}
use ennbo.Float64.{F64, two64}
use ennbo.Sort.{sort_indices}

-- `zero_chunk` stands for the panic of rayon's `par_chunks_mut(0)`, `missing_index` for that of
-- `expect`.
pub data HashError : Type 0 where
  invalid_num_metrics zero_chunk missing_index : HashError

-- A shift to the right by `k` bits, then the exclusive or.
abbrev pub shift_xor : ℕ → ℕ → ℕ
shift_xor z k = bit_xor z (z / 2 ^ k)

unfoldable pub splitmix64 : ℕ → ℕ
splitmix64 x =
    let x' = (x + 0x9e37_79b9_7f4a_7c15) % 2 ^ 64 in
    let once = (shift_xor x' 30 * 0xbf58_476d_1ce4_e5b9) % 2 ^ 64 in
    let twice = (shift_xor once 27 * 0x94d0_49bb_1331_11eb) % 2 ^ 64 in shift_xor twice 31

abbrev pub seed_prime : ℕ
seed_prime = 1_000_003

-- `as u64`
abbrev pub as_u64 : ℕ → ℕ
as_u64 x = (x + 2 ^ 63) % 2 ^ 64

abbrev pub dedup_from : ℕ → List ℕ → List ℕ
dedup_from x [] = x ∷ []
dedup_from x (y ∷ ys) = if x == y then dedup_from x ys else x ∷ dedup_from y ys

-- `Vec::dedup`
abbrev pub dedup : List ℕ → List ℕ
dedup [] = []
dedup (x ∷ xs) = dedup_from x xs

-- `unique_pos.get(&idx)`, from position `at` on.
abbrev pub position : ℕ → List ℕ → Option ℕ
position x [] = none
position x (y ∷ ys) = if x == y then some 0 else (position x ys >>? λ p. some (suc p))

-- The positions of the indices in the unique ones.
abbrev pub inverse_in : List ℕ → List ℕ → Option (List ℕ)
inverse_in unique [] = some []
inverse_in unique (x ∷ xs) = position x unique >>? λ p. inverse_in unique xs >>? λ ps. some (p ∷ ps)

unfoldable pub unique_index_inverse : List ℕ → Option (List ℕ × List ℕ)
unique_index_inverse data_indices =
    let unique = dedup (sort_indices data_indices) in
    inverse_in unique data_indices >>? λ inverse. some (unique, inverse)

module _ (f : F64) where
  unfoldable pub u64_to_f53 : ℕ → ℕ
  u64_to_f53 x = f.mul (f.of_u64 (x / 2 ^ 11)) 0x3ca0_0000_0000_0000

  unfoldable pub box_muller : ℕ → ℕ → ℕ
  box_muller u1 u2 =
      f.mul (f.sqrt (f.mul 0xc000_0000_0000_0000 (f.ln u1)))
        (f.cos (f.mul (f.mul two64 0x4009_21fb_5444_2d18) u2))

  -- The seed is the `u64`, the index an `i64`.
  unfoldable pub normal_for_seed_index_metric : ℕ → ℕ → ℕ → ℕ
  unfolding splitmix64 u64_to_f53 box_muller
  normal_for_seed_index_metric seed_u64 unique_idx metric =
      let base = (seed_u64 * seed_prime + as_u64 unique_idx) * seed_prime % 2 ^ 64 in
      let combined1 = (base + metric) % 2 ^ 64 in
      let combined2 = bit_xor combined1 0xd2b7_4407_b1ce_6e93 in
      let u1 = u64_to_f53 (splitmix64 combined1) in
      let u2 = u64_to_f53 (splitmix64 combined2) in
      box_muller (f.clamp u1 0x3d71_9799_812d_ea11 0x3fef_ffff_ffff_dcd1) u2

  -- The variates of one seed and index, for the metrics from `metric` on.
  unfoldable pub metric_values : ℕ → ℕ → ℕ → ℕ → List ℕ
  unfolding normal_for_seed_index_metric
  metric_values seed idx metric zero = []
  metric_values seed idx metric (suc count) =
      normal_for_seed_index_metric seed idx metric ∷ metric_values seed idx (suc metric) count

  -- The loop that fills `unique_cache`.
  unfoldable pub fill_cache : ℕ → ℕ → List ℕ → List ℕ
  unfolding metric_values
  fill_cache seed num_metrics [] = []
  fill_cache seed num_metrics (idx ∷ unique) =
      metric_values seed idx 0 num_metrics ++ fill_cache seed num_metrics unique

  -- The loop that copies the slices of the cache.
  unfoldable pub copy_slices : ℕ → List ℕ → List ℕ → List ℕ
  copy_slices num_metrics cache [] = []
  copy_slices num_metrics cache (inv ∷ inverse) =
      take num_metrics (drop (inv * num_metrics) cache) ++ copy_slices num_metrics cache inverse

  -- The flat buffer, one chunk for each seed.
  unfoldable pub fill_seeds : ℕ → List ℕ → List ℕ → List ℕ → List ℕ
  unfolding fill_cache copy_slices
  fill_seeds num_metrics unique inverse [] = []
  fill_seeds num_metrics unique inverse (seed ∷ seeds) =
      copy_slices num_metrics (fill_cache (as_u64 seed) num_metrics unique) inverse
      ++ fill_seeds num_metrics unique inverse seeds

  abbrev pub or_missing : Option (List ℕ × List ℕ) → Result HashError (List ℕ × List ℕ)
  or_missing none = err missing_index
  or_missing (some found) = ok found

  abbrev pub fill_found :
      ℕ → List ℕ → Result HashError (List ℕ × List ℕ) → Result HashError (List ℕ)
  fill_found num_metrics seeds (err e) = err e
  fill_found num_metrics seeds (ok found) = ok (fill_seeds num_metrics found.0 found.1 seeds)

  -- The data of the array, whose shape is [seeds, indices, metrics].
  unfoldable pub normal_hash_batch_multi_seed_fast : List ℕ → List ℕ → ℕ → Result HashError (List ℕ)
  unfolding unique_index_inverse fill_seeds
  normal_hash_batch_multi_seed_fast seeds data_indices num_metrics =
      fail_if (num_metrics == 0) invalid_num_metrics
      >> (fail_if (length data_indices * num_metrics == 0) zero_chunk
          >> fill_found num_metrics seeds (or_missing (unique_index_inverse data_indices)))

  abbrev pub normal_hash_batch_multi_seed : List ℕ → List ℕ → ℕ → Result HashError (List ℕ)
  normal_hash_batch_multi_seed seeds data_indices num_metrics =
      normal_hash_batch_multi_seed_fast seeds data_indices num_metrics
