-- ===== src/Ennx/Regions/Selection.antt =====
-- `select` of optimizer/multi_tr.rs.
pub mod Counts
pub mod Chosen
use Prim.Native.Nat.{bit_xor}
use ennbo.Prelude.{ℕ, zero, suc, ◌+◌, ◌/◌, ◌%◌, Bool, true, false, ◌&&◌, ◌||◌, not, ◌==◌, ltb}
use ennbo.Prelude.{Result, ok, ◌>>◌, fail_if, if◌then◌else◌}
use ennbo.Prelude.{List, [], ◌∷◌, ◌++◌, map, length, member}
use ennbo.Float64.{F64, is_finite64, total_key, f64_le}
use ennbo.Sort.{sort_by}
use ennbo.Ennx.Regions.{
  MultiTrustRegionState, RegionCandidate, TrustRegionError, bad_num_arms, bad_candidate,
}

-- `u64::count_ones`, for a number of that many bits.
unfoldable pub count_ones : ℕ → ℕ → ℕ
count_ones zero x = 0
count_ones (suc bits) x = x % 2 + count_ones bits (x / 2)

abbrev pub all_valid : ℕ → List RegionCandidate → Bool
all_valid num_regions [] = true
all_valid num_regions (c ∷ cs) =
    (ltb c.region num_regions && is_finite64 c.score) && all_valid num_regions cs

-- A greater score is first, on a tie a lower index.
unfoldable pub candidate_before : RegionCandidate → RegionCandidate → Bool
unfolding total_key
candidate_before a b =
    ltb (total_key b.score) (total_key a.score)
    || ((total_key a.score == total_key b.score) && ltb a.index b.index)

abbrev pub indices_of : List RegionCandidate → List ℕ
indices_of cs = map (λ (c : RegionCandidate). c.index) cs

-- The second pass: candidates that are not yet selected, until there are `num_arms`.
unfoldable pub fill : List RegionCandidate → List RegionCandidate → ℕ → List RegionCandidate
fill [] selected num_arms = selected
fill (c ∷ cs) selected num_arms =
    let new = not (member c.index (indices_of selected)) in
    let selected' = if new then selected ++ (c ∷ []) else selected in
    let rest = fill cs selected' num_arms in
    if new && (length selected' == num_arms) then selected' else rest

module _ (f : F64) (t : MultiTrustRegionState) where
  unfoldable pub seed_distance : ℕ → ℕ → Bool
  unfolding count_ones f64_le
  seed_distance a b =
      let share = f.div (f.of_u64 (count_ones 64 (bit_xor a b))) (f.of_u64 64) in
      f64_le t.config.min_seed_distance share

  abbrev pub apart_from_all : RegionCandidate → List RegionCandidate → Bool
  apart_from_all c [] = true
  apart_from_all c (other ∷ others) = seed_distance c.seed other.seed && apart_from_all c others

  -- The first pass: candidates whose seed is apart from those selected, until there are `num_arms`.
  unfoldable pub pick_apart : List RegionCandidate → List RegionCandidate → ℕ → List RegionCandidate
  unfolding seed_distance
  pick_apart [] selected num_arms = selected
  pick_apart (c ∷ cs) selected num_arms =
      let apart = apart_from_all c selected in
      let selected' = if apart then selected ++ (c ∷ []) else selected in
      let rest = pick_apart cs selected' num_arms in
      if apart && (length selected' == num_arms) then selected' else rest

  -- The passes over the ranked candidates; the second is not reached when the first is enough.
  unfoldable pub select_ranked : List RegionCandidate → ℕ → List RegionCandidate
  unfolding pick_apart fill
  select_ranked ranked num_arms =
      let selected = pick_apart ranked [] num_arms in
      if length selected == num_arms then selected else fill ranked selected num_arms

  unfoldable pub select : List RegionCandidate → ℕ → Result TrustRegionError (List RegionCandidate)
  unfolding candidate_before select_ranked
  select candidates num_arms =
      fail_if ((num_arms == 0) || ltb (length candidates) num_arms) bad_num_arms
      >> (fail_if (not (all_valid t.num_regions candidates)) bad_candidate
          >> ok (select_ranked (sort_by candidate_before candidates) num_arms))
