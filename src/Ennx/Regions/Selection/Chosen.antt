-- ===== src/Ennx/Regions/Selection/Chosen.antt =====
-- What `select` returns.
use ennbo.Prelude.{ℕ, zero, suc, ◌≤◌, ◌<◌, ◌≡◌, refl, sym, ap, ◌∙◌, arith}
use ennbo.Prelude.{true, false, Bool-cases, ◌⊎◌, inl, inr, ◌==◌, ltb}
use ennbo.Prelude.{ok, ==_iff}
use ennbo.Prelude.{
  List, [], ◌∷◌, ◌++◌, length, take, take-append, append_assoc, append-nil, length-append,
  length-take, All,
}
use ennbo.Prelude.{member, AreDistinct}
use mathlib.Core.List.{Perm}
use ennbo.Float64.{F64, total_key}
use ennbo.Sort.Ordered.{IsStrict}
use ennbo.Sort.Ranked.{AreRanked, sort_by-perm, sort_by-AreRanked}
use ennbo.Sort.{sort_by, length-sort_by}
use ennbo.Sort.Members.{All-sort_by, sort_by-AreDistinct}
use ennbo.Ennx.Regions.{MultiTrustRegionState, RegionCandidate}
use ennbo.Ennx.Regions.Selection.{
  all_valid, candidate_before, indices_of, seed_distance, apart_from_all, pick_apart, select_ranked,
  select,
}
use ennbo.Ennx.Regions.Selection.Counts.{fill_filled, missing_enough, pick_apart_kept}

-- The first has the greater score, or the same score and an index that is not greater.
abbrev pub IsPreferred : RegionCandidate → RegionCandidate → Type 0
IsPreferred a b =
    (total_key b.score < total_key a.score)
    ⊎ ((total_key a.score ≡ total_key b.score) × (a.index ≤ b.index))

candidate_before-IsStrict : IsStrict candidate_before
unfolding candidate_before
candidate_before-IsStrict = record {
  asymm = λ a b h. ground arith;
  trans = λ a b c h k. ground arith;
}

candidate_before-IsPreferred :
    (a b : RegionCandidate) → candidate_before b a ≡ false → IsPreferred a b
unfolding candidate_before
candidate_before-IsPreferred a b h =
    elim (Bool-cases (ltb (total_key b.score) (total_key a.score))) [
      | inl greater ↦ inl (ground arith)
      | inr other ↦ inr (ground arith, ground arith)
    ]

module _ (f : F64) (t : MultiTrustRegionState) where
  select_accepted :
      (candidates : List RegionCandidate) (num_arms : ℕ)
      → 1 ≤ num_arms
      → num_arms ≤ length candidates
      → all_valid t.num_regions candidates ≡ true
      → select f t candidates num_arms
        ≡ ok (select_ranked f t (sort_by candidate_before candidates) num_arms)
  unfolding select
  select_accepted candidates num_arms some_arms enough valid =
      let a : (num_arms == 0) ≡ false = ground arith in
      let b : ltb (length candidates) num_arms ≡ false = ground arith in rw (a, b, valid) refl

  fresh_start :
      (cs : List RegionCandidate) → All (λ (c : RegionCandidate). member c.index [] ≡ false) cs
  fresh_start [] = tt
  fresh_start (c ∷ cs) = (refl, fresh_start cs)

  select_ranked_full :
      (P : RegionCandidate → Type 0) (ranked : List RegionCandidate) (num_arms : ℕ)
      → 1 ≤ num_arms
      → num_arms ≤ length ranked
      → AreDistinct (indices_of ranked)
      → All P ranked
      → (length (select_ranked f t ranked num_arms) ≡ num_arms)
        × AreDistinct (indices_of (select_ranked f t ranked num_arms))
        × All P (select_ranked f t ranked num_arms)
  unfolding select_ranked
  select_ranked_full P ranked num_arms some_arms enough d all =
      let picked = pick_apart f t ranked [] num_arms in
      let (ds, alls, most) =
        pick_apart_kept f t P num_arms ranked [] d tt (fresh_start ranked) all tt some_arms in
      elim (Bool-cases (length picked == num_arms)) [
        | inl full ↦ rw full ((==_iff (length picked) num_arms).0 full, ds, alls)
        | inr more ↦
            let few : length picked < num_arms = ground arith in
            rw more (
              fill_filled P num_arms ranked picked d ds all alls few
                (omega (arith, missing_enough picked ranked d)))
      ]

  take_short : (n : ℕ) (xs : List RegionCandidate) → length xs ≤ n → take n xs ≡ xs
  take_short zero [] h = refl
  take_short zero (x ∷ xs) h = ground arith
  take_short (suc n) [] h = refl
  take_short (suc n) (x ∷ xs) h = ap (λ t. x ∷ t) (take_short n xs (omega arith))

  module _ (every_apart : (a b : ℕ) → seed_distance f t a b ≡ true) where
    all_apart :
        (c : RegionCandidate) (others : List RegionCandidate) → apart_from_all f t c others ≡ true
    all_apart c [] = refl
    all_apart c (other ∷ others) = rw (every_apart c.seed other.seed, all_apart c others) refl

    pick_apart_first :
        (num_arms : ℕ) (cs selected : List RegionCandidate)
        → length selected < num_arms
        → pick_apart f t cs selected num_arms ≡ take num_arms (selected ++ cs)
    unfolding pick_apart
    pick_apart_first num_arms [] selected few =
        rw (append-nil selected) (sym (take_short num_arms selected (omega arith)))
    pick_apart_first num_arms (c ∷ cs) selected few =
        let joined = selected ++ (c ∷ []) in
        let size : length joined ≡ suc (length selected) =
          omega (arith, length-append selected (c ∷ [])) in
        let together : joined ++ cs ≡ selected ++ (c ∷ cs) = append_assoc selected (c ∷ []) cs in
        elim (Bool-cases (length joined == num_arms)) [
          | inl full ↦
              let number : num_arms ≡ length joined =
                sym ((==_iff (length joined) num_arms).0 full) in
              let first : take num_arms (joined ++ cs) ≡ joined =
                rw number (take-append joined cs) in
              rw (all_apart c selected, full) (sym (rw together at first))
          | inr more ↦
              let few' : length joined < num_arms = ground arith in
              let later = pick_apart_first num_arms cs joined few' in
              rw (all_apart c selected, more) (later ∙ ap (take num_arms) together)
        ]

    select_sorted :
        (candidates : List RegionCandidate) (num_arms : ℕ)
        → 1 ≤ num_arms
        → num_arms ≤ length candidates
        → all_valid t.num_regions candidates ≡ true
        → select f t candidates num_arms ≡ ok (take num_arms (sort_by candidate_before candidates))
    unfolding select_ranked
    select_sorted candidates num_arms some_arms enough valid =
        let ranked = sort_by candidate_before candidates in
        let picked : pick_apart f t ranked [] num_arms ≡ take num_arms ranked =
          pick_apart_first num_arms ranked [] some_arms in
        let size : length (take num_arms ranked) ≡ num_arms =
          omega (arith, length-take num_arms ranked, length-sort_by candidate_before candidates) in
        let full : (length (take num_arms ranked) == num_arms) ≡ true =
          (==_iff (length (take num_arms ranked)) num_arms).1 size in
        select_accepted candidates num_arms some_arms enough valid ∙ rw (picked, full) refl

    -- When every two seeds count as apart, as with a minimum distance of 0, `select` of at least one
    -- and at most all of some valid candidates returns the first `num_arms` of them in the order in
    -- which a greater score is first and on equal scores a lower index.
    pub select_best :
        (candidates : List RegionCandidate) (num_arms : ℕ)
        → 1 ≤ num_arms
        → num_arms ≤ length candidates
        → all_valid t.num_regions candidates ≡ true
        → (ranked : List RegionCandidate) × Perm ranked candidates
          × AreRanked IsPreferred ranked
          × (select f t candidates num_arms ≡ ok (take num_arms ranked))
    select_best candidates num_arms some_arms enough valid = (
      sort_by candidate_before candidates,
      sort_by-perm candidate_before candidates,
      sort_by-AreRanked candidate_before IsPreferred candidate_before-IsPreferred
          candidate_before-IsStrict candidates,
      select_sorted candidates num_arms some_arms enough valid,
    )

  -- `select` of at least one and at most all of some valid candidates with different indices succeeds
  -- with exactly `num_arms` candidates, with different indices, and what holds of every candidate
  -- holds of those selected.
  pub select_full :
      (P : RegionCandidate → Type 0) (candidates : List RegionCandidate) (num_arms : ℕ)
      → 1 ≤ num_arms
      → num_arms ≤ length candidates
      → all_valid t.num_regions candidates ≡ true
      → AreDistinct (indices_of candidates)
      → All P candidates
      → (selected : List RegionCandidate) × (select f t candidates num_arms ≡ ok selected)
        × (length selected ≡ num_arms)
        × AreDistinct (indices_of selected)
        × All P selected
  select_full P candidates num_arms some_arms enough valid d all =
      let ranked = sort_by candidate_before candidates in
      let enough' : num_arms ≤ length ranked =
        omega (arith, length-sort_by candidate_before candidates) in
      let (size, distinct, alls) =
        select_ranked_full P ranked num_arms some_arms enough'
          (sort_by-AreDistinct candidate_before (λ (c : RegionCandidate). c.index) candidates d)
          (All-sort_by candidate_before P candidates all) in
      (
        select_ranked f t ranked num_arms,
        select_accepted candidates num_arms some_arms enough valid,
        size,
        distinct,
        alls,
      )
