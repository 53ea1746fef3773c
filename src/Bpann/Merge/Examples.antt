-- ===== src/Bpann/Merge/Examples.antt =====
-- Two lists that share an id.
use ennbo.Prelude.{ℕ, ◌≡◌, refl, true, false, List, [], ◌∷◌}
use ennbo.Float64.{f64_lt}
use ennbo.Sort.{sort_by}
use ennbo.Prelude.{AreDistinct, All, take, member, ◌++◌}
use ennbo.Bpann.Merge.{merge_topk_precomputed_dist, ids_of}
use ennbo.Bpann.Merge.Firsts.{IsFirst, IsNearer, kept, merge_firsts}
use ennbo.Sort.Ranked.{AreRanked}

abbrev near : List (ℕ × ℕ)
near = (4, 20) ∷ ((7, 10) ∷ [])

abbrev far : List (ℕ × ℕ)
far = (7, 5) ∷ ((2, 30) ∷ [])

merged : merge_topk_precomputed_dist (λ x. x) near far 2 3 false ≡ (7, 10) ∷ ((4, 20) ∷ [])
unfolding merge_topk_precomputed_dist sort_by f64_lt
merged = refl

merged_without_nearest :
    merge_topk_precomputed_dist (λ x. x) near far 2 3 true ≡ (4, 20) ∷ ((2, 30) ∷ [])
unfolding merge_topk_precomputed_dist sort_by f64_lt
merged_without_nearest = refl

merge_firsts_example :
    (ranked : List (ℕ × ℕ)) × AreDistinct (ids_of ranked)
    × ((id : ℕ) → member id (ids_of ranked) ≡ member id (ids_of (near ++ far)))
    × All (IsFirst (λ x. x) (near ++ far)) ranked
    × AreRanked IsNearer ranked
    × (merge_topk_precomputed_dist (λ x. x) near far 2 3 true ≡ take 2 (take 3 (kept true ranked)))
merge_firsts_example = merge_firsts (λ x. x) near far 2 3 true (refl, (refl, (refl, (refl, tt))))
