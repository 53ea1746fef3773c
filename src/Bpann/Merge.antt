-- ===== src/Bpann/Merge.antt =====
-- rust/crates/bpann/src/merge.rs: two lists of candidates merged into the nearest few. The ids and
-- the `f32` distances are numbers; `widen` is `f64::from`. The hash map is the list of its entries
-- in the order of insertion, which the sort by distance and id that follows makes irrelevant.
pub mod Firsts
pub mod Examples
use ennbo.Prelude.{ℕ, zero, suc, min, Bool, true, false, ◌&&◌, ◌||◌, not, ltb, if◌then◌else◌}
use ennbo.Prelude.{List, [], ◌∷◌, ◌++◌, map, length, take, drop, member}
use ennbo.Float64.{f64_lt}
use ennbo.Sort.{sort_by}

abbrev pub ids_of : List (ℕ × ℕ) → List ℕ
ids_of entries = map (λ e. e.0) entries

-- The loop over the candidates: an id that is there already is left out.
unfoldable pub see : (ℕ → ℕ) → List (ℕ × ℕ) → List (ℕ × ℕ) → List (ℕ × ℕ)
see widen seen [] = seen
see widen seen ((id, dist) ∷ rest) =
    see widen (if member id (ids_of seen) then seen else seen ++ ((id, widen dist) ∷ [])) rest

-- `partial_cmp`, on a tie or without an order the ids.
unfoldable pub nearer : ℕ × ℕ → ℕ × ℕ → Bool
unfolding f64_lt
nearer (ia, da) (ib, db) = f64_lt da db || (not (f64_lt db da) && ltb ia ib)

abbrev pub without_nearest : Bool → List (ℕ × ℕ) → List (ℕ × ℕ)
without_nearest exclude_nearest ranked =
    if exclude_nearest && ltb 1 (length ranked) then drop 1 ranked else ranked

unfoldable pub merge_topk_precomputed_dist :
    (ℕ → ℕ) → List (ℕ × ℕ) → List (ℕ × ℕ) → ℕ → ℕ → Bool → List (ℕ × ℕ)
unfolding see nearer
merge_topk_precomputed_dist widen leg_a leg_b k_out pool_k exclude_nearest =
    let ranked = without_nearest exclude_nearest (sort_by nearer (see widen [] (leg_a ++ leg_b))) in
    take k_out (take (min pool_k (length ranked)) ranked)
