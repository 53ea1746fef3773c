-- ===== src/Bpann/Kmeans/Stuck.antt =====
-- The partition of more zero rows than a leaf holds: every level has the same rows again.
use ennbo.Prelude.{ℕ, zero, suc, ◌+◌, ◌-◌, ◌<◌, ◌≤◌, min, max, ◌≡◌, refl, sym, ap, ap₂, ◌∙◌, arith}
use ennbo.Prelude.{List, [], ◌∷◌, ◌++◌, map, length, replicate, length-replicate}
use ennbo.Prelude.{All-replicate, true, false, append-nil, append_assoc}
use ennbo.Prelude.{ltb, leb, ◌==◌, ok, err}
use ennbo.Bpann.Floats.{Floats, unfinished, add_row}
use ennbo.Bpann.Index.Centers.{mean_rows_total}
use ennbo.Bpann.Kmeans.{
  Random, assign_clusters, add_points, center_of, centers_of, recompute_centroids, same_list,
  kmeans_rounds, kmeans_run, scatter, filled, cluster_count, partition_recursive,
}
use ennbo.Bpann.Kmeans.Zeros.{IsUsual, zeros, AreZero, assign_clusters_zero, init_zero}

module _ (f : Floats) (r : Random) where
  same_zeros : (n : ℕ) → same_list f r (replicate n 0) (replicate n 0) ≡ true
  same_zeros zero = refl
  same_zeros (suc n) = let later = same_zeros n in ground arith

  add_row_zero : (d : ℕ) → IsUsual f r → add_row f.add (zeros d) (zeros d) ≡ ok (zeros d)
  unfolding add_row
  add_row_zero zero u = refl
  add_row_zero (suc d) u = rw (add_row_zero d u, u.add_zero) refl

  add_points_zero :
      (d k n : ℕ) (sums : List (List ℕ)) (s c : ℕ) (counts : List ℕ)
      → IsUsual f r
      → AreZero d sums
      → (sums' : List (List ℕ)) × (counts' : List ℕ) × (add_points f r
            (suc k)
            (zeros d ∷ sums)
            (c ∷ counts)
            (replicate n (zeros d))
            (replicate n 0)
          ≡ ok (sums', counts'))
        × AreZero d sums'
  unfolding add_points
  add_points_zero d k zero sums s c counts u all = (zeros d ∷ sums, c ∷ counts, refl, (refl, all))
  add_points_zero d k (suc n) sums s c counts u all =
      let (sums', counts', e, all') = add_points_zero d k n sums s (c + 1) counts u all in
      let inside : ltb 0 (suc k) ≡ true = ground arith in
      (sums', counts', rw (add_points, inside, add_row_zero d u) e, all')

  center_of_zero :
      (d n : ℕ) (s : List ℕ) → IsUsual f r → s ≡ zeros d → center_of f r d s n ≡ zeros d
  center_of_zero d zero s u e = refl
  center_of_zero d (suc n) s u e =
      let some_point : (suc n == 0) ≡ false = ground arith in
      rw some_point (ap (map (λ v. f.div v (f.of_usize (suc n)))) e ∙ quotients d)
    where
      quotients : (m : ℕ) → map (λ v. f.div v (f.of_usize (suc n))) (zeros m) ≡ zeros m
      quotients zero = refl
      quotients (suc m) = ap₂ (λ x xs. x ∷ xs) (u.div_zero n) (quotients m)

  centers_of_zero :
      (d : ℕ) (sums : List (List ℕ)) (counts : List ℕ)
      → IsUsual f r
      → AreZero d sums
      → AreZero d (centers_of f r d sums counts)
  centers_of_zero d [] counts u all = tt
  centers_of_zero d (s ∷ sums) [] u all = tt
  centers_of_zero d (s ∷ sums) (n ∷ counts) u (same, all) =
      (center_of_zero d n s u same, centers_of_zero d sums counts u all)

  recompute_zero :
      (d k n : ℕ)
      → IsUsual f r
      → (cs : List (List ℕ)) × (recompute_centroids f r
            (replicate (suc n) (zeros d))
            (replicate (suc n) 0)
            (suc k)
          ≡ ok cs)
        × AreZero d cs
  unfolding recompute_centroids
  recompute_zero d k n u =
      let dim = length-replicate {A = ℕ} d 0 in
      let (sums, counts, e, all) =
        add_points_zero d k (suc n) (replicate k (zeros d)) 0 0 (replicate k 0) u
          (All-replicate (λ row. row ≡ zeros d) k (zeros d) refl) in
      (centers_of f r d sums counts, rw (dim, e) refl, centers_of_zero d sums counts u all)

  -- The rounds end with the first, and every point is in the first cluster.
  rounds_zero :
      (d k n iters : ℕ) (cs : List (List ℕ))
      → IsUsual f r
      → (centers : List (List ℕ)) × (kmeans_rounds f r iters
            (replicate (suc n) (zeros d))
            (suc k)
            cs
            (replicate (suc n) 0)
          ≡ ok (centers, replicate (suc n) 0))
  unfolding kmeans_rounds
  rounds_zero d k n zero cs u = (cs, refl)
  rounds_zero d k n (suc iters) cs u =
      let (centers, e, all) = recompute_zero d k n u in
      let again = assign_clusters_zero f r d (suc n) centers (zeros d) all in
      (centers, rw (e, kmeans_rounds, again, same_zeros (suc n)) refl)

  -- `kmeans_run` puts every zero row into the first cluster.
  pub kmeans_zero :
      (d k n iters : ℕ) (rng : r.Seeded)
      → IsUsual f r
      → (rng' : r.Seeded) × (kmeans_run f r (replicate (suc n) (zeros d)) k iters rng
          ≡ ok (replicate (suc n) 0, rng'))
  unfolding kmeans_run
  kmeans_zero d k n iters rng u =
      let most = max (min k (length (replicate (suc n) (zeros d)))) 1 in
      let positive : suc (most - 1) ≡ most = omega arith in
      let (cs, rng', e, all) = init_zero f r d n most rng u in
      let first = assign_clusters_zero f r d (suc n) cs (zeros d) all in
      let (centers, e') = rounds_zero d (most - 1) n iters cs u in
      let rounds : kmeans_rounds f r iters (replicate (suc n) (zeros d)) most cs
            (assign_clusters f r (replicate (suc n) (zeros d)) cs)
          ≡ ok (centers, replicate (suc n) 0) =
        ap₂ (λ m a. kmeans_rounds f r iters (replicate (suc n) (zeros d)) m cs a) (sym positive)
          first
        ∙ e' in
      (rng', rw (e, rounds) refl)

-- All elements go to the first cluster.
scatter_first {ℓ} :
    {A : Type ℓ} (n : ℕ) (c xs : List A) (cs : List (List A))
    → length xs ≡ n
    → scatter (c ∷ cs) xs (replicate n 0) ≡ ok ((c ++ xs) ∷ cs)
scatter_first zero c [] cs h = ap (λ l. ok (l ∷ cs)) (sym (append-nil c))
scatter_first zero c (x ∷ xs) cs h = ground arith
scatter_first (suc n) c [] cs h = ground arith
scatter_first (suc n) c (x ∷ xs) cs h =
    scatter_first n (c ++ (x ∷ [])) xs cs (omega arith)
    ∙ ap (λ l. ok (l ∷ cs)) (append_assoc c (x ∷ []) xs)

-- From empty clusters, one at least.
scatter_all {ℓ} :
    {A : Type ℓ} (k n : ℕ) (xs : List A)
    → 1 ≤ k
    → length xs ≡ n
    → scatter (replicate k []) xs (replicate n 0) ≡ ok (xs ∷ replicate (k - 1) [])
scatter_all zero n xs some_cluster h = ground arith
scatter_all (suc k) n xs some_cluster h =
    let rest : k ≡ suc k - 1 = omega arith in
    scatter_first n [] xs (replicate k []) h ∙ ap (λ m. ok (xs ∷ replicate m [])) rest

filled_empty : (k : ℕ) (vss : List (List (List ℕ))) → filled (replicate k []) vss ≡ []
filled_empty zero vss = refl
filled_empty (suc k) [] = refl
filled_empty (suc k) (vs ∷ vss) = filled_empty k vss

module _ (f : Floats) (r : Random) where
  -- More zero rows than a leaf holds are never partitioned: no depth of the recursion is enough.
  pub partition_recursive_stuck :
      (fuel capacity d n : ℕ) (row_ids : List ℕ) (rng : r.Seeded)
      → IsUsual f r
      → 1 ≤ capacity
      → capacity < length row_ids
      → length row_ids ≡ n
      → partition_recursive f r fuel capacity row_ids (replicate n (zeros d)) rng ≡ err unfinished
  unfolding partition_recursive
  partition_recursive_stuck zero capacity d n row_ids rng u some_room many same = refl
  partition_recursive_stuck (suc fuel) capacity d n [] rng u some_room many same = ground arith
  partition_recursive_stuck (suc fuel) capacity d zero (x ∷ xs) rng u some_room many same =
      ground arith
  partition_recursive_stuck (suc fuel) capacity d (suc n) (x ∷ xs) rng u some_room many same =
      let points = replicate (suc n) (zeros d) in
      let count = cluster_count (length (x ∷ xs)) capacity in
      let some_cluster : 1 ≤ count = omega arith in
      let size = length-replicate (suc n) (zeros d) in
      let (c, mean_e, long) = mean_rows_total f d points (
        omega (arith, size),
        All-replicate (λ row. length row ≡ d) (suc n) (zeros d) (length-replicate d 0),
      ) in
      let crowded : leb (length (x ∷ xs)) capacity ≡ false = ground arith in
      let room : (capacity == 0) ≡ false = ground arith in
      let (rng', run_e) = kmeans_zero f r d count n 20 rng u in
      let rows_e = scatter_all count (suc n) (x ∷ xs) some_cluster same in
      let points_e = scatter_all count (suc n) points some_cluster size in
      let empty = filled_empty (count - 1) (replicate (count - 1) []) in
      let below =
        partition_recursive_stuck fuel capacity d (suc n) (x ∷ xs) rng' u some_room many same in
      rw (partition_recursive, mean_e, crowded, room, run_e, rows_e, points_e, empty, below) refl
