-- ===== src/Bpann/Kmeans.antt =====
-- rust/crates/bpann/src/index/kmeans.rs: clusters of points, and the tree of partitions.
pub mod Zeros
pub mod Stuck
mod Examples
use ennbo.Prelude.{
  ℕ, zero, suc, ◌+◌, ◌-◌, ◌/◌, min, max, Bool, true, false, ◌||◌, ◌&&◌, not, fail_if, ◌>>◌,
}
use ennbo.Prelude.{ltb, leb, ◌==◌, if◌then◌else◌, Result, ok, err, ◌>>=◌}
use ennbo.Prelude.{List, [], ◌∷◌, ◌++◌, map, length, get_elem?, set, replicate}
use ennbo.Ennx.Float.{infinity, f32_lt, f32_eq}
use ennbo.Bpann.Floats.{Floats, BpannError, panicked, unfinished, add_row}
use ennbo.Bpann.Distance.{l2_sq_f32}
use ennbo.Bpann.Index.{mean_rows, present}

-- The random generator, a parameter.
pub record Random : Type 1 where
  pub Seeded : Type 0
  pub seed_from_u64 : ℕ → Seeded
  pub gen_range : ℕ → Seeded → ℕ × Seeded  -- `gen_range(0..n)`
  pub gen_f32 : Seeded → ℕ × Seeded  -- `gen::<f32>()`

-- The trees of partitions and their lists of children.
mutual
  pub data PartitionNode : Type 0 where
    partition_leaf : List (ℕ × List ℕ) → List ℕ → PartitionNode
    partition_internal : List ℕ → PartitionNodes → PartitionNode

  pub data PartitionNodes : Type 0 where
    no_nodes : PartitionNodes
    nodes_cons : PartitionNode → PartitionNodes → PartitionNodes

-- `x <= y` on `f32`
abbrev pub f32_le : ℕ → ℕ → Bool
f32_le x y = f32_lt x y || f32_eq x y

module _ (f : Floats) (r : Random) where
  -- The distance of a point to the nearest centroid so far.
  abbrev pub nearest_distance : List ℕ → ℕ → List (List ℕ) → ℕ
  nearest_distance p least [] = least
  nearest_distance p least (c ∷ cs) = nearest_distance p (f.min least (l2_sq_f32 f p c)) cs

  -- The walk over the distances: the index of the first that takes `pick` to zero, or 0.
  abbrev pub choose : ℕ → ℕ → List ℕ → ℕ
  choose pick i [] = 0
  choose pick i (d ∷ ds) =
      let later = choose (f.sub pick d) (suc i) ds in if f32_le (f.sub pick d) 0 then i else later

  -- The index of the next centroid.
  unfoldable pub next_center : List (List ℕ) → List (List ℕ) → r.Seeded → ℕ × r.Seeded
  next_center points centroids rng =
      let dists = map (λ p. nearest_distance p infinity centroids) points in
      let sum = f.sum dists in
      let (u, rng') = r.gen_f32 rng in
      if f32_le sum 0 then r.gen_range (length points) rng else (choose (f.mul u sum) 0 dists, rng')

  -- `while centroids.len() < k`, for the number of centroids that are missing.
  unfoldable pub add_centers :
      ℕ → List (List ℕ) → List (List ℕ) → r.Seeded → Result BpannError (List (List ℕ) × r.Seeded)
  add_centers zero points centroids rng = ok (centroids, rng)
  add_centers (suc missing) points centroids rng =
      let (chosen, rng') = next_center points centroids rng in
      do
        c ← present (get_elem? points chosen)
        add_centers missing points (centroids ++ (c ∷ [])) rng'

  unfoldable pub kmeans_plus_plus_init :
      List (List ℕ) → ℕ → r.Seeded → Result BpannError (List (List ℕ) × r.Seeded)
  kmeans_plus_plus_init [] k rng = ok ([], rng)
  kmeans_plus_plus_init (p ∷ ps) zero rng = ok ([], rng)
  kmeans_plus_plus_init (p ∷ ps) (suc k) rng =
      let (chosen, rng') = r.gen_range (length (p ∷ ps)) rng in
      do
        c ← present (get_elem? (p ∷ ps) chosen)
        add_centers (min (suc k) (length (p ∷ ps)) - 1) (p ∷ ps) (c ∷ []) rng'

  -- `min_by` keeps the first of the centroids with the least distance.
  unfoldable pub nearest_center : List ℕ → ℕ → List ℕ → ℕ → List (List ℕ) → ℕ
  nearest_center p best best_center i [] = best
  nearest_center p best best_center i (c ∷ cs) =
      let closer = f32_lt (l2_sq_f32 f p c) (l2_sq_f32 f p best_center) in
      nearest_center p (if closer then i else best) (if closer then c else best_center) (suc i) cs

  unfoldable pub assign_cluster : List (List ℕ) → List ℕ → ℕ
  unfolding nearest_center
  assign_cluster [] p = 0
  assign_cluster (c ∷ cs) p = nearest_center p 0 c 1 cs

  unfoldable pub assign_clusters : List (List ℕ) → List (List ℕ) → List ℕ
  unfolding assign_cluster
  assign_clusters points centroids = map (assign_cluster centroids) points

  -- The loop over the points: the sums and the counts of the clusters.
  unfoldable pub add_points :
      ℕ
      → List (List ℕ)
      → List ℕ
      → List (List ℕ)
      → List ℕ
      → Result BpannError (List (List ℕ) × List ℕ)
  add_points k sums counts [] assigned = ok (sums, counts)
  add_points k sums counts (p ∷ ps) [] = ok (sums, counts)
  add_points k sums counts (p ∷ ps) (a ∷ assigned) = elim (ltb a k) [
    | true ↦ do
      n ← present (get_elem? counts a)
      s ← present (get_elem? sums a)
      s' ← add_row f.add s p
      add_points k (set sums a s') (set counts a (n + 1)) ps assigned
    | false ↦ add_points k sums counts ps assigned
  ]

  -- `(0..k).map(...)` over the sums and the counts.
  abbrev pub center_of : ℕ → List ℕ → ℕ → List ℕ
  center_of dim s n = if n == 0 then replicate dim 0 else map (λ v. f.div v (f.of_usize n)) s

  abbrev pub centers_of : ℕ → List (List ℕ) → List ℕ → List (List ℕ)
  centers_of dim [] counts = []
  centers_of dim (s ∷ sums) [] = []
  centers_of dim (s ∷ sums) (n ∷ counts) = center_of dim s n ∷ centers_of dim sums counts

  abbrev pub dim_of : List (List ℕ) → ℕ
  dim_of [] = 0
  dim_of (p ∷ ps) = length p

  unfoldable pub recompute_centroids :
      List (List ℕ) → List ℕ → ℕ → Result BpannError (List (List ℕ))
  recompute_centroids points assignments k = do
    (sums, counts) ←
        add_points k (replicate k (replicate (dim_of points) 0)) (replicate k 0) points assignments
    ok (centers_of (dim_of points) sums counts)

  abbrev pub same_list : List ℕ → List ℕ → Bool
  same_list [] [] = true
  same_list (x ∷ xs) (y ∷ ys) = (x == y) && same_list xs ys
  same_list xs ys = false

  -- The `iters` rounds of `kmeans_run`.
  unfoldable pub kmeans_rounds :
      ℕ → List (List ℕ) → ℕ → List (List ℕ) → List ℕ → Result BpannError (List (List ℕ) × List ℕ)
  kmeans_rounds zero points k centroids assignments = ok (centroids, assignments)
  kmeans_rounds (suc iters) points k centroids assignments = do
    centers ← recompute_centroids points assignments k
    (if same_list (assign_clusters points centers) assignments
        then ok (centers, assignments)
        else kmeans_rounds iters points k centers (assign_clusters points centers))

  -- The assignments of `kmeans_run`; its centroids are not used.
  unfoldable pub kmeans_run :
      List (List ℕ) → ℕ → ℕ → r.Seeded → Result BpannError (List ℕ × r.Seeded)
  kmeans_run [] k max_iters rng = ok ([], rng)
  kmeans_run (p ∷ ps) k max_iters rng =
      let k' = max (min k (length (p ∷ ps))) 1 in
      do
        (centroids, rng') ← kmeans_plus_plus_init (p ∷ ps) k' rng
        (centers, assignments) ←
            kmeans_rounds max_iters (p ∷ ps) k' centroids (assign_clusters (p ∷ ps) centroids)
        ok (assignments, rng')

-- `clusters[a].push(x)` for the members and their clusters.
abbrev pub scatter {ℓ} :
    {A : Type ℓ} → List (List A) → List A → List ℕ → Result BpannError (List (List A))
scatter clusters xs [] = ok clusters
scatter clusters [] (a ∷ assigned) = err panicked
scatter clusters (x ∷ xs) (a ∷ assigned) = do
  c ← present (get_elem? clusters a)
  scatter (set clusters a (c ++ (x ∷ []))) xs assigned

-- `clusters.zip(cluster_vectors).filter(|(c, _)| !c.is_empty())`
abbrev pub filled : List (List ℕ) → List (List (List ℕ)) → List (List ℕ × List (List ℕ))
filled [] vss = []
filled (c ∷ cs) [] = []
filled ([] ∷ cs) (vs ∷ vss) = filled cs vss
filled ((x ∷ xs) ∷ cs) (vs ∷ vss) = (x ∷ xs, vs) ∷ filled cs vss

abbrev pub zip_entries : List ℕ → List (List ℕ) → List (ℕ × List ℕ)
zip_entries [] vs = []
zip_entries (id ∷ ids) [] = []
zip_entries (id ∷ ids) (v ∷ vs) = (id, v) ∷ zip_entries ids vs

-- `.map(|(c, vecs)| ...)` over the clusters, the generator passed along.
abbrev pub each_child {ℓ} :
    {S : Type ℓ}
    → (List ℕ → List (List ℕ) → S → Result BpannError (PartitionNode × S))
    → List (List ℕ × List (List ℕ))
    → S
    → Result BpannError (PartitionNodes × S)
each_child part [] rng = ok (no_nodes, rng)
each_child part ((c, vecs) ∷ rest) rng = do
  (child, rng') ← part c vecs rng
  (children, rng'') ← each_child part rest rng'
  ok (nodes_cons child children, rng'')

-- `row_ids.len().div_ceil(leaf_capacity).clamp(2, 16)`
abbrev pub cluster_count : ℕ → ℕ → ℕ
cluster_count n capacity = min (max ((n + (capacity - 1)) / capacity) 2) 16

module _ (f : Floats) (r : Random) where
  -- `partition_recursive_with_vectors`, the recursion at most `fuel` deep.
  unfoldable pub partition_recursive :
      ℕ → ℕ → List ℕ → List (List ℕ) → r.Seeded → Result BpannError (PartitionNode × r.Seeded)
  partition_recursive zero capacity row_ids vectors rng = err unfinished
  partition_recursive (suc fuel) capacity row_ids vectors rng = do
    center ← mean_rows f vectors
    elim (leb (length row_ids) capacity) [
      | true ↦ ok (partition_leaf (zip_entries row_ids vectors) center, rng)
      | false ↦ do
        fail_if (capacity == 0) panicked
        (assignments, rng') ←
            kmeans_run f r vectors (cluster_count (length row_ids) capacity) 20 rng
        clusters ←
            scatter (replicate (cluster_count (length row_ids) capacity) []) row_ids assignments
        cluster_vectors ←
            scatter (replicate (cluster_count (length row_ids) capacity) []) vectors assignments
        (children, rng'') ←
            each_child (partition_recursive fuel capacity) (filled clusters cluster_vectors) rng'
        ok (partition_internal center children, rng'')
    ]

  -- `PartitionTree::build`, its root.
  unfoldable pub build_partition :
      ℕ → List ℕ → List (List ℕ) → ℕ → ℕ → Result BpannError PartitionNode
  unfolding partition_recursive
  build_partition fuel row_ids vectors capacity seed = do
    fail_if (not (length row_ids == length vectors)) panicked
    (root, rng) ← partition_recursive fuel capacity row_ids vectors (r.seed_from_u64 seed)
    ok root
