-- ===== src/Bpann/Kmeans/Zeros.antt =====
-- The clusters of points that are all the zero vector.
use ennbo.Prelude.{ℕ, zero, suc, ◌+◌, ◌-◌, ◌<◌, min, ◌≡◌, refl, ap, ap₂, ◌∙◌, arith}
use ennbo.Prelude.{List, [], ◌∷◌, ◌++◌, map, length, get_elem?, replicate, length-replicate, All}
use ennbo.Prelude.{joined-All, length-map, false, Bool-cases}
use ennbo.Prelude.{some, inl, inr, ◌⊎◌, ok}
use ennbo.Ennx.Float.{infinity, f32_lt}
use ennbo.Bpann.Floats.{Floats}
use ennbo.Bpann.Distance.{l2_sq_f32}
use ennbo.Bpann.Kmeans.{
  Random, f32_le, nearest_distance, choose, next_center, add_centers, kmeans_plus_plus_init,
  nearest_center, assign_cluster, assign_clusters,
}

-- What the code relies on: sums and quotients of zeros are zero, and a random index is in range.
pub record IsUsual (f : Floats) (r : Random) : Type 0 where
  pub add_zero : f.add 0 0 ≡ 0
  pub div_zero : (n : ℕ) → f.div 0 (f.of_usize (suc n)) ≡ 0
  pub in_range : (n : ℕ) (rng : r.Seeded) → (r.gen_range (suc n) rng).0 < suc n

abbrev pub zeros : ℕ → List ℕ
zeros d = replicate d 0

abbrev pub AreZero : ℕ → List (List ℕ) → Type 0
AreZero d rows = All (λ row. row ≡ zeros d) rows

get_elem?-replicate {ℓ} :
    {A : Type ℓ} (n i : ℕ) (a : A) → i < n → get_elem? (replicate n a) i ≡ some a
get_elem?-replicate zero i a h = ground arith
get_elem?-replicate (suc n) zero a h = refl
get_elem?-replicate (suc n) (suc i) a h = get_elem?-replicate n i a (omega arith)

f32_lt_irrefl : (x : ℕ) → f32_lt x x ≡ false
unfolding f32_lt
f32_lt_irrefl x = ground arith

module _ (f : Floats) (r : Random) where
  choose_bound :
      (pick i : ℕ) (ds : List ℕ)
      → (choose f r pick i ds ≡ 0) ⊎ (choose f r pick i ds < i + length ds)
  choose_bound pick i [] = inl refl
  choose_bound pick i (d ∷ ds) = elim (Bool-cases (f32_le (f.sub pick d) 0)) [
    | inl here ↦ inr (rw here (omega arith))
    | inr later ↦ elim (choose_bound (f.sub pick d) (suc i) ds) [
      | inl e ↦ inl (rw later e)
      | inr h ↦ inr (rw later (omega (arith, h)))
    ]
  ]

  next_center_bound :
      (n : ℕ) (p : List ℕ) (centroids : List (List ℕ)) (rng : r.Seeded)
      → IsUsual f r
      → (next_center f r (replicate (suc n) p) centroids rng).0 < suc n
  unfolding next_center
  next_center_bound n p centroids rng u =
      let points = replicate (suc n) p in
      let dists = map (λ (q : List ℕ). nearest_distance f r q infinity centroids) points in
      let sum = f.sum dists in
      let pick = f.mul (r.gen_f32 rng).0 sum in
      let many = length-map points (λ q. nearest_distance f r q infinity centroids) in
      let size = length-replicate (suc n) p in
      elim (Bool-cases (f32_le sum 0)) [
        | inl none_left ↦ rw (none_left, size) (u.in_range n rng)
        | inr some_left ↦ elim (choose_bound pick 0 dists) [
          | inl e ↦ rw (some_left, e) (omega arith)
          | inr h ↦ rw some_left (omega (arith, h, many, size))
        ]
      ]

  -- A centroid equal to the best one is no better.
  nearest_center_same :
      (d best i : ℕ) (p : List ℕ) (cs : List (List ℕ))
      → AreZero d cs
      → nearest_center f r p best (zeros d) i cs ≡ best
  unfolding nearest_center
  nearest_center_same d best i p [] all = refl
  nearest_center_same d best i p (c ∷ cs) (same, all) =
      let no_closer : f32_lt (l2_sq_f32 f p c) (l2_sq_f32 f p (zeros d)) ≡ false =
        ap (λ x. f32_lt (l2_sq_f32 f p x) (l2_sq_f32 f p (zeros d))) same
        ∙ f32_lt_irrefl (l2_sq_f32 f p (zeros d)) in
      rw no_closer (nearest_center_same d best (suc i) p cs all)

  assign_cluster_zero :
      (d : ℕ) (cs : List (List ℕ)) (p : List ℕ) → AreZero d cs → assign_cluster f r cs p ≡ 0
  unfolding assign_cluster
  assign_cluster_zero d [] p all = refl
  assign_cluster_zero d (c ∷ cs) p (same, all) =
      ap (λ x. nearest_center f r p 0 x 1 cs) same ∙ nearest_center_same d 0 1 p cs all

  pub assign_clusters_zero :
      (d n : ℕ) (cs : List (List ℕ)) (p : List ℕ)
      → AreZero d cs
      → assign_clusters f r (replicate n p) cs ≡ replicate n 0
  unfolding assign_clusters
  assign_clusters_zero d zero cs p all = refl
  assign_clusters_zero d (suc n) cs p all =
      ap₂ (λ a rest. a ∷ rest) (assign_cluster_zero d cs p all) (assign_clusters_zero d n cs p all)

  add_centers_zero :
      (d n missing : ℕ) (centroids : List (List ℕ)) (rng : r.Seeded)
      → IsUsual f r
      → AreZero d centroids
      → (cs : List (List ℕ)) × (rng' : r.Seeded) × (add_centers f r missing
            (replicate (suc n) (zeros d))
            centroids
            rng
          ≡ ok (cs, rng'))
        × AreZero d cs
  unfolding add_centers
  add_centers_zero d n zero centroids rng u all = (centroids, rng, refl, all)
  add_centers_zero d n (suc missing) centroids rng u all =
      let points = replicate (suc n) (zeros d) in
      let chosen = next_center f r points centroids rng in
      let found =
        get_elem?-replicate (suc n) chosen.0 (zeros d)
          (next_center_bound n (zeros d) centroids rng u) in
      let (cs, rng', e, all') =
        add_centers_zero d n missing (centroids ++ (zeros d ∷ [])) chosen.1 u
          (joined-All (λ row. row ≡ zeros d) centroids (zeros d) all refl) in
      (cs, rng', rw found e, all')

  pub init_zero :
      (d n k : ℕ) (rng : r.Seeded)
      → IsUsual f r
      → (cs : List (List ℕ)) × (rng' : r.Seeded) × (kmeans_plus_plus_init f r
            (replicate (suc n) (zeros d))
            k
            rng
          ≡ ok (cs, rng'))
        × AreZero d cs
  unfolding kmeans_plus_plus_init
  init_zero d n zero rng u = ([], rng, refl, tt)
  init_zero d n (suc k) rng u =
      let points = replicate (suc n) (zeros d) in
      let size = length-replicate (suc n) (zeros d) in
      let chosen = r.gen_range (suc n) rng in
      let found = get_elem?-replicate (suc n) chosen.0 (zeros d) (u.in_range n rng) in
      let (cs, rng', e, all) =
        add_centers_zero d n (min (suc k) (suc n) - 1) (zeros d ∷ []) chosen.1 u (refl, tt) in
      (cs, rng', rw (size, found) e, all)
