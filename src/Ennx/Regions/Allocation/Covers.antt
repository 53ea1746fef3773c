-- ===== src/Ennx/Regions/Allocation/Covers.antt =====
-- The batches of `allocate_with`.
use ennbo.Prelude.{All-take, take-AreDistinct}
use ennbo.Prelude.{map_itself}
use ennbo.Prelude.{ℕ, zero, suc, ◌+◌, ◌-◌, ◌≤◌, ◌<◌, ◌≡◌, refl, ap, arith, min}
use ennbo.Prelude.{Bool, true, false, Bool-cases, inl, inr, ◌==◌, ltb}
use ennbo.Prelude.{ok, get_elem?, some}
use ennbo.Prelude.{List, [], ◌∷◌, map, length, take, length-take, get_or, replicate, All}
use ennbo.Prelude.{
  member, AreDistinct, All-get_or, All-replicate, length-replicate, get_or-replicate,
}
use ennbo.Float64.{F64}
use ennbo.Sort.{sort_by, length-sort_by}
use ennbo.Sort.Members.{All-sort_by, sort_by-AreDistinct}
use ennbo.Ennx.Regions.{MultiTrustRegionState, RegionBatch, active_regions}
use ennbo.Ennx.Regions.Allocation.{
  all_finite, single_batches, counted_batches, ranks_before, share, allocate_active, allocate_with,
}
use ennbo.Ennx.Regions.Allocation.Shares.{total, share-total}

-- The batches follow one another from `start` to `stop`, and none is empty.
abbrev pub AreCovering : ℕ → ℕ → List RegionBatch → Type 0
AreCovering start stop [] = start ≡ stop
AreCovering start stop (b ∷ bs) =
    (b.start ≡ start) × (1 ≤ b.len) × AreCovering (start + b.len) stop bs

abbrev pub regions_of : List RegionBatch → List ℕ
regions_of batches = map (λ (b : RegionBatch). b.region) batches

-- The region is active.
abbrev pub IsActive : List Bool → ℕ → Type 0
IsActive mask r = get_elem? mask r ≡ some true

single_covering :
    (start : ℕ) (rs : List ℕ)
    → AreCovering start (start + length rs) (single_batches start rs)
      × (regions_of (single_batches start rs) ≡ rs)
unfolding single_batches
single_covering start [] = (omega arith, refl)
single_covering start (r ∷ rs) =
    let (later, regions) = single_covering (start + 1) rs in
    let stop : start + 1 + length rs ≡ start + suc (length rs) = omega arith in
    ((refl, omega arith, rw stop at later), ap (λ t. r ∷ t) regions)

counted_covering :
    (start m : ℕ) (rs counts : List ℕ)
    → All (λ c. 1 ≤ c) counts
    → length counts ≡ m
    → All (λ r. r < m) rs
    → AreCovering start (start + total rs counts) (counted_batches start rs counts)
      × (regions_of (counted_batches start rs counts) ≡ rs)
unfolding counted_batches
counted_covering start m [] counts positive size inside = (omega arith, refl)
counted_covering start m (r ∷ rs) counts positive size (here, there) =
    let count = get_or counts r 0 in
    let (later, regions) = counted_covering (start + count) m rs counts positive size there in
    let stop : start + count + total rs counts ≡ start + (count + total rs counts) = omega arith in
    (
      (refl, All-get_or (λ c. 1 ≤ c) counts r 0 positive (omega (arith, size)), rw stop at later),
      ap (λ t. r ∷ t) regions,
    )

-- `r` is the number of an active region when the mask starts at `start`.
abbrev IsActiveFrom : ℕ → List Bool → ℕ → Type 0
IsActiveFrom start mask r = (i : ℕ) × (r ≡ start + i) × (get_elem? mask i ≡ some true)

active_later :
    (start : ℕ) (b : Bool) (mask : List Bool) (rs : List ℕ)
    → All (IsActiveFrom (suc start) mask) rs
    → All (IsActiveFrom start (b ∷ mask)) rs × (member start rs ≡ false)
active_later start b mask [] all = (tt, refl)
active_later start b mask (r ∷ rs) ((i, e, on), there) =
    let (later, new) = active_later start b mask rs there in
    let apart : (start == r) ≡ false = ground arith in
    (((suc i, omega arith, on), later), rw (apart, new) refl)

active_regions_found :
    (start : ℕ) (mask : List Bool)
    → All (IsActiveFrom start mask) (active_regions start mask)
      × AreDistinct (active_regions start mask)
active_regions_found start [] = (tt, tt)
active_regions_found start (true ∷ mask) =
    let (found, distinct) = active_regions_found (suc start) mask in
    let (later, new) = active_later start true mask (active_regions (suc start) mask) found in
    (((0, omega arith, refl), later), (new, distinct))
active_regions_found start (false ∷ mask) =
    let (found, distinct) = active_regions_found (suc start) mask in
    ((active_later start false mask (active_regions (suc start) mask) found).0, distinct)

read_below : (mask : List Bool) (r : ℕ) (b : Bool) → get_elem? mask r ≡ some b → r < length mask
read_below [] r b h = cc
read_below (x ∷ mask) zero b h = omega arith
read_below (x ∷ mask) (suc r) b h = omega (arith, read_below mask r b h)

IsActive-inside :
    (mask : List Bool) (rs : List ℕ)
    → All (IsActiveFrom 0 mask) rs
    → All (λ r. r < length mask) rs × All (IsActive mask) rs
IsActive-inside mask [] all = (tt, tt)
IsActive-inside mask (r ∷ rs) ((i, e, on), there) =
    let same : r ≡ i = omega arith in
    let on' : get_elem? mask r ≡ some true = rw same on in
    let (inside, active) = IsActive-inside mask rs there in
    ((read_below mask r true on', inside), (on', active))

total_ones : (n : ℕ) (rs : List ℕ) → All (λ r. r < n) rs → total rs (replicate n 1) ≡ length rs
total_ones n [] inside = refl
total_ones n (r ∷ rs) (here, there) =
    omega (arith, get_or-replicate {A = ℕ} n r 1 0 here, total_ones n rs there)

-- What the batches of an allocation have in common, with `count` active regions.
pub record IsAllocation (mask : List Bool) (count budget : ℕ) (batches : List RegionBatch)
    : Type 0 where
  pub covering : AreCovering 0 budget batches
  pub distinct : AreDistinct (regions_of batches)
  pub active : All (IsActive mask) (regions_of batches)
  pub number : length (regions_of batches) ≡ min budget count

module _ (f : F64) (t : MultiTrustRegionState) (utility : List ℕ) where
  -- Fewer candidates than active regions.
  few_allocated :
      (budget : ℕ) (active : List ℕ)
      → budget < length active
      → AreDistinct active
      → All (IsActive t.active_mask) active
      → let chosen = take budget (sort_by (ranks_before f t utility) active) in
        IsAllocation t.active_mask (length active) budget (single_batches 0 chosen)
  few_allocated budget active few d on =
      let before = ranks_before f t utility in
      let sorted = sort_by before active in
      let chosen = take budget sorted in
      let (covering, regions) = single_covering 0 chosen in
      let size : length chosen ≡ budget =
        omega (arith, length-take budget sorted, length-sort_by before active) in
      let stop : 0 + length chosen ≡ budget = omega (arith, size) in
      let distinct : AreDistinct sorted =
        (let d' = sort_by-AreDistinct before (λ r. r) active (rw (map_itself active) d) in
          rw (map_itself sorted) at d') in
      let all =
        All-take (IsActive t.active_mask) budget sorted
          (All-sort_by before (IsActive t.active_mask) active on) in
      record {
        covering = rw stop at covering;
        distinct = rw regions (take-AreDistinct budget sorted distinct);
        active = rw regions all;
        number = rw regions (omega (arith, size));
      }

  -- At least one candidate for every active region.
  many_allocated :
      (budget first : ℕ) (rest : List ℕ)
      → length (first ∷ rest) ≤ budget
      → AreDistinct (first ∷ rest)
      → All (λ r. r < t.num_regions) (first ∷ rest)
      → All (IsActive t.active_mask) (first ∷ rest)
      → let counts =
          share f t utility
            (budget - length (first ∷ rest))
            first
            rest
            (replicate t.num_regions 1) in
        IsAllocation t.active_mask
          (length (first ∷ rest))
          budget
          (counted_batches 0 (first ∷ rest) counts)
  many_allocated budget first rest many d inside on =
      let active = first ∷ rest in
      let ones = replicate t.num_regions 1 in
      let extra = budget - length active in
      let counts = share f t utility extra first rest ones in
      let (sum, size, positive) =
        share-total f t utility first rest extra t.num_regions ones d inside
          (length-replicate t.num_regions 1)
          (All-replicate (λ c. 1 ≤ c) t.num_regions 1 (omega arith)) in
      let start_sum = total_ones t.num_regions active inside in
      let (covering, regions) =
        counted_covering 0 t.num_regions active counts positive size inside in
      let stop : 0 + total active counts ≡ budget = omega (arith, sum, start_sum) in
      record {
        covering = rw stop at covering;
        distinct = rw regions d;
        active = rw regions on;
        number = rw regions (omega arith);
      }

  module _ (budget first : ℕ) (rest : List ℕ) (not_zero : (budget == 0) ≡ false) where
    allocate_few :
        ltb budget (length (first ∷ rest)) ≡ true
        → allocate_active f t utility budget (first ∷ rest)
          ≡ ok (single_batches 0 (take budget (sort_by (ranks_before f t utility) (first ∷ rest))))
    unfolding allocate_active
    allocate_few few = simp (allocate_active, not_zero, few)

    allocate_many :
        ltb budget (length (first ∷ rest)) ≡ false
        → allocate_active f t utility budget (first ∷ rest)
          ≡ ok (
              counted_batches 0 (first ∷ rest) (
                share f t utility
                  (budget - length (first ∷ rest))
                  first
                  rest
                  (replicate t.num_regions 1)))
    unfolding allocate_active
    allocate_many many = simp (allocate_active, not_zero, many)

  active_allocated :
      (budget : ℕ) (active : List ℕ)
      → 1 ≤ budget
      → 1 ≤ length active
      → AreDistinct active
      → All (λ r. r < t.num_regions) active
      → All (IsActive t.active_mask) active
      → (batches : List RegionBatch) × (allocate_active f t utility budget active ≡ ok batches)
        × IsAllocation t.active_mask (length active) budget batches
  active_allocated budget [] some_budget some_active d inside on = ground arith
  active_allocated budget (first ∷ rest) some_budget some_active d inside on =
      let active = first ∷ rest in
      let not_zero : (budget == 0) ≡ false = ground arith in
      elim (Bool-cases (ltb budget (length active))) [
        | inl few ↦ (
          single_batches 0 (take budget (sort_by (ranks_before f t utility) active)),
          allocate_few budget first rest not_zero few,
          few_allocated budget active (ground arith) d on,
        )
        | inr many ↦ (
          counted_batches 0 active
              (share f t utility (budget - length active) first rest (replicate t.num_regions 1)),
          allocate_many budget first rest not_zero many,
          many_allocated budget first rest (ground arith) d inside on,
        )
      ]

-- In a state whose mask has one element for each region, with at least one active region, a utility
-- that is one finite value for each region, and a budget of at least one candidate, `allocate_with`
-- succeeds: the batches follow one another from 0 to the budget, none is empty, all are for
-- different active regions, and there is one for each active region, or for as many of them as the
-- budget has candidates.
pub allocate_with_covers :
    (f : F64) (t : MultiTrustRegionState) (utility : List ℕ) (budget : ℕ)
    → length t.active_mask ≡ t.num_regions
    → 1 ≤ length (active_regions 0 t.active_mask)
    → length utility ≡ t.num_regions
    → all_finite utility ≡ true
    → 1 ≤ budget
    → (batches : List RegionBatch) × (allocate_with f t utility budget ≡ ok batches)
      × IsAllocation t.active_mask (length (active_regions 0 t.active_mask)) budget batches
unfolding allocate_with
allocate_with_covers f t utility budget masked some_active sized finite some_budget =
    let active = active_regions 0 t.active_mask in
    let (found, distinct) = active_regions_found 0 t.active_mask in
    let (inside, on) = IsActive-inside t.active_mask active found in
    let accepted : (length utility == t.num_regions) ≡ true = ground arith in
    let (batches, done, allocation) =
      active_allocated f t utility budget active some_budget some_active distinct
        (rw masked at inside) on in
    (batches, rw (accepted, finite) done, allocation)
