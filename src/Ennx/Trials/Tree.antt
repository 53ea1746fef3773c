-- ===== src/Ennx/Trials/Tree.antt =====
-- `tree::check` and `tree::cpu_ask` of rust/crates/ennx/src/trials/tree.rs.
pub mod Chains
use ennbo.Prelude.{◌>>?◌}
use ennbo.Prelude.{
  ℕ, zero, suc, ◌+◌, ◌*◌, ◌≡◌, Bool, true, false, ◌||◌, not, Option, none, some, ◌∙◌,
}
use ennbo.Prelude.{
  List, [], ◌∷◌, ◌++◌, length, get_elem?, ◌==◌, ltb, leb, if◌then◌else◌, take, drop,
}
use ennbo.Prelude.{Result, ok, err, ◌>>=◌, ◌>>◌, fail_if, replicate}
use ennbo.Ennx.Float.{f32_lt, infinity, neg_infinity}
use ennbo.Ennx.Trials.Leaf.{
  Leaf, TrialError, region_centers, center_order, center_depth, center_bounds, panicked,
}
use ennbo.Ennx.Trials.Decode.{F32}
use ennbo.Ennx.Trials.Perturb.{Step}
use ennbo.Ennx.Trials.Row.{make_steps, materialize}
use ennbo.Ennx.Trials.Search.{Ask}
use ennbo.Ennx.Trials.Cpu.{Cpu, cpu_read, nearest_from, score}

abbrev pub max_depth : ℕ
max_depth = 8

pub record Center : Type 0 where
  pub parent : Option ℕ
  pub seed : ℕ

-- `center.parent.is_some_and(|parent| parent >= index)`
abbrev pub is_late : ℕ → Option ℕ → Bool
is_late index none = false
is_late index (some parent) = leb index parent

-- `while let Some(index) = parent`: `rounds` is `max_depth - depth`, so no round is left when the
-- depth would exceed it; `centers[index]` panics out of range.
unfoldable pub check_chain : ℕ → List Center → Option ℕ → Result TrialError (Unit {0})
check_chain rounds centers none = ok tt
check_chain zero centers (some index) = err center_depth
check_chain (suc rounds) centers (some index) = elim (get_elem? centers index) [
  | none ↦ err panicked
  | some center ↦ check_chain rounds centers center.parent
]

-- `for (index, center) in centers.iter().enumerate()`
unfoldable pub check_centers : List Center → ℕ → List Center → Result TrialError (Unit {0})
unfolding check_chain
check_centers centers index [] = ok tt
check_centers centers index (center ∷ later) = do
  fail_if (is_late index center.parent) center_order
  check_chain 7 centers center.parent
  check_centers centers (suc index) later

-- `region_centers.iter().any(|&center| center >= centers.len())`
abbrev pub any_outside : ℕ → List ℕ → Bool
any_outside count [] = false
any_outside count (center ∷ later) = leb count center || any_outside count later

unfoldable pub check : List Center → List ℕ → ℕ → Result TrialError (Unit {0})
unfolding check_centers
check centers regions num_regions = do
  fail_if (num_regions == 0 || not (length regions == num_regions)) region_centers
  check_centers centers 0 centers
  fail_if (any_outside (length centers) regions) center_bounds
  ok tt

-- `center.parent.map_or(root, |index| &center_rows[index])`
abbrev parent_row : List ℕ → List (List ℕ) → Option ℕ → Option (List ℕ)
parent_row root rows none = some root
parent_row root rows (some index) = get_elem? rows index

-- `for center in centers`, with the rows made so far.
unfoldable pub center_rows :
    List ℕ → List Leaf → List Step → List Center → List (List ℕ) → Option (List (List ℕ))
center_rows root leaves steps [] rows = some rows
center_rows root leaves steps (center ∷ centers) rows =
    parent_row root rows center.parent >>? λ parent.
    materialize parent leaves steps center.seed >>? λ row.
    center_rows root leaves steps centers (rows ++ (row ∷ []))

module _ (f : F32) where
  -- `for index in start..end`, over the seeds of a region.
  unfoldable pub region_best :
      Cpu
      → List ℕ
      → List Leaf
      → List Step
      → List (ℕ × ℕ)
      → Ask
      → List ℕ
      → ℕ
      → List ℕ
      → ℕ × ℕ
      → Option (ℕ × ℕ)
  unfolding nearest_from score
  region_best cpu base leaves steps history config draws index [] best = some best
  region_best cpu base leaves steps history config draws index (seed ∷ seeds) best =
      nearest_from f cpu base leaves steps seed 0 history (replicate config.neighbors (infinity, 0))
      >>? λ nearest. get_elem? draws index >>? λ draw.
          score f nearest history draw config >>? λ value.
          region_best cpu base leaves steps history config draws (suc index) seeds
            (if f32_lt best.1 value then (index, value) else best)

  -- `seeds[start..end]` panics when the seeds end before.
  abbrev seeds_between : ℕ → ℕ → List ℕ → Option (List ℕ)
  seeds_between start count seeds =
      if leb (start + count) (length seeds) then some (take count (drop start seeds)) else none

  -- `for (region, &center) in region_centers.iter().enumerate()`
  unfoldable pub regions_best :
      Cpu
      → List (List ℕ)
      → List Leaf
      → List Step
      → List (ℕ × ℕ)
      → Ask
      → List ℕ
      → ℕ
      → ℕ
      → List ℕ
      → List ℕ
      → Option (List (ℕ × ℕ))
  unfolding region_best
  regions_best cpu rows leaves steps history config draws per_region start seeds [] = some []
  regions_best cpu rows leaves steps history config draws per_region start seeds (center ∷ later) =
      seeds_between start per_region seeds >>? λ region_seeds. get_elem? rows center >>? λ base.
      region_best cpu base leaves steps history config draws start region_seeds
        (start, neg_infinity)
      >>? λ best.
          regions_best cpu rows leaves steps history config draws per_region (start + per_region)
            seeds later
          >>? λ rest. some (best ∷ rest)

  unfoldable pub cpu_ask_tree :
      (ℕ → ℕ → List ℕ)
      → Cpu
      → List ℕ
      → List (ℕ × ℕ)
      → ℕ
      → List Center
      → List ℕ
      → List ℕ
      → List Leaf
      → Ask
      → Option (List (ℕ × ℕ))
  unfolding make_steps center_rows regions_best
  cpu_ask_tree draws cpu root history per_region centers regions seeds leaves config =
      make_steps f leaves config.length >>? λ steps.
      center_rows root leaves steps centers [] >>? λ rows.
      regions_best cpu rows leaves steps history config (draws (length seeds) config.seed)
        per_region 0 seeds regions
