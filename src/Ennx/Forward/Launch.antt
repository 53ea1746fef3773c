-- ===== src/Ennx/Forward/Launch.antt =====
-- The kernel plans of the layer's code and their launches.
use ennbo.Prelude.{ℕ, ◌+◌, ◌*◌, ◌/◌, ◌%◌, ◌≤◌, ◌<◌, ◌≡◌, refl, arith, List, [], ◌∷◌}
use ennbo.Prelude.{All, map, some, Result-cases, inl, inr, ok, err}
use native.Mathlib.Nat.{mod-lt, div-add-mod'}
use ennbo.Prelude.{if◌then◌else◌, ◌==◌, ◌≢◌}
use ennbo.Ennx.Forward.Plan.{KernelPlan, WorkTile, groups, div_ceil, ForwardError}
use ennbo.Ennx.Forward.Plan.{new_plan, new_grid, new_tile, with_tile, with_scratch_bytes}
use ennbo.Ennx.Forward.Linear.{PackedAffinePlan}
use ennbo.Ennx.Forward.Kda.{project_qkv, split_qkv, recur, kda_kernel_plan}
use ennbo.Ennx.Forward.Moe.{KdaMoeDispatch, attention_norm_pass, kda_pass, attention_residual}
use ennbo.Ennx.Forward.Moe.{moe_norm_pass, route_experts, expert_gate_up, expert_down_pass}
use ennbo.Ennx.Forward.Moe.{moe_residual, kernel_plan, collect_plans}

abbrev pub HasItems : WorkTile → Type 0
HasItems t = 1 ≤ t.items

-- A grid and tiles without a zero, and enough groups for all items with none to spare.
pub record IsLaunchable (p : KernelPlan) : Type 0 where
  pub grid_items : 1 ≤ p.grid.items
  pub threads : 1 ≤ p.grid.threads_per_group
  pub tiles : All HasItems p.tiles

divisor : (a b : ℕ) → 1 ≤ b → (a % b < b) × (a ≡ a / b * b + a % b)
divisor a b h = (mod-lt a h, omega (arith, div-add-mod' a b))

-- The groups of a launchable plan cover its items, and the last group is not empty.
pub groups_cover :
    (p : KernelPlan)
    → IsLaunchable p
    → (n : ℕ) × (groups p.grid ≡ some n)
      × (p.grid.items ≤ n * p.grid.threads_per_group)
      × (n * p.grid.threads_per_group < p.grid.items + p.grid.threads_per_group)
unfolding groups div_ceil
groups_cover p v =
    let a = p.grid.items in
    let b = p.grid.threads_per_group in
    (
      a / b + (if a % b == 0 then 0 else 1),
      ground (arith, v.threads),
      ground (arith, divisor a b v.threads),
      ground (arith, divisor a b v.threads),
    )

pub kernel_plan-IsLaunchable :
    (d : KdaMoeDispatch) (a : PackedAffinePlan) {p : KernelPlan}
    → kernel_plan d a ≡ ok p
    → IsLaunchable p
unfolding kernel_plan kda_kernel_plan new_plan new_grid with_tile new_tile with_scratch_bytes
kernel_plan-IsLaunchable (attention_norm_pass n) a e = ground arith
kernel_plan-IsLaunchable (kda_pass (project_qkv n)) a e = ground arith
kernel_plan-IsLaunchable (kda_pass (split_qkv n)) a e = ground arith
kernel_plan-IsLaunchable (kda_pass (recur n)) a e = ground arith
kernel_plan-IsLaunchable _ a e = ground arith

-- The threads of a dispatch.
abbrev pub threads_of : KdaMoeDispatch → ℕ
threads_of (attention_norm_pass n) = n
threads_of (kda_pass (project_qkv n)) = n
threads_of (kda_pass (split_qkv n)) = n
threads_of (kda_pass (recur n)) = n
threads_of (attention_residual n) = n
threads_of (moe_norm_pass n) = n
threads_of (route_experts n) = n
threads_of (expert_gate_up n) = n
threads_of (expert_down_pass n) = n
threads_of (moe_residual n) = n

abbrev pub items_of : KernelPlan → ℕ
items_of p = p.grid.items

-- A schedule without a zero.
abbrev pub HasTiles : PackedAffinePlan → Type 0
HasTiles a =
    (1 ≤ a.token_tile) × (1 ≤ a.output_tile) × (1 ≤ a.input_tile) × (1 ≤ a.threads_per_group)

kernel_plan-items :
    (d : KdaMoeDispatch) (a : PackedAffinePlan) {p : KernelPlan}
    → kernel_plan d a ≡ ok p
    → items_of p ≡ threads_of d
unfolding kernel_plan kda_kernel_plan new_plan new_grid with_tile new_tile with_scratch_bytes
kernel_plan-items (kda_pass (project_qkv n)) a e = ground arith
kernel_plan-items (kda_pass (split_qkv n)) a e = ground arith
kernel_plan-items (kda_pass (recur n)) a e = ground arith
kernel_plan-items _ a e = ground arith

kernel_plan-ne_err :
    (d : KdaMoeDispatch) (a : PackedAffinePlan) {x : ForwardError}
    → HasTiles a
    → 1 ≤ threads_of d
    → kernel_plan d a ≢ err x
unfolding kernel_plan kda_kernel_plan new_plan new_grid with_tile new_tile with_scratch_bytes
kernel_plan-ne_err (kda_pass (project_qkv n)) a t h = λ e. ground arith
kernel_plan-ne_err (kda_pass (split_qkv n)) a t h = λ e. ground arith
kernel_plan-ne_err (kda_pass (recur n)) a t h = λ e. ground arith
kernel_plan-ne_err _ a t h = λ e. ground arith

-- Every plan that the code returns for a list of dispatches is launchable, and the plans' grids
-- have the dispatches' threads, in order.
pub collect_plans-IsLaunchable :
    (a : PackedAffinePlan) (ds : List KdaMoeDispatch) {ps : List KernelPlan}
    → collect_plans a ds ≡ ok ps
    → All IsLaunchable ps × (map items_of ps ≡ map threads_of ds)
unfolding collect_plans
collect_plans-IsLaunchable a [] e = ground arith
collect_plans-IsLaunchable a (d ∷ ds) e = elim (Result-cases (kernel_plan d a)) [
  | inl (p, ep) ↦ elim (Result-cases (collect_plans a ds)) [
    | inl (qs, eq) ↦
        let (all, same) = collect_plans-IsLaunchable a ds eq in
        ground (arith, kernel_plan-IsLaunchable d a ep, kernel_plan-items d a ep)
    | inr (x, eq) ↦ ground arith
  ]
  | inr (x, ep) ↦ ground arith
]

abbrev pub HasThreads : KdaMoeDispatch → Type 0
HasThreads d = 1 ≤ threads_of d

-- With threads in every dispatch, and no zero in the schedule, every dispatch has its plan.
pub collect_plans-ok :
    (a : PackedAffinePlan) (ds : List KdaMoeDispatch)
    → HasTiles a
    → All HasThreads ds
    → (ps : List KernelPlan) × (collect_plans a ds ≡ ok ps)
unfolding collect_plans
collect_plans-ok a [] t h = ([], refl)
collect_plans-ok a (d ∷ ds) t (hd, h) = elim (Result-cases (kernel_plan d a)) [
  | inl (p, ep) ↦ let (ps, eps) = collect_plans-ok a ds t h in (p ∷ ps, rw (ep, eps))
  | inr (x, ep) ↦ absurd (kernel_plan-ne_err d a t hd ep)
]
