-- ===== src/Ennx/Forward/Plan.antt =====
-- Tiles, grids and kernel plans of forward_program.rs.
use Prim.Native.String.{String}
use ennbo.Prelude.{ℕ, ◌+◌, ◌*◌, ◌/◌, ◌%◌, ◌^◌, ◌||◌, Option, none, some, List, [], ◌∷◌, ◌++◌}
use ennbo.Prelude.{Result, ok, ◌>>=◌, ◌>>◌, fail_if, if◌then◌else◌, ◌==◌, ltb}

pub data WorkAxis : Type 0 where
  token output input head expert state : WorkAxis

pub data ForwardError : Type 0 where
  tile_zero grid_zero schedule_zero input_not_divisible dispatch_overflow : ForwardError
  linear_zero : ForwardError
  linear_bits : ℕ → ForwardError
  projection_inputs_differ : ForwardError
  qkv_output_width : ℕ → ℕ → ForwardError
  tensor_zero : ForwardError
  qkv_convolution control_shape forget_shape output_gate_shape output_shape : ForwardError
  recurrent_shapes : ForwardError
  attention_norm_shape moe_norm_shape expert_lists top_k_range not_finite : ForwardError
  epsilon_not_positive router_shape gate_up_shape down_shape : ForwardError
  -- The panic of `expert_gate[0]` on an empty list.
  index_panic : ForwardError

-- A product of `usize` values; a release build wraps around.
abbrev pub wrapping_mul : ℕ → ℕ → ℕ
wrapping_mul a b = a * b % 2 ^ 64

abbrev pub wrapping_add : ℕ → ℕ → ℕ
wrapping_add a b = (a + b) % 2 ^ 64

abbrev pub checked_mul : ℕ → ℕ → Option ℕ
checked_mul a b = if ltb (a * b) (2 ^ 64) then some (a * b) else none

-- `usize::div_ceil`; `none` is the panic on a zero divisor.
unfoldable pub div_ceil : ℕ → ℕ → Option ℕ
div_ceil a b = if b == 0 then none else some (a / b + (if a % b == 0 then 0 else 1))

pub record WorkTile : Type 0 where
  pub axis : WorkAxis
  pub items : ℕ

unfoldable pub new_tile : WorkAxis → ℕ → Result ForwardError WorkTile
new_tile axis items = do fail_if (items == 0) tile_zero; ok (record { axis = axis; items = items })

pub record WorkGrid : Type 0 where
  pub items : ℕ
  pub threads_per_group : ℕ

unfoldable pub new_grid : ℕ → ℕ → Result ForwardError WorkGrid
new_grid items threads_per_group = do
  fail_if (items == 0 || threads_per_group == 0) grid_zero
  ok (record { items = items; threads_per_group = threads_per_group })

unfoldable pub groups : WorkGrid → Option ℕ
groups g = div_ceil g.items g.threads_per_group

pub record KernelPlan : Type 0 where
  pub kernel : String
  pub grid : WorkGrid
  pub tiles : List WorkTile
  pub scratch_bytes : ℕ

unfoldable pub new_plan : String → ℕ → ℕ → Result ForwardError KernelPlan
new_plan kernel items threads_per_group = do
  grid ← new_grid items threads_per_group
  ok (record { kernel = kernel; grid = grid; tiles = []; scratch_bytes = 0 })

unfoldable pub with_tile : KernelPlan → WorkAxis → ℕ → Result ForwardError KernelPlan
with_tile plan axis items = do
  tile ← new_tile axis items
  ok (record plan { tiles = plan.tiles ++ (tile ∷ []) })

unfoldable pub with_scratch_bytes : KernelPlan → ℕ → KernelPlan
with_scratch_bytes plan bytes = record plan { scratch_bytes = bytes }
