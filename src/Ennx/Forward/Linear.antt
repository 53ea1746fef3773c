-- ===== src/Ennx/Forward/Linear.antt =====
-- Packed linear layers and the affine schedule of forward_program.rs.
pub mod Sizes
use Prim.Native.String.{String}
use ennbo.Prelude.{ℕ, ◌+◌, ◌*◌, ◌/◌, ◌%◌, Bool, ◌||◌, ◌&&◌, not, Option, none, some, List, [], ◌∷◌}
use ennbo.Prelude.{Result, ok, err, ◌>>=◌, ◌>>◌, fail_if, if◌then◌else◌, ◌==◌, ltb}
use ennbo.Ennx.Forward.Plan.{ForwardError, linear_zero, linear_bits, schedule_zero}
use ennbo.Ennx.Forward.Plan.{input_not_divisible, dispatch_overflow, wrapping_mul, checked_mul}
use ennbo.Ennx.Forward.Plan.{
  div_ceil, KernelPlan, new_plan, with_tile, WorkAxis, token, output, input,
}

pub record KdaPackedLinear : Type 0 where
  pub byte_offset : ℕ
  pub scale_offset : ℕ
  pub bias_offset : ℕ
  pub input_width : ℕ
  pub output_width : ℕ
  pub bits : ℕ  -- u8
  pub group_size : ℕ
  pub element_offset : ℕ
  pub perturb_whole : ℕ
  pub perturb_threshold : ℕ

-- `KdaPackedLinear::validate`
unfoldable pub validate_linear : KdaPackedLinear → Result ForwardError (Unit {0})
validate_linear l = do
  fail_if (l.input_width == 0 || l.output_width == 0 || l.group_size == 0) linear_zero
  fail_if (not (l.bits == 4) && not (l.bits == 8)) (linear_bits l.bits)
  ok tt

-- `for linear in list { linear.validate()?; }`
unfoldable pub validate_linears : List KdaPackedLinear → Result ForwardError (Unit {0})
validate_linears [] = ok tt
validate_linears (l ∷ ls) = do validate_linear l; validate_linears ls

-- `KdaPackedLinear::packed_bytes`; the divisor is the constant 8, so there is no panic.
unfoldable pub packed_bytes : KdaPackedLinear → ℕ
packed_bytes l =
    let row_bits = wrapping_mul l.input_width l.bits in
    let bytes_per_row = row_bits / 8 + (if row_bits % 8 == 0 then 0 else 1) in
    wrapping_mul bytes_per_row l.output_width

unfoldable pub groups_per_row : KdaPackedLinear → Option ℕ
groups_per_row l = div_ceil l.input_width l.group_size

pub record PackedAffinePlan : Type 0 where
  pub token_tile : ℕ
  pub output_tile : ℕ
  pub input_tile : ℕ
  pub threads_per_group : ℕ

abbrev pub apple_simd : PackedAffinePlan
apple_simd = record { token_tile = 1; output_tile = 16; input_tile = 64; threads_per_group = 256 }

-- `PackedAffinePlan::validate`
unfoldable pub validate_affine : PackedAffinePlan → KdaPackedLinear → Result ForwardError (Unit {0})
validate_affine a l = do
  validate_linear l
  fail_if (a.token_tile == 0 || a.output_tile == 0 || a.input_tile == 0 || a.threads_per_group == 0)
      schedule_zero
  fail_if (not (l.input_width % a.input_tile == 0)) input_not_divisible
  ok tt

-- `.ok_or("packed affine dispatch size overflow")`
abbrev pub ok_or_overflow : Option ℕ → Result ForwardError ℕ
ok_or_overflow none = err dispatch_overflow
ok_or_overflow (some n) = ok n

-- `PackedAffinePlan::kernel_plan`
unfoldable pub affine_kernel_plan :
    PackedAffinePlan → String → ℕ → KdaPackedLinear → Result ForwardError KernelPlan
affine_kernel_plan a kernel tokens l = do
  validate_affine a l
  items ← ok_or_overflow (checked_mul tokens l.output_width)
  plan ← new_plan kernel items a.threads_per_group
  plan' ← with_tile plan token a.token_tile
  plan'' ← with_tile plan' output a.output_tile
  with_tile plan'' input a.input_tile
