-- ===== src/Ennx/Forward/Control.antt =====
-- `KdaControlRequest` of forward_program.rs.
pub mod Shapes
use ennbo.Prelude.{ℕ, Bool, ◌||◌, not, [], ◌∷◌}
use ennbo.Prelude.{Result, ok, ◌>>◌, fail_if, ◌==◌}
use ennbo.Ennx.Forward.Plan.{ForwardError, qkv_convolution, control_shape, forget_shape}
use ennbo.Ennx.Forward.Plan.{
  output_gate_shape, output_shape, recurrent_shapes, wrapping_mul, wrapping_add,
}
use ennbo.Ennx.Forward.Linear.{KdaPackedLinear, validate_linears}
use ennbo.Ennx.Forward.Kda.{KdaTensorLayout}

pub record KdaControlRequest : Type 0 where
  pub qkv_conv : KdaPackedLinear
  pub control : KdaPackedLinear
  pub forget : KdaPackedLinear
  pub output_gate : KdaPackedLinear
  pub decay : KdaPackedLinear
  pub time_bias : KdaPackedLinear
  pub output_norm : KdaPackedLinear
  pub output : KdaPackedLinear
  pub gate_rank : ℕ

abbrev pub differ : ℕ → ℕ → Bool
differ a b = not (a == b)

-- `KdaControlRequest::validate`
unfoldable pub validate_control :
    KdaControlRequest → KdaTensorLayout → ℕ → Result ForwardError (Unit {0})
validate_control r tensor hidden_width = do
  validate_linears (
      r.qkv_conv ∷ r.control ∷ r.forget ∷ r.output_gate ∷ r.decay ∷ r.time_bias ∷ r.output_norm
      ∷ r.output ∷ [])
  let width = wrapping_mul tensor.heads tensor.value_width
  fail_if
      (differ r.qkv_conv.input_width 4
        || differ r.qkv_conv.output_width (wrapping_mul 3 width)
        || differ r.qkv_conv.bits 8
        || differ r.qkv_conv.group_size 4)
      qkv_convolution
  fail_if
      (differ r.control.input_width hidden_width
        || differ r.control.output_width (wrapping_add (wrapping_mul 2 r.gate_rank) tensor.heads))
      control_shape
  fail_if (differ r.forget.input_width r.gate_rank || differ r.forget.output_width width)
      forget_shape
  fail_if (differ r.output_gate.input_width r.gate_rank || differ r.output_gate.output_width width)
      output_gate_shape
  fail_if (differ r.output.input_width width || differ r.output.output_width hidden_width)
      output_shape
  fail_if
      (differ r.decay.input_width tensor.heads
        || differ r.decay.output_width 1
        || differ r.time_bias.input_width width
        || differ r.time_bias.output_width 1
        || differ r.output_norm.input_width tensor.value_width
        || differ r.output_norm.output_width 1)
      recurrent_shapes
  ok tt
