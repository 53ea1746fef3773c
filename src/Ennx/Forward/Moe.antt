-- ===== src/Ennx/Forward/Moe.antt =====
-- The KDA-MoE decoder layer of forward_program.rs: its validation, schedule and kernel plans.
-- An `f32` is its 32-bit pattern.
pub mod Valid
pub mod Schedule
pub mod Complete
use ennbo.Prelude.{ℕ, ◌/◌, ◌%◌, ◌^◌, Bool, ◌||◌, not}
use ennbo.Prelude.{List, [], ◌∷◌, ◌++◌, length}
use ennbo.Prelude.{Result, ok, err, ◌>>=◌, ◌>>◌, fail_if, ◌==◌, ltb, leb}
use ennbo.Ennx.Float.{is_finite, le_zero}
use ennbo.Ennx.Forward.Plan.{ForwardError, attention_norm_shape, moe_norm_shape, expert_lists}
use ennbo.Ennx.Forward.Plan.{top_k_range, not_finite, epsilon_not_positive, router_shape}
use ennbo.Ennx.Forward.Plan.{gate_up_shape, down_shape, index_panic, wrapping_mul, KernelPlan}
use ennbo.Ennx.Forward.Plan.{new_plan, with_tile, token, output, input, expert}
use ennbo.Ennx.Forward.Linear.{KdaPackedLinear, validate_linear, validate_linears}
use ennbo.Ennx.Forward.Linear.{PackedAffinePlan, validate_affine}
use ennbo.Ennx.Forward.Kda.{KdaForwardRequest, validate_request, new_encoder, encode_kda}
use ennbo.Ennx.Forward.Kda.{KdaDispatch, kda_kernel_plan}

pub record KdaMoeLayerRequest : Type 0 where
  pub kda : KdaForwardRequest
  pub attention_norm : KdaPackedLinear
  pub moe_norm : KdaPackedLinear
  pub router : KdaPackedLinear
  pub expert_gate : List KdaPackedLinear
  pub expert_up : List KdaPackedLinear
  pub expert_down : List KdaPackedLinear
  pub top_k : ℕ
  pub residual_scale : ℕ
  pub rms_epsilon : ℕ

-- The loop over `expert_gate.zip(expert_up).zip(expert_down)`.
unfoldable pub validate_experts :
    ℕ
    → List KdaPackedLinear
    → List KdaPackedLinear
    → List KdaPackedLinear
    → Result ForwardError (Unit {0})
validate_experts hidden (gate ∷ gates) (up ∷ ups) (down ∷ downs) = do
  validate_linear gate
  validate_linear up
  validate_linear down
  fail_if
      (not (gate.input_width == hidden)
        || not (up.input_width == hidden)
        || not (gate.output_width == up.output_width))
      gate_up_shape
  fail_if (not (down.input_width == gate.output_width) || not (down.output_width == hidden))
      down_shape
  validate_experts hidden gates ups downs
validate_experts hidden _ _ _ = ok tt

-- `KdaMoeLayerRequest::validate`. The comparison of the epsilon comes after the check that it is
-- finite, so that it is a comparison of numbers.
unfoldable pub validate_layer : KdaMoeLayerRequest → Result ForwardError (Unit {0})
validate_layer r = do
  validate_request r.kda
  validate_linears (r.attention_norm ∷ r.moe_norm ∷ r.router ∷ [])
  let hidden = r.kda.qkv.input_width
  fail_if (not (r.attention_norm.input_width == hidden) || not (r.attention_norm.output_width == 1))
      attention_norm_shape
  fail_if (not (r.moe_norm.input_width == hidden) || not (r.moe_norm.output_width == 1))
      moe_norm_shape
  let experts = length r.expert_gate
  fail_if
      (experts == 0 || not (length r.expert_up == experts) || not (length r.expert_down == experts))
      expert_lists
  fail_if (r.top_k == 0 || ltb experts r.top_k || ltb 8 r.top_k) top_k_range
  fail_if (not (is_finite r.residual_scale) || not (is_finite r.rms_epsilon)) not_finite
  fail_if (le_zero r.rms_epsilon) epsilon_not_positive
  fail_if (not (r.router.input_width == hidden) || not (r.router.output_width == experts))
      router_shape
  validate_experts hidden r.expert_gate r.expert_up r.expert_down

unfoldable pub tokens_of : KdaMoeLayerRequest → ℕ
tokens_of r = wrapping_mul r.kda.tensor.batch r.kda.tensor.sequence_length

unfoldable pub hidden_elements : KdaMoeLayerRequest → ℕ
unfolding tokens_of
hidden_elements r = wrapping_mul (tokens_of r) r.kda.qkv.input_width

-- `expert_gate[0]` panics on an empty list.
unfoldable pub expert_activation_elements : KdaMoeLayerRequest → Result ForwardError ℕ
unfolding tokens_of
expert_activation_elements r = elim r.expert_gate [
  | [] ↦ err index_panic
  | gate ∷ gates ↦ ok (wrapping_mul (wrapping_mul (tokens_of r) r.top_k) gate.output_width)
]

pub data KdaMoeDispatch : Type 0 where
  attention_norm_pass : ℕ → KdaMoeDispatch
  kda_pass : KdaDispatch → KdaMoeDispatch
  attention_residual : ℕ → KdaMoeDispatch
  moe_norm_pass : ℕ → KdaMoeDispatch
  route_experts : ℕ → KdaMoeDispatch
  expert_gate_up : ℕ → KdaMoeDispatch
  expert_down_pass : ℕ → KdaMoeDispatch
  moe_residual : ℕ → KdaMoeDispatch

-- `KdaMoeLayerRequest::encode`
unfoldable pub encode : KdaMoeLayerRequest → Result ForwardError (List KdaMoeDispatch)
encode r = do
  validate_layer r
  kda ← new_encoder r.kda
  let tokens = tokens_of r
  let hidden = hidden_elements r
  activation ← expert_activation_elements r
  ok (
      attention_norm_pass tokens
      ∷ kda_pass (encode_kda kda).0
      ∷ kda_pass (encode_kda kda).1
      ∷ kda_pass (encode_kda kda).2
      ∷ attention_residual hidden
      ∷ moe_norm_pass tokens
      ∷ route_experts tokens
      ∷ expert_gate_up activation
      ∷ expert_down_pass hidden
      ∷ moe_residual hidden
      ∷ [])

-- `KdaMoeDispatch::kernel_plan`
unfoldable pub kernel_plan : KdaMoeDispatch → PackedAffinePlan → Result ForwardError KernelPlan
kernel_plan (attention_norm_pass threads) affine = do
  plan ← new_plan "decoder_rms_norm" threads 256
  plan' ← with_tile plan token 1
  with_tile plan' input 256
kernel_plan (kda_pass dispatch) affine = kda_kernel_plan dispatch affine
kernel_plan (attention_residual threads) affine = do
  plan ← new_plan "decoder_residual" threads 256
  with_tile plan input 256
kernel_plan (moe_residual threads) affine = do
  plan ← new_plan "decoder_residual" threads 256
  with_tile plan input 256
kernel_plan (moe_norm_pass threads) affine = do
  plan ← new_plan "decoder_rms_norm" threads 256
  plan' ← with_tile plan token 1
  with_tile plan' input 256
kernel_plan (route_experts threads) affine = do
  plan ← new_plan "moe_router_topk" threads 1
  with_tile plan token 1
kernel_plan (expert_gate_up threads) affine = do
  plan ← new_plan "moe_gate_up" threads affine.threads_per_group
  plan' ← with_tile plan token affine.token_tile
  plan'' ← with_tile plan' expert 1
  with_tile plan'' input affine.input_tile
kernel_plan (expert_down_pass threads) affine = do
  plan ← new_plan "moe_down" threads affine.threads_per_group
  plan' ← with_tile plan token affine.token_tile
  plan'' ← with_tile plan' output affine.output_tile
  with_tile plan'' input affine.input_tile

-- `for linear in … { affine.validate(*linear)?; }`
unfoldable pub validate_affines :
    PackedAffinePlan → List KdaPackedLinear → Result ForwardError (Unit {0})
validate_affines affine [] = ok tt
validate_affines affine (l ∷ ls) = do validate_affine affine l; validate_affines affine ls

-- `.map(|dispatch| dispatch.kernel_plan(affine)).collect()`
unfoldable pub collect_plans :
    PackedAffinePlan → List KdaMoeDispatch → Result ForwardError (List KernelPlan)
collect_plans affine [] = ok []
collect_plans affine (d ∷ ds) = do
  plan ← kernel_plan d affine
  plans ← collect_plans affine ds
  ok (plan ∷ plans)

-- `KdaMoeLayerRequest::kernel_plans`
unfoldable pub kernel_plans :
    KdaMoeLayerRequest → PackedAffinePlan → Result ForwardError (List KernelPlan)
kernel_plans r affine = do
  validate_layer r
  validate_affine affine r.kda.qkv
  validate_affine affine r.router
  validate_affines affine (r.expert_gate ++ (r.expert_up ++ r.expert_down))
  dispatches ← encode r
  collect_plans affine dispatches
