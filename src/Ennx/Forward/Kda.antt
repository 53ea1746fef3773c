-- ===== src/Ennx/Forward/Kda.antt =====
-- The KDA attention request, its encoder and its dispatches, of forward_program.rs.
use ennbo.Prelude.{ℕ, ◌||◌, not, [], ◌∷◌}
use ennbo.Prelude.{Result, ok, ◌>>=◌, ◌>>◌, fail_if, ◌==◌}
use ennbo.Ennx.Forward.Plan.{ForwardError, tensor_zero, projection_inputs_differ, qkv_output_width}
use ennbo.Ennx.Forward.Plan.{wrapping_mul, KernelPlan, new_plan, with_tile, with_scratch_bytes}
use ennbo.Ennx.Forward.Plan.{token, output, input, head, state}
use ennbo.Ennx.Forward.Linear.{KdaPackedLinear, validate_linears, PackedAffinePlan}

pub record KdaTensorLayout : Type 0 where
  pub batch : ℕ
  pub sequence_length : ℕ
  pub heads : ℕ
  pub key_width : ℕ
  pub value_width : ℕ

-- `KdaTensorLayout::new`
unfoldable pub new_tensor : ℕ → ℕ → ℕ → ℕ → ℕ → Result ForwardError KdaTensorLayout
new_tensor batch sequence_length heads key_width value_width = do
  fail_if (batch == 0 || sequence_length == 0 || heads == 0 || key_width == 0 || value_width == 0)
      tensor_zero
  ok (record {
    batch = batch;
    sequence_length = sequence_length;
    heads = heads;
    key_width = key_width;
    value_width = value_width;
  })

unfoldable pub qkv_elements : KdaTensorLayout → ℕ
qkv_elements t =
    wrapping_mul (wrapping_mul (wrapping_mul t.batch t.sequence_length) t.heads) t.key_width

unfoldable pub value_elements : KdaTensorLayout → ℕ
value_elements t =
    wrapping_mul (wrapping_mul (wrapping_mul t.batch t.sequence_length) t.heads) t.value_width

unfoldable pub state_elements : KdaTensorLayout → ℕ
state_elements t =
    wrapping_mul (wrapping_mul (wrapping_mul t.batch t.heads) t.key_width) t.value_width

pub record KdaForwardRequest : Type 0 where
  pub tensor : KdaTensorLayout
  pub qkv : KdaPackedLinear
  pub control : KdaPackedLinear
  pub output : KdaPackedLinear
  pub seed : ℕ

-- `KdaForwardRequest::qkv_output_width`
unfoldable pub expected_qkv : KdaForwardRequest → ℕ
expected_qkv r = wrapping_mul (wrapping_mul 3 r.tensor.heads) r.tensor.key_width

unfoldable pub projection_dispatch_threads : KdaForwardRequest → ℕ
projection_dispatch_threads r =
    wrapping_mul (wrapping_mul r.tensor.batch r.tensor.sequence_length) (expected_qkv r)

unfoldable pub recurrence_dispatch_threads : KdaForwardRequest → ℕ
recurrence_dispatch_threads r =
    wrapping_mul (wrapping_mul r.tensor.batch r.tensor.heads) r.tensor.value_width

-- `KdaForwardRequest::validate`
unfoldable pub validate_request : KdaForwardRequest → Result ForwardError (Unit {0})
validate_request r = do
  validate_linears (r.qkv ∷ r.control ∷ r.output ∷ [])
  fail_if (not (r.qkv.input_width == r.output.input_width)) projection_inputs_differ
  fail_if (not (r.qkv.output_width == expected_qkv r))
      (qkv_output_width (expected_qkv r) r.qkv.output_width)
  ok tt

pub data KdaDispatch : Type 0 where
  project_qkv : ℕ → KdaDispatch
  split_qkv : ℕ → KdaDispatch
  recur : ℕ → KdaDispatch

-- `KdaEncoder::new`: the encoder is its request.
unfoldable pub new_encoder : KdaForwardRequest → Result ForwardError KdaForwardRequest
new_encoder r = do validate_request r; ok r

-- `KdaEncoder::encode`, an array of three.
unfoldable pub encode_kda : KdaForwardRequest → KdaDispatch × KdaDispatch × KdaDispatch
encode_kda r = (
  project_qkv (projection_dispatch_threads r),
  split_qkv (qkv_elements r.tensor),
  recur (recurrence_dispatch_threads r),
)

-- `KdaDispatch::kernel_plan`
unfoldable pub kda_kernel_plan : KdaDispatch → PackedAffinePlan → Result ForwardError KernelPlan
kda_kernel_plan (project_qkv threads) affine = do
  plan ← new_plan "kda_project_packed_16k" threads affine.threads_per_group
  plan' ← with_tile plan token affine.token_tile
  plan'' ← with_tile plan' output affine.output_tile
  with_tile plan'' input affine.input_tile
kda_kernel_plan (split_qkv threads) affine = do
  plan ← new_plan "kda_split_qkv_16k" threads 256
  plan' ← with_tile plan head 1
  with_tile plan' input 256
kda_kernel_plan (recur threads) affine = do
  plan ← new_plan "kda_recurrence_16k" threads 256
  plan' ← with_tile plan state 1
  plan'' ← with_tile plan' token 16_384
  ok (with_scratch_bytes plan'' 0)
