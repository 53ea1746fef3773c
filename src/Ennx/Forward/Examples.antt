-- ===== src/Ennx/Forward/Examples.antt =====
-- Runs of the launch plans, and their theorems at a concrete decoder layer.
use ennbo.Prelude.{ℕ, ◌+◌, ◌*◌, ◌≤◌, ◌≡◌, refl, ◌↔◌, arith, ok, List, [], ◌∷◌, All, map, length}
use mathlib.Core.List.{Memᴰ}
use ennbo.Ennx.Forward.Program.{new, kda_ops, program_version}
use ennbo.Ennx.Forward.Program.{perturb_packed_weights, matmul, reduce_objective}
use ennbo.Ennx.Forward.Program.Fused.{new_iff}
use ennbo.Ennx.Forward.Plan.{KernelPlan}
use ennbo.Ennx.Forward.Linear.{KdaPackedLinear, validate_linear, packed_bytes, apple_simd}
use ennbo.Ennx.Forward.Linear.Sizes.{packed_bytes_bounds, IsLinear}
use ennbo.Ennx.Forward.Kda.{expected_qkv, KdaTensorLayout}
use ennbo.Ennx.Forward.Control.{KdaControlRequest, validate_control}
use ennbo.Ennx.Forward.Control.Shapes.{IsControl, linears_of, validate_control_iff-IsControl}
use ennbo.Ennx.Forward.Moe.{
  KdaMoeLayerRequest, KdaMoeDispatch, validate_layer, encode, kernel_plans,
}
use ennbo.Ennx.Forward.Moe.Valid.{IsLayer, validate_layer_iff-IsLayer}
use ennbo.Ennx.Forward.Moe.Schedule.{pass_threads, encode_total, kernel_plans-IsLaunchable}
use ennbo.Ennx.Forward.Moe.Complete.{exact_threads, kernel_plans_total}
use ennbo.Ennx.Forward.Launch.{IsLaunchable, items_of, threads_of}

-- A packed layer of the given widths, with 4 bits in groups of 64.
abbrev packed : ℕ → ℕ → KdaPackedLinear
packed input output = record {
  byte_offset = 0;
  scale_offset = 0;
  bias_offset = 0;
  input_width = input;
  output_width = output;
  bits = 4;
  group_size = 64;
  element_offset = 0;
  perturb_whole = 0;
  perturb_threshold = 0;
}

abbrev small_tensor : KdaTensorLayout
small_tensor = record {
  batch = 1;
  sequence_length = 4;
  heads = 2;
  key_width = 64;
  value_width = 64;
}

-- Hidden width 128, two experts of width 64, the best one of them taken.
abbrev layer : KdaMoeLayerRequest
layer = record {
  kda = record {
    tensor = small_tensor;
    qkv = packed 128 384;
    control = packed 128 132;
    output = packed 128 128;
    seed = 7;
  };
  attention_norm = packed 128 1;
  moe_norm = packed 128 1;
  router = packed 128 2;
  expert_gate = packed 128 64 ∷ packed 128 64 ∷ [];
  expert_up = packed 128 64 ∷ packed 128 64 ∷ [];
  expert_down = packed 64 128 ∷ packed 64 128 ∷ [];
  top_k = 1;
  residual_scale = 0x3f80_0000;
  rms_epsilon = 0x3586_37bd;
}

layer-IsLayer : IsLayer layer
unfolding expected_qkv
layer-IsLayer = ground arith

layer_accepted : validate_layer layer ≡ ok tt
layer_accepted = (validate_layer_iff-IsLayer layer).1 layer-IsLayer

validate_layer_iff-IsLayer_example : (validate_layer layer ≡ ok tt) ↔ IsLayer layer
validate_layer_iff-IsLayer_example = validate_layer_iff-IsLayer layer

encode_total_example :
    (ds : List KdaMoeDispatch) × (encode layer ≡ ok ds) × (map threads_of ds ≡ pass_threads layer)
encode_total_example = encode_total layer layer_accepted

abbrev Planned : Type 0
Planned =
    (ps : List KernelPlan) × (kernel_plans layer apple_simd ≡ ok ps)
    × (map items_of ps ≡ exact_threads layer)

layer_planned : Planned
layer_planned =
    kernel_plans_total layer apple_simd layer_accepted (ground arith) (ground arith) (ground arith)
      (ground arith)

kernel_plans_total_example :
    (ps : List KernelPlan) × (kernel_plans layer apple_simd ≡ ok ps)
    × (map items_of ps ≡ exact_threads layer)
kernel_plans_total_example =
    kernel_plans_total layer apple_simd layer_accepted (ground arith) (ground arith) (ground arith)
      (ground arith)

kernel_plans-IsLaunchable_example :
    (validate_layer layer ≡ ok tt)
    × (length layer_planned.0 ≡ 10)
    × All IsLaunchable layer_planned.0
    × (map items_of layer_planned.0 ≡ pass_threads layer)
kernel_plans-IsLaunchable_example =
    kernel_plans-IsLaunchable layer apple_simd layer_planned.0 layer_planned.1

packed_accepted : validate_linear (packed 5 3) ≡ ok tt
unfolding validate_linear
packed_accepted = refl

packed_odd_row : packed_bytes (packed 5 3) ≡ 9
unfolding packed_bytes
packed_odd_row = refl

packed_bytes_bounds_example :
    (5 * 4 * 3 ≤ 8 * packed_bytes (packed 5 3))
    × (8 * packed_bytes (packed 5 3) ≤ (5 * 4 + 7) * 3)
    × (◌≡◌ {A = ℕ} 4 8 → packed_bytes (packed 5 3) ≡ 5 * 3)
packed_bytes_bounds_example = packed_bytes_bounds (packed 5 3) packed_accepted (omega arith)

-- A control request for the small tensor, whose convolution is stored with 8 bits.
abbrev control_request : KdaControlRequest
control_request = record {
  qkv_conv = record (packed 4 384) { bits = 8; group_size = 4 };
  control = packed 128 34;
  forget = packed 16 128;
  output_gate = packed 16 128;
  decay = packed 2 1;
  time_bias = packed 128 1;
  output_norm = packed 64 1;
  output = packed 128 128;
  gate_rank = 16;
}

validate_control_iff-IsControl_example :
    (validate_control control_request small_tensor 128 ≡ ok tt)
    ↔ (All IsLinear (linears_of control_request) × IsControl control_request small_tensor 128)
validate_control_iff-IsControl_example =
    validate_control_iff-IsControl control_request small_tensor 128

new_iff_example :
    (new kda_ops ≡ ok (record { ops = kda_ops; version = program_version }))
    ↔ (Memᴰ perturb_packed_weights kda_ops × Memᴰ matmul kda_ops × Memᴰ reduce_objective kda_ops)
new_iff_example = new_iff kda_ops
